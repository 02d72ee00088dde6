-- ===== src/Cc/Omits.antt =====
-- What `ParseInvocation` of pkgs/ji/jig/src/cc_mode.cc makes of a command line, as a relation: which arguments
-- the key keeps, and which ones are source files, objects and options that end before the link.
use corepkgs_v.Prelude.{
  ℕ, ◌+◌, ◌≡◌, refl, sym, ap, ◌∙◌, Bool, true, false, ◌&&◌, ◌||◌, List, [], ◌∷◌, ◌++◌, append_assoc,
  append-nil, arith, ltb, if◌then◌else◌, Bytes, codes, starts_with, length, length-append,
}
use corepkgs_v.Cc.Options.{is_source_file, is_object_input, is_no_output_option}
use corepkgs_v.Cc.Invocation.{is, is_wp, is_md, is_stop, Scan}

-- The arguments of a command line by what they are, each list in the order of the line.
pub record Parts : Type 0 where
  pub keys : List Bytes
  pub sources : List Bytes
  pub objects : List Bytes
  pub stops : List Bytes

abbrev pub no_parts : Parts
no_parts = record { keys = []; sources = []; objects = []; stops = [] }

abbrev pub together : Parts → Parts → Parts
together p q = record {
  keys = p.keys ++ q.keys;
  sources = p.sources ++ q.sources;
  objects = p.objects ++ q.objects;
  stops = p.stops ++ q.stops;
}

-- Options whose next argument is their value, and that stay out of the key with it.
abbrev pub takes_depfile_value : Bytes → Bool
takes_depfile_value arg = is arg (codes "-MF") || is arg (codes "-MT") || is arg (codes "-MQ")

-- Arguments that stay out of the key.
abbrev pub is_left_out : Bytes → Bool
is_left_out arg =
    takes_depfile_value arg
    || is_wp arg
    || is_md arg
    || starts_with arg (codes "-o")
    || is_no_output_option arg
    || is_source_file arg

-- Arguments that make a link one of objects.
abbrev pub is_object : Bytes → Bool
is_object arg = is_object_input arg || is arg (codes "-shared") || is arg (codes "-r")

abbrev pub only : Bool → Bytes → List Bytes
only b arg = if b then arg ∷ [] else []

abbrev pub key_part : Bytes → Parts
key_part arg = record no_parts { keys = arg ∷ [] }

abbrev pub kept_part : Bytes → Parts
kept_part arg = record {
  keys = arg ∷ [];
  sources = [];
  objects = only (is_object arg) arg;
  stops = only (is_stop arg) arg;
}

-- A command line and its parts. The flag is set behind "-include-pch", whose value goes into the key,
-- whatever it is, with each "-Xclang" in front of it. An option without its value, at the end of the line,
-- goes into the key. All other arguments go into the key exactly if they are not left out.
pub data Omits : Bool → List Bytes → Parts → Type 0 where
  done : Omits false [] no_parts
  keeps :
      {args : List Bytes} {p : Parts} (arg : Bytes)
      → is_left_out arg ≡ false
      → is arg (codes "-include-pch") ≡ false
      → Omits false args p
      → Omits false (arg ∷ args) (together (kept_part arg) p)
  bare :
      {p : Parts} (arg : Bytes)
      → (takes_depfile_value arg || is arg (codes "-o")) ≡ true
      → Omits false [] p
      → Omits false (arg ∷ []) (together (key_part arg) p)
  pch :
      {args : List Bytes} {p : Parts} (arg : Bytes)
      → is arg (codes "-include-pch") ≡ true
      → Omits true args p
      → Omits false (arg ∷ args) (together (key_part arg) p)
  pch_flag :
      {args : List Bytes} {p : Parts} (arg : Bytes)
      → is arg (codes "-Xclang") ≡ true
      → Omits true args p
      → Omits true (arg ∷ args) (together (key_part arg) p)
  pch_value :
      {args : List Bytes} {p : Parts} (arg : Bytes)
      → is arg (codes "-Xclang") ≡ false
      → Omits false args p
      → Omits true (arg ∷ args) (together (key_part arg) p)
  pch_end : {p : Parts} → Omits false [] p → Omits true [] p
  output :
      {args : List Bytes} {p : Parts} (arg value : Bytes)
      → is arg (codes "-o") ≡ true
      → Omits false args p
      → Omits false (arg ∷ value ∷ args) p
  glued_output :
      {args : List Bytes} {p : Parts} (arg : Bytes)
      → (starts_with arg (codes "-o") && ltb 2 (length arg)) ≡ true
      → Omits false args p
      → Omits false (arg ∷ args) p
  depfile_value :
      {args : List Bytes} {p : Parts} (arg value : Bytes)
      → takes_depfile_value arg ≡ true
      → Omits false args p
      → Omits false (arg ∷ value ∷ args) p
  depfile_flag :
      {args : List Bytes} {p : Parts} (arg : Bytes)
      → (is_wp arg || is_md arg) ≡ true
      → Omits false args p
      → Omits false (arg ∷ args) p
  question :
      {args : List Bytes} {p : Parts} (arg : Bytes)
      → is_no_output_option arg ≡ true
      → Omits false args p
      → Omits false (arg ∷ args) p
  source :
      {args : List Bytes} {p : Parts} (arg : Bytes)
      → is_source_file arg ≡ true
      → is_no_output_option arg ≡ false
      → Omits false args p
      → Omits false (arg ∷ args) (record p { sources = arg ∷ p.sources })

abbrev pub some_in : List Bytes → Bool
some_in [] = false
some_in (x ∷ xs) = true

abbrev pub last_or : Bytes → List Bytes → Bytes
last_or first [] = first
last_or first (x ∷ xs) = last_or x xs

-- The files among the objects.
abbrev pub inputs_of : List Bytes → List Bytes
inputs_of [] = []
inputs_of (x ∷ xs) = only (is_object_input x) x ++ inputs_of xs

-- What the loop of `ParseInvocation` has found so far.
pub record View : Type 0 where
  pub key_args : List Bytes
  pub inputs : List Bytes
  pub file : Bytes
  pub count : ℕ
  pub has_objects : Bool
  pub compile_only : Bool
  pub args : List Bytes
  pub link_one : Bool
  pub link : Bool

abbrev pub view : Scan → View
view s = record {
  key_args = s.inv.key_args;
  inputs = s.inv.inputs;
  file = s.inv.source;
  count = s.sources;
  has_objects = s.objects;
  compile_only = s.inv.compile_only;
  args = s.inv.args;
  link_one = s.inv.link_one;
  link = s.inv.link;
}

-- What it has found behind more arguments.
abbrev pub push : View → Parts → View
push v p = record v {
  key_args = v.key_args ++ p.keys;
  inputs = v.inputs ++ inputs_of p.objects;
  file = last_or v.file p.sources;
  count = v.count + length p.sources;
  has_objects = v.has_objects || some_in p.objects;
  compile_only = v.compile_only || some_in p.stops;
}

or_false_right : (b : Bool) → (b || false) ≡ b
or_false_right true = refl
or_false_right false = refl

or_assoc : (a b c : Bool) → ((a || b) || c) ≡ (a || (b || c))
or_assoc true b c = refl
or_assoc false b c = refl

some_in-append : (xs ys : List Bytes) → some_in (xs ++ ys) ≡ (some_in xs || some_in ys)
some_in-append [] ys = refl
some_in-append (x ∷ xs) ys = refl

last_or-append :
    (first : Bytes) (xs ys : List Bytes) → last_or first (xs ++ ys) ≡ last_or (last_or first xs) ys
last_or-append first [] ys = refl
last_or-append first (x ∷ xs) ys = last_or-append x xs ys

inputs_of-append : (xs ys : List Bytes) → inputs_of (xs ++ ys) ≡ inputs_of xs ++ inputs_of ys
inputs_of-append [] ys = refl
inputs_of-append (x ∷ xs) ys =
    ap (λ s. only (is_object_input x) x ++ s) (inputs_of-append xs ys)
    ∙ sym (append_assoc (only (is_object_input x) x) (inputs_of xs) (inputs_of ys))

pub push_nothing : (v : View) → push v no_parts ≡ v
push_nothing v =
    let zero_more : v.count + 0 ≡ v.count = omega arith in
    λ i. record v {
      key_args = append-nil v.key_args i;
      inputs = append-nil v.inputs i;
      count = zero_more i;
      has_objects = or_false_right v.has_objects i;
      compile_only = or_false_right v.compile_only i;
    }

pub push-together : (v : View) (p q : Parts) → push (push v p) q ≡ push v (together p q)
push-together v p q =
    let counted : v.count + length p.sources + length q.sources
        ≡ v.count + length (p.sources ++ q.sources) =
      ground (arith, length-append p.sources q.sources) in
    let given =
      append_assoc v.inputs (inputs_of p.objects) (inputs_of q.objects)
      ∙ ap (λ s. v.inputs ++ s) (sym (inputs_of-append p.objects q.objects)) in
    let noted =
      or_assoc v.has_objects (some_in p.objects) (some_in q.objects)
      ∙ ap (λ b. v.has_objects || b) (sym (some_in-append p.objects q.objects)) in
    let stopped =
      or_assoc v.compile_only (some_in p.stops) (some_in q.stops)
      ∙ ap (λ b. v.compile_only || b) (sym (some_in-append p.stops q.stops)) in
    λ i. record v {
      key_args = append_assoc v.key_args p.keys q.keys i;
      inputs = given i;
      file = sym (last_or-append v.file p.sources q.sources) i;
      count = counted i;
      has_objects = noted i;
      compile_only = stopped i;
    }
