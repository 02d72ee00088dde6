-- ===== src/Cc/Takes.antt =====
-- One round of the loop of `ParseInvocation` in pkgs/ji/jig/src/cc_mode.cc: the arguments that it
-- takes and what it finds in them.
use corepkgs_v.Prelude.{
  ◌+◌, ◌<◌, ◌≡◌, refl, sym, ap, ◌∙◌, ◌⊎◌, inl, inr, Bool, true, false, ◌||◌, List, [], ◌∷◌, ◌++◌,
  append-nil, arith, Bool-cases, Bytes, codes, equal, equal_iff, starts_with, length,
}
use corepkgs_v.Cc.Options.{is_source_file, is_object_input, is_no_output_option}
use corepkgs_v.Cc.Invocation.{is, is_wp, is_md, add_key, take_pch, Scan, is_stop, scan_plain}
use corepkgs_v.Cc.Omits.{
  Parts, no_parts, together, takes_depfile_value, is_left_out, is_object, only, key_part, kept_part,
  Omits, keeps, bare, pch, pch_flag, pch_value, pch_end, question, source, View, view, push,
  push_nothing, push-together, inputs_of, some_in,
}

-- What a part of the loop body does from `before` to `after`: it takes arguments up to `left`, and finds
-- their parts.
pub record Takes (before : Scan) (b : Bool) (args : List Bytes) (after : Scan) (left : List Bytes)
    : Type 0 where
  pub found : Parts
  pub shorter : length left < length args
  pub seen : view after ≡ push (view before) found
  pub omits : (p : Parts) → Omits false left p → Omits b args (together found p)

-- Arguments without any part.
pub leaves_out :
    {before after : Scan} (args left : List Bytes)
    → length left < length args
    → view after ≡ view before
    → ((p : Parts) → Omits false left p → Omits false args p)
    → Takes before false args after left
leaves_out {before} args left short same o = record {
  found = no_parts;
  shorter = short;
  seen = same ∙ sym (push_nothing (view before));
  omits = o;
}

-- A test that fails on some words.
by_word : (f : Bytes → Bool) (arg word : Bytes) → is arg word ≡ true → f arg ≡ f word
by_word f arg word e = ap f ((equal_iff arg word).0 e)

pub or_cases : (a b : Bool) → (a || b) ≡ true → (a ≡ true) ⊎ (b ≡ true)
or_cases true b h = inl refl
or_cases false b h = inr h

by_words :
    (f : Bytes → Bool) (arg u v w : Bytes)
    → (is arg u || is arg v || is arg w) ≡ true
    → (f u ≡ false) × (f v ≡ false) × (f w ≡ false)
    → f arg ≡ false
by_words f arg u v w e h = elim (or_cases (is arg u || is arg v) (is arg w) e) [
  | inr c ↦ by_word f arg w c ∙ h.2
  | inl ab ↦ elim (or_cases (is arg u) (is arg v) ab) [
    | inl a ↦ by_word f arg u a ∙ h.0
    | inr b ↦ by_word f arg v b ∙ h.1
  ]
]

abbrev pub is_bare : Bytes → Bool
is_bare arg = takes_depfile_value arg || is arg (codes "-o")

by_bare :
    (f : Bytes → Bool) (arg : Bytes)
    → is_bare arg ≡ true
    → (f (codes "-MF") ≡ false) × (f (codes "-MT") ≡ false) × (f (codes "-MQ") ≡ false)
    → f (codes "-o") ≡ false
    → f arg ≡ false
by_bare f arg e h o = elim (or_cases (takes_depfile_value arg) (is arg (codes "-o")) e) [
  | inl a ↦ by_words f arg (codes "-MF") (codes "-MT") (codes "-MQ") a h
  | inr b ↦ by_word f arg (codes "-o") b ∙ o
]

-- Tests of `scan_plain` that a bare option fails.
bare_plain :
    (arg : Bytes)
    → is_bare arg ≡ true
    → (is_no_output_option arg ≡ false)
      × (is_source_file arg ≡ false)
      × (is arg (codes "-include-pch") ≡ false)
      × (is_object_input arg ≡ false)
      × ((is arg (codes "-shared") || is arg (codes "-r")) ≡ false)
unfolding equal is_no_output_option is_source_file is_object_input starts_with
bare_plain arg e = (
  by_bare is_no_output_option arg e (refl, refl, refl) refl,
  by_bare is_source_file arg e (refl, refl, refl) refl,
  by_bare (λ a. is a (codes "-include-pch")) arg e (refl, refl, refl) refl,
  by_bare is_object_input arg e (refl, refl, refl) refl,
  by_bare (λ a. is a (codes "-shared") || is a (codes "-r")) arg e (refl, refl, refl) refl,
)

pub stop_kept :
    (arg : Bytes)
    → is_stop arg ≡ true
    → (is_left_out arg ≡ false) × (is arg (codes "-include-pch") ≡ false) × (is_object arg ≡ false)
unfolding equal is_no_output_option is_source_file is_object_input starts_with
stop_kept arg e = (
  by_words is_left_out arg (codes "-c") (codes "-S") (codes "-E") e (refl, refl, refl),
  by_words (λ a. is a (codes "-include-pch")) arg (codes "-c") (codes "-S") (codes "-E") e
      (refl, refl, refl),
  by_words is_object arg (codes "-c") (codes "-S") (codes "-E") e (refl, refl, refl),
)

-- An argument that only goes into the key.
key_seen :
    (s : Scan) (arg : Bytes)
    → view (record s { inv = add_key arg s.inv }) ≡ push (view s) (key_part arg)
key_seen s arg =
    let v = push_nothing (view s) in λ i. record (sym v i) { key_args = s.inv.key_args ++ arg ∷ [] }

-- What a round finds behind an argument that goes into the key.
after_key :
    (s : Scan) (b : Bool) (arg : Bytes) (args : List Bytes) {after : Scan} {left : List Bytes}
    → ((p : Parts) → Omits true args p → Omits b (arg ∷ args) (together (key_part arg) p))
    → Takes (record s { inv = add_key arg s.inv }) true args after left
    → Takes s b (arg ∷ args) after left
after_key s b arg args o t = record {
  found = together (key_part arg) t.found;
  shorter = omega (arith, t.shorter);
  seen =
      t.seen
      ∙ ap (λ v. push v t.found) (key_seen s arg)
      ∙ push-together (view s) (key_part arg) t.found;
  omits = λ p x. o (together t.found p) (t.omits p x);
}

-- "-include-pch" and what `take_pch` takes behind it.
take_pch-Takes :
    (s : Scan) (b : Bool) (arg : Bytes) (rest : List Bytes)
    → ((p : Parts) → Omits true rest p → Omits b (arg ∷ rest) (together (key_part arg) p))
    → let (inv', left) = take_pch rest (add_key arg s.inv) in
      Takes s b (arg ∷ rest) (record s { inv = inv' }) left
unfolding take_pch
take_pch-Takes s b arg [] o = record {
  found = key_part arg;
  shorter = omega arith;
  seen = key_seen s arg;
  omits = λ p x. o p (pch_end x);
}
take_pch-Takes s b arg (next ∷ rest) o = elim (Bool-cases (is next (codes "-Xclang"))) [
  | inl e ↦
      rw (e, take_pch)
        (after_key s b arg (next ∷ rest) o (
          take_pch-Takes (record s { inv = add_key arg s.inv }) true next rest
            (λ p x. pch_flag next e x)))
  | inr e ↦
      rw (e, take_pch)
        (after_key s b arg (next ∷ rest) o (record {
          found = key_part next;
          shorter = omega arith;
          seen = key_seen (record s { inv = add_key arg s.inv }) next;
          omits = λ p x. pch_value next e x;
        }))
]

abbrev pub Taken : Scan → List Bytes → Scan × List Bytes → Type 0
Taken before args (after, left) = Takes before false args after left

-- An argument is one of the depfile options, or an output option.
abbrev pub is_front : Bytes → Bool
is_front arg = takes_depfile_value arg || is_wp arg || is_md arg || starts_with arg (codes "-o")

-- An argument that goes into the key, with the flags that are set for it.
pub keeps_one :
    (s after : Scan) (arg : Bytes) (rest : List Bytes)
    → is_left_out arg ≡ false
    → is arg (codes "-include-pch") ≡ false
    → view after ≡ push (view s) (kept_part arg)
    → Takes s false (arg ∷ rest) after rest
keeps_one s after arg rest l no_pch e = record {
  found = kept_part arg;
  shorter = omega arith;
  seen = e;
  omits = λ p x. keeps arg l no_pch x;
}

or_assoc : (a b c : Bool) → ((a || b) || c) ≡ (a || (b || c))
or_assoc true b c = refl
or_assoc false b c = refl

pub or_true_right : (b : Bool) → (b || true) ≡ true
or_true_right true = refl
or_true_right false = refl

pub or_false_right : (b : Bool) → (b || false) ≡ b
or_false_right true = refl
or_false_right false = refl

pub some_only : (b : Bool) (arg : Bytes) → some_in (only b arg) ≡ b
some_only true arg = refl
some_only false arg = refl

inputs_only :
    (i b : Bool) (arg : Bytes)
    → is_object_input arg ≡ i
    → inputs_of (only (i || b) arg) ≡ only i arg
inputs_only true b arg e = ap (λ i. only i arg ++ []) e
inputs_only false true arg e = ap (λ i. only i arg ++ []) e
inputs_only false false arg e = refl

-- What an argument adds that goes into the key, by the tests that it passes.
push_kept :
    (v : View) (arg : Bytes) (i : Bool)
    → is_object_input arg ≡ i
    → is_stop arg ≡ false
    → record v {
      key_args = v.key_args ++ arg ∷ [];
      inputs = v.inputs ++ only i arg;
      has_objects = v.has_objects || (i || (is arg (codes "-shared") || is arg (codes "-r")));
    }
      ≡ push v (kept_part arg)
push_kept v arg i e stop =
    let linked = is arg (codes "-shared") || is arg (codes "-r") in
    let object : (i || linked) ≡ is_object arg =
      ap (λ b. b || linked) (sym e)
      ∙ sym (or_assoc (is_object_input arg) (is arg (codes "-shared")) (is arg (codes "-r"))) in
    let files = sym (inputs_only i linked arg e) ∙ ap (λ b. inputs_of (only b arg)) object in
    let noted = object ∙ sym (some_only (is_object arg) arg) in
    let stopped : false ≡ some_in (only (is_stop arg) arg) =
      sym (some_only (is_stop arg) arg ∙ stop) in
    λ j. record (sym (push_nothing v) j) {
      key_args = v.key_args ++ arg ∷ [];
      inputs = v.inputs ++ files j;
      has_objects = v.has_objects || noted j;
      compile_only =
          (sym (or_false_right v.compile_only) ∙ ap (λ b. v.compile_only || b) stopped) j;
    }

pub scan_plain-bare :
    (s : Scan) (arg : Bytes) → is_bare arg ≡ true → Taken s (arg ∷ []) (scan_plain s arg [])
unfolding scan_plain
scan_plain-bare s arg e =
    let (q, f, p, o, n) = bare_plain arg e in
    let none_set : (s.objects || is arg (codes "-shared") || is arg (codes "-r")) ≡ s.objects =
      or_assoc s.objects (is arg (codes "-shared")) (is arg (codes "-r"))
      ∙ ap (λ b. s.objects || b) n
      ∙ or_false_right s.objects in
    rw (q, f, p, o, scan_plain)
      (record {
        found = key_part arg;
        shorter = omega arith;
        seen =
            (λ i. record (view (record s { inv = add_key arg s.inv })) { has_objects = none_set i })
            ∙ key_seen s arg;
        omits = λ p' x. bare arg e x;
      })

pub scan_plain-Taken :
    (s : Scan) (arg : Bytes) (rest : List Bytes)
    → is_front arg ≡ false
    → is_stop arg ≡ false
    → Taken s (arg ∷ rest) (scan_plain s arg rest)
unfolding scan_plain
scan_plain-Taken s arg rest front stop = elim (Bool-cases (is_no_output_option arg)) [
  | inl q ↦
      rw (q, scan_plain) (leaves_out (arg ∷ rest) rest (omega arith) refl (λ p x. question arg q x))
  | inr q ↦ elim (Bool-cases (is_source_file arg)) [
    | inl f ↦
        rw (q, f, scan_plain)
          (record {
            found = record no_parts { sources = arg ∷ [] };
            shorter = omega arith;
            seen =
                λ i. record (sym (push_nothing (view s)) i) { file = arg; count = s.sources + 1 };
            omits = λ p' x. source arg f q x;
          })
    | inr f ↦ elim (Bool-cases (is arg (codes "-include-pch"))) [
      | inl p ↦ rw (q, f, p, scan_plain) (take_pch-Takes s false arg rest (λ p' x. pch arg p x))
      | inr p ↦ elim (Bool-cases (is_object_input arg)) [
        | inl o ↦
            rw (q, f, p, o, scan_plain)
              (keeps_one s _ arg rest (left_in q f) p (
                (λ i. record (view s) {
                  key_args = s.inv.key_args ++ arg ∷ [];
                  inputs = s.inv.inputs ++ arg ∷ [];
                  has_objects = sym (or_true_right s.objects) i;
                })
                ∙ push_kept (view s) arg true o stop))
        | inr o ↦
            rw (q, f, p, o, scan_plain)
              (keeps_one s _ arg rest (left_in q f) p (
                (λ i. record (view s) {
                  key_args = s.inv.key_args ++ arg ∷ [];
                  inputs = sym (append-nil s.inv.inputs) i;
                  has_objects =
                      or_assoc s.objects (is arg (codes "-shared")) (is arg (codes "-r")) i;
                })
                ∙ push_kept (view s) arg false o stop))
      ]
    ]
  ]
]
  where
    left_in : is_no_output_option arg ≡ false → is_source_file arg ≡ false → is_left_out arg ≡ false
    left_in q f =
        ap (λ b. b || is_no_output_option arg || is_source_file arg) front
        ∙ ap (λ b. b || is_source_file arg) q
        ∙ f
