-- ===== src/Cc/Rounds.antt =====
-- A whole round of the loop of `ParseInvocation` in pkgs/ji/jig/src/cc_mode.cc.
use corepkgs_v.Prelude.{
  ◌≡◌, refl, sym, ap, ◌∙◌, ◌⊎◌, inl, inr, true, false, ◌&&◌, ◌||◌, Option, none, some, List, [],
  ◌∷◌, ◌++◌, append-nil, arith, ltb, Bool-cases, Bytes, codes, equal, starts_with, length,
}
use mathlib.Core.Path.{subst}
use corepkgs_v.Cc.Invocation.{
  with_output, Invocation, is, is_wp, is_md, depfile_alone, take_depfile_option, Scan, is_stop,
  scan_plain, scan_option, scan_arg,
}
use corepkgs_v.Cc.Omits.{
  takes_depfile_value, is_object, only, kept_part, output, glued_output, depfile_value,
  depfile_flag, View, view, push, push_nothing, inputs_of, some_in,
}
use corepkgs_v.Cc.Takes.{
  Takes, Taken, leaves_out, keeps_one, stop_kept, or_true_right, or_false_right, scan_plain-bare,
  scan_plain-Taken,
}

-- -c, -S or -E.
push_stop :
    (v : View) (arg : Bytes)
    → is_object arg ≡ false
    → is_stop arg ≡ true
    → record v { key_args = v.key_args ++ arg ∷ []; compile_only = true } ≡ push v (kept_part arg)
push_stop v arg no_object stop =
    let no_files : [] ≡ inputs_of (only (is_object arg) arg) =
      ap (λ b. inputs_of (only b arg)) (sym no_object) in
    let none_set : false ≡ some_in (only (is_object arg) arg) =
      ap (λ b. some_in (only b arg)) (sym no_object) in
    let one_set : true ≡ some_in (only (is_stop arg) arg) =
      ap (λ b. some_in (only b arg)) (sym stop) in
    λ j. record (sym (push_nothing v) j) {
      key_args = v.key_args ++ arg ∷ [];
      inputs = (sym (append-nil v.inputs) ∙ ap (λ f. v.inputs ++ f) no_files) j;
      has_objects = (sym (or_false_right v.has_objects) ∙ ap (λ b. v.has_objects || b) none_set) j;
      compile_only = (sym (or_true_right v.compile_only) ∙ ap (λ b. v.compile_only || b) one_set) j;
    }

scan_output-Taken :
    (s : Scan) (arg : Bytes) (rest : List Bytes)
    → is arg (codes "-o") ≡ true
    → Taken s
        (arg ∷ rest)
        (elim rest [ [] ↦ scan_plain s arg [] | value ∷ rest' ↦ (with_output s value, rest') ])
scan_output-Taken s arg [] e =
    scan_plain-bare s arg (ap (λ b. takes_depfile_value arg || b) e ∙ or_true_right _)
scan_output-Taken s arg (value ∷ rest) e =
    leaves_out (arg ∷ value ∷ rest) rest (omega arith) refl (λ p x. output arg value e x)

-- An argument that begins with "-o" is "-o", or has a value.
output_with_value :
    (arg : Bytes)
    → is arg (codes "-o") ≡ false
    → (starts_with arg (codes "-o") && ltb 2 (length arg)) ≡ false
    → starts_with arg (codes "-o") ≡ false
unfolding equal starts_with
output_with_value [] e g = refl
output_with_value (a ∷ []) e g = ground arith
output_with_value (a ∷ b ∷ []) e g = ground arith
output_with_value (a ∷ b ∷ c ∷ arg) e g = ground arith

-- What is known of an argument that `TakeDepfileOption` does not take.
record NoDepfile (arg : Bytes) (rest : List Bytes) : Type 0 where
  no_flag : (is_wp arg || is_md arg) ≡ false
  no_value : (takes_depfile_value arg ≡ false) ⊎ (rest ≡ [])

other-Taken :
    (s : Scan) (arg : Bytes) (rest : List Bytes)
    → NoDepfile arg rest
    → is_stop arg ≡ false
    → starts_with arg (codes "-o") ≡ false
    → Taken s (arg ∷ rest) (scan_plain s arg rest)
other-Taken s arg rest h stop no_output = elim (Bool-cases (takes_depfile_value arg)) [
  | inr t ↦ let flag = h.no_flag in scan_plain-Taken s arg rest (ground arith) stop
  | inl t ↦ elim h.no_value [
    | inl u ↦ absurd (ground arith)
    | inr none_left ↦
        subst (λ r. Taken s (arg ∷ r) (scan_plain s arg r)) (sym none_left)
          (scan_plain-bare s arg (ap (λ b. b || is arg (codes "-o")) t))
  ]
]

scan_option-Taken :
    (s : Scan) (arg : Bytes) (rest : List Bytes)
    → NoDepfile arg rest
    → Taken s (arg ∷ rest) (scan_option s arg rest)
unfolding scan_option
scan_option-Taken s arg rest h = elim (Bool-cases (is_stop arg)) [
  | inl c ↦
      let (l, p, o) = stop_kept arg c in
      rw (c, scan_option) (keeps_one s _ arg rest l p (push_stop (view s) arg o c))
  | inr c ↦ elim (Bool-cases (is arg (codes "-o"))) [
    | inl o ↦ rw (c, o, scan_option) (scan_output-Taken s arg rest o)
    | inr o ↦ elim (Bool-cases (starts_with arg (codes "-o") && ltb 2 (length arg))) [
      | inl g ↦
          rw (c, o, g, scan_option)
            (leaves_out (arg ∷ rest) rest (omega arith) refl (λ p x. glued_output arg g x))
      | inr g ↦ rw (c, o, g, scan_option) (other-Taken s arg rest h c (output_with_value arg o g))
    ]
  ]
]

-- The result of `TakeDepfileOption`: the round, if it is one.
abbrev TakenDepfile : Scan → Bytes → List Bytes → Option (Invocation × List Bytes) → Type 0
TakenDepfile s arg rest none = NoDepfile arg rest
TakenDepfile s arg rest (some (inv, left)) =
    Takes s false (arg ∷ rest) (record s { inv = inv }) left

depfile_alone-Taken :
    (s : Scan) (arg : Bytes) (rest : List Bytes)
    → (takes_depfile_value arg ≡ false) ⊎ (rest ≡ [])
    → TakenDepfile s arg rest
        (elim (depfile_alone arg s.inv) [ none ↦ none | some inv' ↦ some (inv', rest) ])
unfolding depfile_alone
depfile_alone-Taken s arg rest h = elim (Bool-cases (is_wp arg)) [
  | inl w ↦
      rw (w, depfile_alone)
        (leaves_out (arg ∷ rest) rest (omega arith) refl (λ p x. depfile_flag arg (ground arith) x))
  | inr w ↦ elim (Bool-cases (is_md arg)) [
    | inl m ↦
        rw (w, m, depfile_alone)
          (leaves_out (arg ∷ rest) rest (omega arith) refl
            (λ p x. depfile_flag arg (ground arith) x))
    | inr m ↦ rw (w, m, depfile_alone) (record { no_flag = ground arith; no_value = h })
  ]
]

take_depfile_option-Taken :
    (s : Scan) (arg : Bytes) (rest : List Bytes)
    → TakenDepfile s arg rest (take_depfile_option arg rest s.inv)
unfolding take_depfile_option
take_depfile_option-Taken s arg [] = depfile_alone-Taken s arg [] (inr refl)
take_depfile_option-Taken s arg (value ∷ rest) = elim (Bool-cases (is arg (codes "-MF"))) [
  | inl f ↦
      rw (f, take_depfile_option)
        (leaves_out (arg ∷ value ∷ rest) rest (omega arith) refl
          (λ p x. depfile_value arg value (ground arith) x))
  | inr f ↦ elim (Bool-cases (is arg (codes "-MT") || is arg (codes "-MQ"))) [
    | inl t ↦
        rw (f, t, take_depfile_option)
          (leaves_out (arg ∷ value ∷ rest) rest (omega arith) refl
            (λ p x. depfile_value arg value (ground arith) x))
    | inr t ↦
        rw (f, t, take_depfile_option)
          (depfile_alone-Taken s arg (value ∷ rest) (inl (ground arith)))
  ]
]

pub scan_arg-Taken :
    (s : Scan) (arg : Bytes) (rest : List Bytes) → Taken s (arg ∷ rest) (scan_arg s arg rest)
unfolding scan_arg
scan_arg-Taken s arg rest =
    go (take_depfile_option arg rest s.inv) (take_depfile_option-Taken s arg rest)
  where
    go :
        (o : Option (Invocation × List Bytes))
        → TakenDepfile s arg rest o
        → Taken s (arg ∷ rest) (elim o [
          | some (inv', left) ↦ (record s { inv = inv' }, left)
          | none ↦ scan_option s arg rest
        ])
    go none h = scan_option-Taken s arg rest h
    go (some (inv', left)) t = t
