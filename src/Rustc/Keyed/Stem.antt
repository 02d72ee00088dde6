-- ===== src/Rustc/Keyed/Stem.antt =====
-- Command lines of rustc that differ in cargo's metadata hash only.
use corepkgs_v.Prelude.{
  ℕ, ◌≡◌, refl, sym, ap, ◌∙◌, inl, inr, Bool, true, false, ◌||◌, Option, none, some, List, [], ◌∷◌,
  ◌++◌, arith, Bool-cases, Bytes, codes, equal, starts_with,
}
use corepkgs_v.Rustc.Keyed.{unnamed, view, parse_arg-unnamed}
use corepkgs_v.Rustc.Keyed.Takes.{takes_next, takes_next-Takes, parse_arg-alone}
use corepkgs_v.Store.{Store}
use corepkgs_v.Rustc.Key.{Machine, crate_key}
use corepkgs_v.Rustc.{
  two_token_options, RustInvocation, take_named, take_named_option, named_options, glued_value,
  take_value, add_extern, is_two_token, full_option, links_as, add_option, take_codegen_option,
  is_query, parse_plain, parse_arg, parse_args, start, settle, parse_rust_invocation,
}

-- What cargo's hash goes into.
abbrev pub is_stem : Bytes → Bool
is_stem x = starts_with x (codes "metadata=") || starts_with x (codes "extra-filename=")

-- Two command lines that differ in what cargo's hash goes into.
pub data Renames : List Bytes → List Bytes → Type 0 where
  done : Renames [] []
  alone :
      {left right : List Bytes} (arg : Bytes)
      → takes_next arg ≡ false
      → Renames left right
      → Renames (arg ∷ left) (arg ∷ right)
  valued :
      {left right : List Bytes} (arg value : Bytes)
      → takes_next arg ≡ true
      → Renames left right
      → Renames (arg ∷ value ∷ left) (arg ∷ value ∷ right)
  hashed :
      {left right : List Bytes} (x y : Bytes)
      → is_stem x ≡ true
      → is_stem y ≡ true
      → Renames left right
      → Renames (codes "-C" ∷ x ∷ left) (codes "-C" ∷ y ∷ right)

-- Behind "-C=".
behind :
    (x word : Bytes) → starts_with (codes "-C=" ++ x) (codes "-C=" ++ word) ≡ starts_with x word
unfolding starts_with
behind x word = refl

not_incremental :
    (x : Bytes)
    → is_stem x ≡ true
    → starts_with (codes "-C=" ++ x) (codes "-C=incremental=") ≡ false
unfolding starts_with
not_incremental [] h = cc
not_incremental (c ∷ x) h = ground arith

-- An option that cargo's hash goes into changes the stem at most.
stem_option :
    (x : Bytes) (inv : RustInvocation)
    → is_stem x ≡ true
    → unnamed (add_option (codes "-C=" ++ x) inv) ≡ unnamed inv
unfolding add_option
stem_option x inv h =
    elim (Bool-cases (starts_with (codes "-C=" ++ x) (codes "-C=extra-filename="))) [
      | inl a ↦ simp (add_option, not_incremental x h, a)
      | inr a ↦
          let metadata : starts_with (codes "-C=" ++ x) (codes "-C=metadata=") ≡ true =
            behind x (codes "metadata=")
            ∙ ground (arith, sym (behind x (codes "extra-filename=")) ∙ a) in
          simp (add_option, not_incremental x h, a, metadata)
    ]

hashed_step :
    (x : Bytes) (inv : RustInvocation) (n : ℕ)
    → is_stem x ≡ true
    → view (parse_arg (codes "-C") (some x) (inv, n)) ≡ (true, (unnamed inv, n))
unfolding parse_arg parse_plain take_codegen_option full_option take_named_option take_named equal
    starts_with take_value glued_value
hashed_step x inv n h = ap (λ i. (true, (i, n))) (stem_option x inv h)

abbrev State : Type 0
State = RustInvocation × ℕ

abbrev mark : State → State
mark s = (unnamed s.0, s.1)

parse_arg-mark :
    (arg : Bytes) (next : Option Bytes) (s t : State)
    → mark s ≡ mark t
    → mark (parse_arg arg next s).1 ≡ mark (parse_arg arg next t).1
parse_arg-mark arg next s t h =
    ap (λ r. r.1) (parse_arg-unnamed arg next s.0 s.1)
    ∙ ap (λ u. mark (parse_arg arg next u).1) h
    ∙ sym (ap (λ r. r.1) (parse_arg-unnamed arg next t.0 t.1))

parse_args-alone :
    (arg : Bytes) (args : List Bytes) (s : State)
    → takes_next arg ≡ false
    → parse_args (arg ∷ args) s ≡ parse_args args (parse_arg arg none s).1
unfolding parse_args
parse_args-alone arg [] s h = refl
parse_args-alone arg (value ∷ rest) s h =
    let (same, free) = parse_arg-alone arg (some value) s.0 s.1 h in
    rw (same, parse_args, free) refl

parse_args-valued :
    (arg value : Bytes) (args : List Bytes) (s : State)
    → (parse_arg arg (some value) s).0 ≡ true
    → parse_args (arg ∷ value ∷ args) s ≡ parse_args args (parse_arg arg (some value) s).1
unfolding parse_args
parse_args-valued arg value args s h = rw (h, parse_args) refl

parse_args-Renames :
    {left right : List Bytes}
    → Renames left right
    → (s t : State) → mark s ≡ mark t
    → mark (parse_args left s) ≡ mark (parse_args right t)
parse_args-Renames done s t h = unfold parse_args in h
parse_args-Renames (alone {left} {right} arg free r) s t h =
    rw (parse_args-alone arg left s free, parse_args-alone arg right t free)
      (parse_args-Renames r _ _ (parse_arg-mark arg none s t h))
parse_args-Renames (valued {left} {right} arg value takes r) s t h =
    let always = takes_next-Takes arg takes value in
    rw
      (
        parse_args-valued arg value left s (always s.0 s.1),
        parse_args-valued arg value right t (always t.0 t.1),
      )
      (parse_args-Renames r _ _ (parse_arg-mark arg (some value) s t h))
parse_args-Renames (hashed {left} {right} x y hx hy r) s t h =
    let stepped = hashed_step x s.0 s.1 hx in
    let stepped' = hashed_step y t.0 t.1 hy in
    rw
      (
        parse_args-valued (codes "-C") x left s (ap (λ v. v.0) stepped),
        parse_args-valued (codes "-C") y right t (ap (λ v. v.0) stepped'),
      )
      (parse_args-Renames r _ _ (ap (λ v. v.1) stepped ∙ h ∙ sym (ap (λ v. v.1) stepped')))

-- Two command lines that differ in cargo's metadata hash only are read alike, but for the stem of
-- their files' names.
pub parse_rust_invocation-Renames :
    {left right : List Bytes}
    → Renames left right
    → unnamed (parse_rust_invocation left) ≡ unnamed (parse_rust_invocation right)
unfolding parse_rust_invocation settle
parse_rust_invocation-Renames r = ap settle (parse_args-Renames r (start, 0) (start, 0) refl)

-- Two command lines that differ in cargo's metadata hash only have one request key.
pub crate_key-Renames :
    (m : Machine) (s : Store) (rustc source_bytes : Bytes) {left right : List Bytes}
    → Renames left right
    → crate_key m s rustc (parse_rust_invocation left) source_bytes
      ≡ crate_key m s rustc (parse_rust_invocation right) source_bytes
unfolding crate_key corepkgs_v.Rustc.Key.key_fields
crate_key-Renames m s rustc source_bytes r =
    ap (λ inv. crate_key m s rustc inv source_bytes) (parse_rust_invocation-Renames r)
