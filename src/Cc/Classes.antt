-- ===== src/Cc/Classes.antt =====
-- What a cacheable command line is, in `ParseInvocation` of pkgs/ji/jig/src/cc_mode.cc.
use corepkgs_v.Prelude.{
  ℕ, ◌≡◌, ◌≢◌, refl, sym, ap, ◌∙◌, ◌⊎◌, inl, inr, Bool, true, false, not, ◌&&◌, ◌||◌, List, [], ◌∷◌,
  arith, ◌==◌, if◌then◌else◌, Bool-cases, Bytes, length,
}
use corepkgs_v.Cc.Invocation.{
  default_depfile, is_empty, Invocation, Scan, classify_stop, classify_link, classify,
  parse_invocation,
}
use corepkgs_v.Cc.Omits.{Parts, Omits, some_in, last_or, inputs_of, view, push}
use corepkgs_v.Cc.Keyed.{scan_loop-Found, first}

-- The three kinds of a cacheable call, which exclude one another: what is noted of it, and what the parts of
-- its command line are.
pub data Kind (inv : Invocation) (parts : Parts) : Type 0 where
  compile :
      inv.compile_only ≡ true
      → inv.link_one ≡ false
      → inv.link ≡ false
      → parts.stops ≢ []
      → parts.sources ≡ inv.source ∷ []
      → Kind inv parts
  probe :
      inv.compile_only ≡ false
      → inv.link_one ≡ true
      → inv.link ≡ false
      → parts.stops ≡ []
      → parts.sources ≡ inv.source ∷ []
      → parts.objects ≡ []
      → Kind inv parts
  objects :
      inv.compile_only ≡ false
      → inv.link_one ≡ false
      → inv.link ≡ true
      → parts.stops ≡ []
      → parts.sources ≡ []
      → inv.inputs ≡ inputs_of parts.objects
      → inv.inputs ≢ []
      → Kind inv parts

some_in_none : (xs : List Bytes) → some_in xs ≡ false → xs ≡ []
some_in_none [] h = refl
some_in_none (x ∷ xs) h = absurd (ground arith)

some_in_some : (xs : List Bytes) → some_in xs ≡ true → xs ≢ []
some_in_some [] h = absurd (ground arith)
some_in_some (x ∷ xs) h = λ e. ground arith

one_source :
    (xs : List Bytes) (n : ℕ) (file : Bytes)
    → n ≡ length xs
    → file ≡ last_or [] xs
    → (n == 1) ≡ true
    → xs ≡ file ∷ []
one_source [] n file e f h = absurd (ground arith)
one_source (x ∷ []) n file e f h = ap (λ y. y ∷ []) (sym f)
one_source (x ∷ y ∷ xs) n file e f h = absurd (ground arith)

no_source : (xs : List Bytes) (n : ℕ) → n ≡ length xs → (n == 0) ≡ true → xs ≡ []
no_source [] n e h = refl
no_source (x ∷ xs) n e h = absurd (ground arith)

default_depfile-Kind :
    (inv : Invocation) (parts : Parts) → Kind inv parts → Kind (default_depfile inv) parts
default_depfile-Kind inv parts k = elim (Bool-cases (inv.wants_depfile && is_empty inv.depfile)) [
  | inr e ↦ unfold default_depfile in rw (e, default_depfile) k
  | inl e ↦
      unfold default_depfile in
      rw (e, default_depfile)
        (elim k [
          | compile a b c d f ↦ compile a b c d f
          | probe a b c d f g ↦ probe a b c d f g
          | objects a b c d f g h ↦ objects a b c d f g h
        ])
]

default_depfile-cacheable : (inv : Invocation) → (default_depfile inv).cacheable ≡ inv.cacheable
default_depfile-cacheable inv = elim (Bool-cases (inv.wants_depfile && is_empty inv.depfile)) [
  | inl e ↦ unfold default_depfile in rw (e, default_depfile) refl
  | inr e ↦ unfold default_depfile in rw (e, default_depfile) refl
]

-- A link has one source and no objects, or objects and no source.
link_kinds :
    (objects : Bool) (sources : ℕ) (inputs : List Bytes) (kept : Bool)
    → let one = not objects && sources == 1 in
      let many = objects && sources == 0 && not (length inputs == 0) in
      (kept && (one || many)) ≡ true
      → ((one ≡ true) × (many ≡ false) × (objects ≡ false) × ((sources == 1) ≡ true))
        ⊎ ((one ≡ false) × (many ≡ true) × ((sources == 0) ≡ true) × (inputs ≢ []))
link_kinds true sources [] kept h = absurd (ground arith)
link_kinds true sources (x ∷ inputs) kept h =
    inr (refl, ground arith, ground arith, λ e. ground arith)
link_kinds false sources inputs kept h = inl (ground arith, refl, refl, ground arith)

module _ (args : List Bytes) (parts : Parts) (s : Scan)
    (seen : view s ≡ push (view (first args)) parts) where
  counted : s.sources ≡ length parts.sources
  counted = ap (λ v. v.count) seen ∙ omega arith

  named : s.inv.source ≡ last_or [] parts.sources
  named = ap (λ v. v.file) seen

  stops : s.inv.compile_only ≡ some_in parts.stops
  stops = ap (λ v. v.compile_only) seen

  classify_stop-Kind :
      (tmpdir : Bytes) (pid : ℕ)
      → s.inv.compile_only ≡ true
      → (classify_stop tmpdir pid s).cacheable ≡ true
      → Kind (classify_stop tmpdir pid s) parts
  unfolding classify_stop
  classify_stop-Kind tmpdir pid c h =
      let one : (s.sources == 1) ≡ true = ground arith in
      compile c (ap (λ v. v.link_one) seen) (ap (λ v. v.link) seen)
        (some_in_some parts.stops (sym stops ∙ c))
        (one_source parts.sources s.sources s.inv.source counted named one)

  kept_source :
      (s.objects && s.sources == 0 && not (length s.inv.inputs == 0)) ≡ false
      → (classify_link s).source ≡ s.inv.source
  unfolding classify_link
  kept_source many = rw (many, classify_link) refl

  classify_link-Kind :
      s.inv.compile_only ≡ false → (classify_link s).cacheable ≡ true → Kind (classify_link s) parts
  unfolding classify_link
  classify_link-Kind c h =
      let no_stop = some_in_none parts.stops (sym stops ∙ c) in
      let only_source = one_source parts.sources s.sources s.inv.source counted named in
      elim (link_kinds s.objects s.sources s.inv.inputs s.inv.cacheable h) [
        | inl (one, many, no_object, single) ↦
            probe c one many no_stop
              (only_source single ∙ ap (λ y. y ∷ []) (sym (kept_source many)))
              (some_in_none parts.objects (sym (ap (λ v. v.has_objects) seen) ∙ no_object))
        | inr (one, many, none_there, some_input) ↦
            objects c one many no_stop (no_source parts.sources s.sources counted none_there)
              (ap (λ v. v.inputs) seen) some_input
      ]

  chosen-Kind :
      (b : Bool) (tmpdir : Bytes) (pid : ℕ)
      → s.inv.compile_only ≡ b
      → let inv = default_depfile (if b then classify_stop tmpdir pid s else classify_link s) in
        inv.cacheable ≡ true → Kind inv parts
  chosen-Kind true tmpdir pid c h =
      let k = sym (default_depfile-cacheable (classify_stop tmpdir pid s)) ∙ h in
      default_depfile-Kind _ parts (classify_stop-Kind tmpdir pid c k)
  chosen-Kind false tmpdir pid c h =
      let k = sym (default_depfile-cacheable (classify_link s)) ∙ h in
      default_depfile-Kind _ parts (classify_link-Kind c k)

-- A command line that `ParseInvocation` calls cacheable is of one kind: a compile that stops before the link,
-- with one of -c, -S and -E and a single source file; a link of a single source file and no objects, without
-- those options; or a link of objects with at least one input and no source file, without those options.
pub parse_invocation-Kind :
    (tmpdir : Bytes) (pid : ℕ) (args : List Bytes)
    → let inv = parse_invocation tmpdir pid args in
      inv.cacheable ≡ true → (parts : Parts) × Omits false args parts × Kind inv parts
unfolding parse_invocation classify
parse_invocation-Kind tmpdir pid args h =
    let s = scan_loop-Found (length args) (first args) args (omega arith) in
    (s.parts, s.omits, chosen-Kind args s.parts _ s.seen _ tmpdir pid refl h)
