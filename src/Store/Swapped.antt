-- ===== src/Store/Swapped.antt =====
-- Two replacements that undo each other, for the two masks of pkgs/ji/jig/src/store.cc.
use corepkgs_v.Prelude.{
  ℕ, ◌<◌, ◌≡◌, ◌≢◌, refl, sym, ap, ◌∙◌, inl, inr, true, false, [], ◌∷◌, ◌++◌, append_assoc, arith,
  Option-cases, Bytes, Lacks, starts_with, starts_with-append, find, contains, length,
}
use mathlib.Core.Path.{subst}
use corepkgs_v.Text.Replace.{Replaced, stop, hit, miss}

-- Nothing in the text, from any place on, begins with `b`.
abbrev pub Free : Bytes → Bytes → Type 0
Free b [] = Unit
Free b (c ∷ s) = (starts_with (c ∷ s) b ≡ false) × Free b s

pub Free-contains : (b s : Bytes) → contains s b ≡ false → Free b s
unfolding contains find
Free-contains b [] h = tt
Free-contains b (c ∷ s) h = elim (Option-cases (find b s)) [
  | inl e ↦ (ground arith, Free-contains b s (rw (e, contains)))
  | inr (r, e) ↦ absurd (ground arith)
]

Free-append : (b a s : Bytes) → Free b (a ++ s) → Free b s
Free-append b [] s h = h
Free-append b (c ∷ a) s h = Free-append b a s h.1

-- The cases of a replacement, with the indices as equations.
data Case (from into u v : Bytes) : Type 0 where
  at_end : u ≡ [] → v ≡ [] → Case from into u v
  at_hit :
      (s t : Bytes) → u ≡ from ++ s → v ≡ into ++ t → Replaced from into s t → Case from into u v
  at_miss :
      (c : ℕ) (s t : Bytes)
      → u ≡ c ∷ s
      → v ≡ c ∷ t
      → starts_with u from ≡ false
      → Replaced from into s t
      → Case from into u v

Replaced-cases : {from into u v : Bytes} → Replaced from into u v → Case from into u v
Replaced-cases stop = at_end refl refl
Replaced-cases (hit {s} {t} p q r) = at_hit s t p q r
Replaced-cases (miss {c} {s} {t} n r) = at_miss c s t refl refl n r

append_cancel : (a x y : Bytes) → a ++ x ≡ a ++ y → x ≡ y
append_cancel [] x y e = e
append_cancel (c ∷ a) x y e = append_cancel a x y (ground arith)

-- The first '-' of a text stands at one place.
first_dash :
    (q b x : Bytes)
    → Lacks b'-' q
    → Lacks b'-' b
    → starts_with (b ++ (b'-' ∷ x)) (q ++ b'-' ∷ []) ≡ true
    → length q ≡ length b
unfolding starts_with
first_dash [] [] x hq hb h = refl
first_dash [] (d ∷ b) x hq hb h = absurd (ground arith)
first_dash (c ∷ q) [] x hq hb h = absurd (ground arith)
first_dash (c ∷ q) (d ∷ b) x hq hb h = ground (arith, first_dash q b x)

append-ne-nil : (p x : Bytes) → (p ++ b'-' ∷ []) ++ x ≢ []
append-ne-nil [] x e = cc
append-ne-nil (d ∷ p) x e = cc

module _ (a b : Bytes) (dashless : Lacks b'-' b) where
  -- What begins a replaced text up to a '-', and is shorter than what was put in, began the text.
  starts_with-Replaced :
      (q : Bytes) {s t : Bytes}
      → Lacks b'-' q
      → length q < length b
      → Replaced a (b ++ b'-' ∷ []) s t
      → starts_with t (q ++ b'-' ∷ []) ≡ true
      → starts_with s (q ++ b'-' ∷ []) ≡ true
  unfolding starts_with
  starts_with-Replaced q hq lt stop h = h
  starts_with-Replaced q hq lt (hit {s} {t} p e r) h = absurd (
      omega
        (arith, first_dash q b t hq dashless (rw (← append_assoc b (b'-' ∷ []) t) (rw (← e) h))))
  starts_with-Replaced [] hq lt (miss {c} {s} {t} n r) h = ground arith
  starts_with-Replaced (d ∷ q) hq lt (miss {c} {s} {t} n r) h =
      ground (arith, starts_with-Replaced q {s = s} {t = t} hq.1 (omega arith) r)

  starts_with-miss :
      (c : ℕ) (s t : Bytes)
      → b ≢ []
      → Replaced a (b ++ b'-' ∷ []) s t
      → starts_with (c ∷ t) (b ++ b'-' ∷ []) ≡ true
      → starts_with (c ∷ s) (b ++ b'-' ∷ []) ≡ true
  starts_with-miss c s t ne r h = go b dashless refl ne h
    where
      go :
          (d : Bytes)
          → Lacks b'-' d
          → d ≡ b
          → d ≢ []
          → starts_with (c ∷ t) (d ++ b'-' ∷ []) ≡ true
          → starts_with (c ∷ s) (d ++ b'-' ∷ []) ≡ true
      go [] l e ne h = absurd (ne refl)
      go (x ∷ d) l e ne h =
          unfold starts_with in
          ground (arith, starts_with-Replaced d {s = s} {t = t} l.1 (omega (arith, ap length e)) r)

  -- Replacing back what was put in gives the text, if the text did not hold it before.
  pub Replaced-inverse :
      {x y y' z : Bytes}
      → b ≢ []
      → Free (b ++ b'-' ∷ []) x
      → Replaced a (b ++ b'-' ∷ []) x y
      → Replaced (b ++ b'-' ∷ []) a y' z
      → y' ≡ y
      → z ≡ x
  Replaced-inverse ne free stop r e = elim (Replaced-cases r) [
    | at_end p q ↦ q
    | at_hit s t p q _ ↦ absurd (append-ne-nil b s (sym p ∙ e))
    | at_miss c s t p q n _ ↦ absurd (ground arith)
  ]
  Replaced-inverse ne free (hit {u} {v} {s} {t} p q r') r e = elim (Replaced-cases r) [
    | at_end p' q' ↦ absurd (append-ne-nil b t (sym q ∙ sym e ∙ p'))
    | at_hit s' t' p' q' r'' ↦
        let rest = append_cancel (b ++ b'-' ∷ []) s' t (sym p' ∙ e ∙ q) in
        let ih =
          Replaced-inverse ne
            (Free-append (b ++ b'-' ∷ []) a s (subst (Free (b ++ b'-' ∷ [])) p free)) r' r'' rest in
        q' ∙ ap (◌++◌ a) ih ∙ sym p
    | at_miss c s' t' p' q' n _ ↦ absurd (
        cc (
          starts_with-append (b ++ b'-' ∷ []) t,
          subst (λ w. starts_with w (b ++ b'-' ∷ []) ≡ false) (e ∙ q) n,
        ))
  ]
  Replaced-inverse ne free (miss {c} {s} {t} n r') r e = elim (Replaced-cases r) [
    | at_end p' q' ↦ absurd (ground arith)
    | at_hit s' t' p' q' r'' ↦ absurd (
        cc (
          free.0,
          starts_with-miss c s t ne r' (rw (← e) (rw p' (starts_with-append (b ++ b'-' ∷ []) s'))),
        ))
    | at_miss c' s' t' p' q' n' r'' ↦
        let tails : (c' ≡ c) × (s' ≡ t) = ground arith in
        let ih = Replaced-inverse ne free.1 r' r'' tails.1 in q' ∙ cc (tails.0, ih)
  ]
