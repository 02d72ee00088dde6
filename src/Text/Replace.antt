-- ===== src/Text/Replace.antt =====
-- `ReplaceAll` against a relation that says what it does: the leftmost matches that do not overlap.
pub mod Back
use corepkgs_v.Prelude.{
  ℕ, zero, suc, ◌<◌, ◌≡◌, ◌≢◌, refl, sym, ap, ◌∙◌, inl, inr, false, none, some, [], ◌∷◌, ◌++◌,
  append_assoc, arith, Bool-cases, Option-cases, Bytes, starts_with, eq_of_starts_with, find,
  find-append, length, drop, length-append, length-drop,
}
use mathlib.Core.Path.{subst}
use corepkgs_v.Text.{replace_loop, replace_all}

-- `v` is `u` with the matches of `from`, taken from the left, replaced.
pub data Replaced (from into : Bytes) : Bytes → Bytes → Type 0 where
  stop : Replaced from into [] []
  hit :
      {u v s t : Bytes}
      → u ≡ from ++ s
      → v ≡ into ++ t
      → Replaced from into s t
      → Replaced from into u v
  miss :
      {c : ℕ} {s t : Bytes}
      → starts_with (c ∷ s) from ≡ false
      → Replaced from into s t
      → Replaced from into (c ∷ s) (c ∷ t)

module _ (from into : Bytes) where
  pub no_match-Replaced : (s : Bytes) → find from s ≡ none → Replaced from into s s
  unfolding find
  no_match-Replaced [] h = stop
  no_match-Replaced (c ∷ s) h = elim (Option-cases (find from s)) [
    | inl e ↦ miss (ground arith) (no_match-Replaced s e)
    | inr (r, e) ↦ absurd (ground arith)
  ]

  pub match-Replaced :
      (s before at t : Bytes)
      → find from s ≡ some (before, at)
      → Replaced from into at t
      → Replaced from into s (before ++ t)
  unfolding find
  match-Replaced [] before at t h r =
      let e : ([] ≡ before) × ([] ≡ at) = ground arith in
      rw (← e.0) (subst (λ a. Replaced from into a t) (sym e.1) r)
  match-Replaced (c ∷ s) before at t h r = elim (Bool-cases (starts_with (c ∷ s) from)) [
    | inl y ↦
        let e : ([] ≡ before) × (c ∷ s ≡ at) = ground arith in
        rw (← e.0) (subst (λ a. Replaced from into a t) (sym e.1) r)
    | inr n ↦ elim (Option-cases (find from s)) [
      | inl e ↦ absurd (ground arith)
      | inr (q, e) ↦
          let same : (c ∷ q.0 ≡ before) × (q.1 ≡ at) = ground arith in
          rw (← same.0) (
            miss n
              (match-Replaced s q.0 q.1 t e (subst (λ a. Replaced from into a t) (sym same.1) r)))
    ]
  ]

  -- The matched text begins with `from`.
  match-drop :
      (s before at : Bytes) → find from s ≡ some (before, at) → at ≡ from ++ drop (length from) at
  match-drop s before at h = eq_of_starts_with at from (find-append from s h).1

  -- A match leaves less text behind it than there was.
  length-match :
      (s before at : Bytes)
      → 0 < length from
      → find from s ≡ some (before, at)
      → length (drop (length from) at) < length s
  length-match s before at pos h =
      let e = find-append from s h in
      omega (
        arith,
        ap length e.0,
        length-append before at,
        ap length (match-drop s before at h),
        length-append from (drop (length from) at),
        length-drop (length from) at,
      )

  pub replace_loop-Replaced :
      (f : ℕ) (out rest : Bytes)
      → 0 < length from
      → length rest < f
      → (t : Bytes) × (replace_loop f from into out rest ≡ out ++ t) × Replaced from into rest t
  unfolding replace_loop
  replace_loop-Replaced zero out rest pos h = absurd (omega arith)
  replace_loop-Replaced (suc f) out rest pos h = elim (Option-cases (find from rest)) [
    | inl e ↦ (rest, rw (e, replace_loop) refl, no_match-Replaced rest e)
    | inr (q, e) ↦
        let (t, same, r) =
          replace_loop-Replaced f (out ++ (q.0 ++ into)) (drop (length from) q.1) pos
            (omega (arith, length-match rest q.0 q.1 pos e)) in
        (
          q.0 ++ (into ++ t),
          rw (e, replace_loop) (same ∙ simp append_assoc),
          match-Replaced rest q.0 q.1 (into ++ t) e (hit (match-drop rest q.0 q.1 e) refl r),
        )
  ]

-- For a `from` that is not empty, what `ReplaceAll` returns is the text with the leftmost matches
-- that do not overlap replaced.
pub replace_all-Replaced :
    (from into text : Bytes) → from ≢ [] → Replaced from into text (replace_all text from into)
unfolding replace_all
replace_all-Replaced [] into text h = absurd (h refl)
replace_all-Replaced (c ∷ from) into text h =
    let (t, same, r) =
      replace_loop-Replaced (c ∷ from) into (suc (length text)) [] text (omega arith)
        (omega arith) in
    rw same r
