-- ===== src/Text/Words.antt =====
-- `SplitWhitespace` of pkgs/ji/jig/src/base.cc on words with single blanks between them.
use corepkgs_v.Prelude.{
  ℕ, zero, suc, ◌≤◌, ◌≡◌, ◌≢◌, refl, ap, ◌∙◌, false, not, List, [], ◌∷◌, ◌++◌, arith, Bytes, length,
  All, length-append,
}
use corepkgs_v.Text.{is_white, span, split_white, split_whitespace}

-- A word without white space.
abbrev pub IsWord : Bytes → Type 0
IsWord w = All (λ c. is_white c ≡ false) w × (w ≢ [])

-- Words with a blank in front of each.
abbrev pub spaced : List Bytes → Bytes
spaced [] = []
spaced (w ∷ ws) = b' ' ∷ (w ++ spaced ws)

span-word :
    (w : Bytes) (ws : List Bytes)
    → All (λ c. is_white c ≡ false) w
    → span (λ b. not (is_white b)) (w ++ spaced ws) ≡ (w, spaced ws)
unfolding span
span-word [] [] h = refl
span-word [] (v ∷ ws) h = refl
span-word (c ∷ w) ws h = rw (h.0, span) (rw (span-word w ws h.1) refl)

split_white-word :
    (f : ℕ) (w : Bytes) (ws : List Bytes)
    → IsWord w
    → split_white (suc f) (w ++ spaced ws) ≡ w ∷ split_white f (spaced ws)
unfolding split_white
split_white-word f [] ws h = absurd (h.1 refl)
split_white-word f (c ∷ w) ws h =
    let word : span (λ b. not (is_white b)) (c ∷ (w ++ spaced ws)) ≡ (c ∷ w, spaced ws) =
      span-word (c ∷ w) ws h.0 in
    let none_skipped : span is_white (c ∷ (w ++ spaced ws)) ≡ ([], c ∷ (w ++ spaced ws)) =
      unfold span in rw (h.0.0, span) refl in
    let round : split_white (suc f) (c ∷ (w ++ spaced ws)) ≡ (c ∷ w) ∷ split_white f (spaced ws) =
      simp (split_white, none_skipped, word) in
    round

-- A blank in front of a word changes nothing.
split_white-blank :
    (f : ℕ) (w : Bytes) (ws : List Bytes)
    → IsWord w
    → split_white (suc f) (b' ' ∷ (w ++ spaced ws)) ≡ w ∷ split_white f (spaced ws)
unfolding split_white
split_white-blank f [] ws h = absurd (h.1 refl)
split_white-blank f (c ∷ w) ws h =
    simp (split_white, span-word (c ∷ w) ws h.0, span_blank c (w ++ spaced ws) h.0.0)
  where
    span_blank :
        (c : ℕ) (s : Bytes) → is_white c ≡ false → span is_white (b' ' ∷ c ∷ s) ≡ (b' ' ∷ [], c ∷ s)
    span_blank c s h = unfold span in rw (h, span) refl

split_white-spaced :
    (f : ℕ) (ws : List Bytes) → All IsWord ws → length ws ≤ f → split_white f (spaced ws) ≡ ws
unfolding split_white
split_white-spaced zero [] h fits = refl
split_white-spaced zero (w ∷ ws) h fits = absurd (omega arith)
split_white-spaced (suc f) [] h fits = refl
split_white-spaced (suc f) (w ∷ ws) h fits =
    split_white-blank f w ws h.0 ∙ ap (◌∷◌ w) (split_white-spaced f ws h.1 (omega arith))

length-spaced : (ws : List Bytes) → length ws ≤ length (spaced ws)
length-spaced [] = omega arith
length-spaced (w ∷ ws) = omega (arith, length-spaced ws, length-append w (spaced ws))

-- Words without white space, none of them empty, are read back from a text with single blanks
-- between them.
pub split_whitespace-words :
    (w : Bytes) (ws : List Bytes)
    → IsWord w
    → All IsWord ws
    → split_whitespace (w ++ spaced ws) ≡ w ∷ ws
unfolding split_whitespace
split_whitespace-words [] ws h hs = absurd (h.1 refl)
split_whitespace-words (c ∷ w) ws h hs =
    split_white-word (length (w ++ spaced ws)) (c ∷ w) ws h
    ∙ ap (◌∷◌ (c ∷ w)) (
        split_white-spaced (length (w ++ spaced ws)) ws hs
          (omega (arith, length-append w (spaced ws), length-spaced ws)))
