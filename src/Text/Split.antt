-- ===== src/Text/Split.antt =====
-- `Split` against the texts that a separator ends.
use corepkgs_v.Prelude.{
  sym, ℕ, ◌≡◌, ◌≢◌, refl, ap, ◌∙◌, Bool, true, false, List, [], ◌∷◌, ◌++◌, append_assoc, append-nil,
  arith, Bytes, Lacks, All,
}
use corepkgs_v.Text.{split_loop, split}

-- Each part with the separator behind it.
abbrev pub terminated : ℕ → List Bytes → Bytes
terminated sep [] = []
terminated sep (p ∷ ps) = p ++ (sep ∷ terminated sep ps)

abbrev pub non_empty : List Bytes → List Bytes
non_empty [] = []
non_empty ([] ∷ ps) = non_empty ps
non_empty ((c ∷ p) ∷ ps) = (c ∷ p) ∷ non_empty ps

split_loop-terminated :
    (sep : ℕ) (cur s : Bytes) → terminated sep (split_loop sep true cur s) ≡ cur ++ (s ++ sep ∷ [])
unfolding split_loop
split_loop-terminated sep [] [] = refl
split_loop-terminated sep (b ∷ cur) [] = refl
split_loop-terminated sep [] (c ∷ s) =
    ground (arith, split_loop-terminated sep [] s, split_loop-terminated sep (c ∷ []) s)
split_loop-terminated sep (b ∷ cur) (c ∷ s) = ground (
  arith,
  split_loop-terminated sep [] s,
  split_loop-terminated sep ((b ∷ cur) ++ c ∷ []) s,
  append_assoc (b ∷ cur) (c ∷ []) (s ++ sep ∷ []),
)

-- Kept with its empty parts, a split spells the text: the parts, each with the separator behind
-- it, are the text with one separator behind it.
pub split-terminated :
    (text : Bytes) (sep : ℕ) → terminated sep (split text sep true) ≡ text ++ sep ∷ []
unfolding split
split-terminated text sep = split_loop-terminated sep [] text

split_loop-non_empty :
    (sep : ℕ) (cur s : Bytes) → split_loop sep false cur s ≡ non_empty (split_loop sep true cur s)
unfolding split_loop
split_loop-non_empty sep [] [] = refl
split_loop-non_empty sep (b ∷ cur) [] = refl
split_loop-non_empty sep [] (c ∷ s) =
    ground (arith, split_loop-non_empty sep [] s, split_loop-non_empty sep (c ∷ []) s)
split_loop-non_empty sep (b ∷ cur) (c ∷ s) =
    ground (arith, split_loop-non_empty sep [] s, split_loop-non_empty sep ((b ∷ cur) ++ c ∷ []) s)

-- Without `keep_empty` the split has the same parts in the same order, less the empty ones.
pub split-non_empty :
    (text : Bytes) (sep : ℕ) → split text sep false ≡ non_empty (split text sep true)
unfolding split
split-non_empty text sep = split_loop-non_empty sep [] text

split_loop-append :
    (sep : ℕ) (keep : Bool) (p cur rest : Bytes)
    → Lacks sep p
    → split_loop sep keep cur (p ++ rest) ≡ split_loop sep keep (cur ++ p) rest
unfolding split_loop
split_loop-append sep keep [] cur rest h = rw append-nil
split_loop-append sep keep (c ∷ p) cur rest h =
    ground (arith, split_loop-append sep keep p (cur ++ c ∷ []) rest, append_assoc cur (c ∷ []) p)

split_loop_sep :
    (sep : ℕ) (p rest : Bytes)
    → p ≢ []
    → split_loop sep false p (sep ∷ rest) ≡ p ∷ split_loop sep false [] rest
unfolding split_loop
split_loop_sep sep [] rest h = absurd (h refl)
split_loop_sep sep (c ∷ p) rest h = ground arith

-- A line is a part that a split finds again.
abbrev pub IsPart : ℕ → Bytes → Type 0
IsPart sep p = Lacks sep p × (p ≢ [])

-- Parts that are not empty and hold no separator are read back from their terminated text.
pub split-terminated_parts :
    (sep : ℕ) (ps : List Bytes) → All (IsPart sep) ps → split (terminated sep ps) sep false ≡ ps
unfolding split
split-terminated_parts sep [] h = unfold split_loop in refl
split-terminated_parts sep (p ∷ ps) h =
    split_loop-append sep false p [] (sep ∷ terminated sep ps) h.0.0
    ∙ split_loop_sep sep p (terminated sep ps) h.0.1
    ∙ ap (◌∷◌ p) (split-terminated_parts sep ps h.1)

last_part : (sep : ℕ) (p : Bytes) → p ≢ [] → split_loop sep false p [] ≡ p ∷ []
unfolding split_loop
last_part sep [] h = absurd (h refl)
last_part sep (c ∷ p) h = refl

-- Three parts with a separator between them.
pub split-three :
    (sep : ℕ) (a b c : Bytes)
    → IsPart sep a
    → IsPart sep b
    → IsPart sep c
    → split (a ++ (sep ∷ (b ++ (sep ∷ c)))) sep false ≡ a ∷ b ∷ c ∷ []
unfolding split
split-three sep a b c ha hb hc =
    split_loop-append sep false a [] _ ha.0
    ∙ split_loop_sep sep a _ ha.1
    ∙ ap (◌∷◌ a) (
        split_loop-append sep false b [] _ hb.0
        ∙ split_loop_sep sep b _ hb.1
        ∙ ap (◌∷◌ b) (
            ap (split_loop sep false []) (sym (append-nil c))
            ∙ split_loop-append sep false c [] [] hc.0
            ∙ last_part sep c hc.1))
