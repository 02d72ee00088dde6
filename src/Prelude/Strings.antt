-- ===== src/Prelude/Strings.antt =====
-- Byte strings: `std::string` and `std::string_view` as lists of byte values, with the operations
-- of theirs that the source calls.
use Prim.Native.Nat.{ℕ, ◌<◌, ◌-◌}
use Prim.Native.Char.{code}
use Prim.Native.String.{String}
use mathlib.Core.Path.{◌≡◌, refl, ap}
use mathlib.Core.Logic.{◌≢◌, ◌↔◌, ◌⊎◌, inl, inr}
use mathlib.Core.Bool.{Bool, true, false, ◌&&◌}
use mathlib.Core.List.{List, [], ◌∷◌, ◌++◌}
use mathlib.Core.Option.{Option, none, some}
use native.Mathlib.Omega.{arith}
use corepkgs_v.Prelude.Tests.{◌==◌, leb, if◌then◌else◌, Bool-cases, Option-cases}
use corepkgs_v.Prelude.Lists.{length, drop, All, any}

abbrev pub Bytes : Type 0
Bytes = List ℕ

-- The bytes of an ASCII literal.
abbrev pub codes : String → Bytes
codes String.[] = []
codes (String.◌∷◌ c s) = code c ∷ codes s

abbrev pub Lacks : ℕ → Bytes → Type 0
Lacks b = All (λ c. c ≢ b)

-- Each item is a byte.
abbrev pub IsBytes : Bytes → Type 0
IsBytes = All (λ c. c < 256)

-- `a == b` on strings
unfoldable pub equal : Bytes → Bytes → Bool
equal [] [] = true
equal [] (d ∷ t) = false
equal (c ∷ s) [] = false
equal (c ∷ s) (d ∷ t) = c == d && equal s t

pub equal_iff : (s t : Bytes) → (equal s t ≡ true) ↔ (s ≡ t)
unfolding equal
equal_iff [] [] = ground arith
equal_iff [] (d ∷ t) = ground arith
equal_iff (c ∷ s) [] = ground arith
equal_iff (c ∷ s) (d ∷ t) = ground (arith, equal_iff s t)

-- `text.starts_with(prefix)`
unfoldable pub starts_with : Bytes → Bytes → Bool
starts_with s [] = true
starts_with [] (p ∷ ps) = false
starts_with (c ∷ s) (p ∷ ps) = c == p && starts_with s ps

pub starts_with-append : (p s : Bytes) → starts_with (p ++ s) p ≡ true
unfolding starts_with
starts_with-append [] s = refl
starts_with-append (c ∷ p) s = ground (arith, starts_with-append p s)

pub eq_of_starts_with : (s p : Bytes) → starts_with s p ≡ true → s ≡ p ++ drop (length p) s
unfolding starts_with
eq_of_starts_with s [] h = refl
eq_of_starts_with [] (p ∷ ps) h = cc
eq_of_starts_with (c ∷ s) (p ∷ ps) h = ground (arith, eq_of_starts_with s ps)

-- `text.ends_with(suffix)`
unfoldable pub ends_with : Bytes → Bytes → Bool
ends_with s p = leb (length p) (length s) && equal (drop (length s - length p) s) p

-- `text.find(needle)`: what stands before the first match, and the text from the match on.
unfoldable pub find : Bytes → Bytes → Option (Bytes × Bytes)
find needle [] = if starts_with [] needle then some ([], []) else none
find needle (c ∷ s) =
    let rest = find needle s in
    if starts_with (c ∷ s) needle
    then some ([], c ∷ s)
    else elim rest [ none ↦ none | some (before, at) ↦ some (c ∷ before, at) ]

-- `text.find(byte)`, in the same form
unfoldable pub find_byte : ℕ → Bytes → Option (Bytes × Bytes)
find_byte b [] = none
find_byte b (c ∷ s) =
    let rest = find_byte b s in
    if c == b
    then some ([], c ∷ s)
    else elim rest [ none ↦ none | some (before, at) ↦ some (c ∷ before, at) ]

-- The first `b` stands behind the part that lacks it.
pub find_byte-first :
    (b : ℕ) (p rest : Bytes) → Lacks b p → find_byte b (p ++ (b ∷ rest)) ≡ some (p, b ∷ rest)
unfolding find_byte
find_byte-first b [] rest h = ground arith
find_byte-first b (c ∷ p) rest h = ground (arith, find_byte-first b p rest h.1)

-- The two answers of a search for a byte.
pub find_byte-cases :
    (b : ℕ) (s : Bytes)
    → ((find_byte b s ≡ none) × Lacks b s)
      ⊎ ((front : Bytes) × (rest : Bytes) × (find_byte b s ≡ some (front, b ∷ rest))
          × (s ≡ front ++ (b ∷ rest))
          × Lacks b front)
unfolding find_byte
find_byte-cases b [] = inl (refl, tt)
find_byte-cases b (c ∷ s) = elim (Bool-cases (c == b)) [
  | inl y ↦
      let same : c ≡ b = ground arith in
      inr ([], s, rw (y, find_byte) (ap (λ x. some ([], x ∷ s)) same), ap (λ x. x ∷ s) same, tt)
  | inr n ↦
      let other : c ≢ b = ground arith in
      elim (find_byte-cases b s) [
        | inl (e, lacks) ↦ inl (rw (n, e, find_byte) refl, (other, lacks))
        | inr (front, rest, e, same, lacks) ↦
            inr (c ∷ front, rest, rw (n, e, find_byte) refl, ap (◌∷◌ c) same, (other, lacks))
      ]
]

-- There is one place where a text is cut at its first `b`.
pub first_unique :
    (b : ℕ) (p q u v : Bytes)
    → Lacks b p
    → Lacks b q
    → p ++ (b ∷ u) ≡ q ++ (b ∷ v)
    → (p ≡ q) × (u ≡ v)
first_unique b [] [] u v hp hq e = ground arith
first_unique b [] (d ∷ q) u v hp hq e = ground arith
first_unique b (c ∷ p) [] u v hp hq e = ground arith
first_unique b (c ∷ p) (d ∷ q) u v hp hq e = ground (arith, first_unique b p q u v)

-- `text.contains(byte)`
unfoldable pub has : ℕ → Bytes → Bool
has b = any (λ c. c == b)

-- `text.contains(needle)`
unfoldable pub contains : Bytes → Bytes → Bool
contains s needle = elim (find needle s) [ none ↦ false | some r ↦ true ]

-- The parts of a search spell the text.
pub find-append :
    (needle s : Bytes) {before at : Bytes}
    → find needle s ≡ some (before, at)
    → (s ≡ before ++ at) × (starts_with at needle ≡ true)
unfolding find
find-append needle [] h = ground arith
find-append needle (c ∷ s) h = elim (Option-cases (find needle s)) [
  | inl e ↦ ground arith
  | inr (r, e) ↦ ground (arith, find-append needle s {before = r.0} {at = r.1} e)
]
