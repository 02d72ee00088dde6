-- ===== src/Keys/Frame.antt =====
-- The framing of `Hasher::Field` is injective, so equal hasher inputs come from equal fields, and
-- the server's keys of different slots differ.
use corepkgs_v.Prelude.{
  first_unique, inr, ℕ, ◌^◌, ◌<◌, ◌≡◌, ◌≢◌, refl, sym, ◌∙◌, List, [], ◌∷◌, ◌++◌, append_assoc,
  append-nil, arith, Bytes, Lacks, length, All,
}
use corepkgs_v.Text.{print_uint}
use corepkgs_v.Text.Numbers.{print_uint-Lacks, parse_uint-print_uint}
use corepkgs_v.Keys.{Hasher, field, Tool, k_cc, k_rustc, request_key, Slot, manifest, slot_key}

-- All the fields of one key, in order.
abbrev pub fields : Hasher → List Bytes → Hasher
fields h [] = h
fields h (f ∷ fs) = fields (field h f) fs

-- Lengths are values of `size_t`.
abbrev pub Fits : List Bytes → Type 0
Fits = All (λ f. length f < 2 ^ 64)

abbrev frame : Bytes → Bytes
frame f = print_uint 10 (length f) ++ (b':' ∷ f)

abbrev framed : List Bytes → Bytes
framed [] = []
framed (f ∷ fs) = frame f ++ framed fs

fields-framed : (fs : List Bytes) (h : Hasher) → fields h fs ≡ h ++ framed fs
unfolding field
fields-framed [] h = sym (append-nil h)
fields-framed (f ∷ fs) h = simp (fields-framed fs, append_assoc)

prefix-inj : (f g x y : Bytes) → length f ≡ length g → f ++ x ≡ g ++ y → (f ≡ g) × (x ≡ y)
prefix-inj [] [] x y n e = (refl, e)
prefix-inj [] (d ∷ g) x y n e = absurd (omega arith)
prefix-inj (c ∷ f) [] x y n e = absurd (omega arith)
prefix-inj (c ∷ f) (d ∷ g) x y n e = ground (arith, prefix-inj f g x y)

print_uint-inj : (m n : ℕ) → m < 2 ^ 64 → n < 2 ^ 64 → print_uint 10 m ≡ print_uint 10 n → m ≡ n
print_uint-inj m n hm hn e = cc (
  parse_uint-print_uint 10 m (omega arith) (omega arith) hm,
  parse_uint-print_uint 10 n (omega arith) (omega arith) hn,
)

no_colon : (n : ℕ) → Lacks b':' (print_uint 10 n)
no_colon n = print_uint-Lacks 10 (omega arith) (omega arith) b':' n (inr (omega arith))

frame-inj :
    (f g x y : Bytes)
    → length f < 2 ^ 64
    → length g < 2 ^ 64
    → frame f ++ x ≡ frame g ++ y
    → (f ≡ g) × (x ≡ y)
frame-inj f g x y hf hg e =
    let (lengths, rests) =
      first_unique b':' (print_uint 10 (length f)) (print_uint 10 (length g)) (f ++ x) (g ++ y)
        (no_colon (length f)) (no_colon (length g)) (simp append_assoc at e) in
    prefix-inj f g x y (print_uint-inj (length f) (length g) hf hg lengths) rests

append-ne-nil : (p f x : Bytes) (c : ℕ) → (p ++ (c ∷ f)) ++ x ≢ []
append-ne-nil [] f x c e = cc
append-ne-nil (d ∷ p) f x c e = cc

frame-ne-nil : (f x : Bytes) → frame f ++ x ≢ []
frame-ne-nil f x e = append-ne-nil (print_uint 10 (length f)) f x b':' e

framed-inj : (fs gs : List Bytes) → Fits fs → Fits gs → framed fs ≡ framed gs → fs ≡ gs
framed-inj [] [] hf hg e = refl
framed-inj [] (g ∷ gs) hf hg e = absurd (frame-ne-nil g (framed gs) (sym e))
framed-inj (f ∷ fs) [] hf hg e = absurd (frame-ne-nil f (framed fs) e)
framed-inj (f ∷ fs) (g ∷ gs) hf hg e =
    let (same, rest) = frame-inj f g (framed fs) (framed gs) hf.0 hg.0 e in
    cc (same, framed-inj fs gs hf.1 hg.1 rest)

-- Two keys that feed the hasher the same bytes, with fields shorter than 2^64 bytes, were made of
-- the same fields: no byte sequence inside a field can fake a boundary.
pub fields-inj : (fs gs : List Bytes) → Fits fs → Fits gs → fields [] fs ≡ fields [] gs → fs ≡ gs
fields-inj fs gs hf hg e =
    framed-inj fs gs hf hg (sym (fields-framed fs []) ∙ e ∙ fields-framed gs [])

-- No byte 'r': so it is in the output of `hex_encode`.
abbrev pub IsHex : Bytes → Type 0
IsHex = Lacks b'r'

-- Request keys of digests without the byte 'r' determine the tool and the digest.
pub request_key-inj :
    (t u : Tool) (a b : Bytes)
    → IsHex a
    → IsHex b
    → request_key t a ≡ request_key u b
    → (t ≡ u) × (a ≡ b)
unfolding request_key
request_key-inj k_cc k_cc a b ha hb e = (refl, e)
request_key-inj k_rustc k_rustc a b ha hb e = ground arith
request_key-inj k_cc k_rustc [] b ha hb e = cc
request_key-inj k_cc k_rustc (c ∷ a) b ha hb e = ground arith
request_key-inj k_rustc k_cc a [] ha hb e = cc
request_key-inj k_rustc k_cc a (c ∷ b) ha hb e = ground arith

-- Two slots with one server key are the same slot of the same entry.
pub slot_key-inj : (s t : Slot) → slot_key s ≡ slot_key t → s ≡ t
unfolding slot_key
slot_key-inj (manifest a) _ e = ground arith
slot_key-inj _ _ e = ground arith
