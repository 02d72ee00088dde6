-- ===== src/Text/Numbers.antt =====
-- `ParseUint` reads back what `std::to_string` and `{:o}` print, and `HexEncode` is injective.
use native.Mathlib.Nat.{mod-lt, div-add-mod', div-lt_self}
use corepkgs_v.Prelude.{
  ◌⊎◌, Lacks, ◌-◌, ℕ, zero, suc, ◌+◌, ◌*◌, ◌/◌, ◌%◌, ◌^◌, ◌≤◌, ◌<◌, ◌≡◌, ◌≢◌, refl, ap, ◌∙◌, none,
  some, [], ◌∷◌, arith, ltb, inl, inr, Bool-cases, Bytes, IsBytes, length, All,
}
use corepkgs_v.Text.{
  trim_front, trim_back, trim, scan_uint, parse_uint, hex_digit, hex_encode, print_loop, print_uint,
}

abbrev pub IsDigit : ℕ → Type 0
IsDigit c = (b'0' ≤ c) × (c ≤ b'9')

digits-Lacks : (b : ℕ) → (b < b'0') ⊎ (b'9' < b) → (s : Bytes) → All IsDigit s → Lacks b s
digits-Lacks b out [] h = tt
digits-Lacks b out (c ∷ s) h = (ground arith, digits-Lacks b out s h.1)

module _ (base : ℕ) (two : 2 ≤ base) (ten : base ≤ 10) where
  last_digit : (n : ℕ) → n % base < base
  last_digit n = mod-lt n (omega arith)

  print_loop-IsDigit :
      (f n : ℕ) (out : Bytes) → All IsDigit out → All IsDigit (print_loop f base n out)
  unfolding print_loop
  print_loop-IsDigit zero n out h = h
  print_loop-IsDigit (suc f) n out h =
      ground (arith, last_digit n, print_loop-IsDigit f (n / base) ((b'0' + n % base) ∷ out))

  -- The digits of a number: none but '0' to '9', and at least one.
  pub print_uint-IsDigit : (n : ℕ) → All IsDigit (print_uint base n)
  unfolding print_uint
  print_uint-IsDigit n = print_loop-IsDigit (suc n) n [] tt

  -- Nothing else stands in the printed number.
  pub print_uint-Lacks : (b n : ℕ) → (b < b'0') ⊎ (b'9' < b) → Lacks b (print_uint base n)
  print_uint-Lacks b n out = digits-Lacks b out _ (print_uint-IsDigit n)

  scan_digit :
      (d : ℕ) (s : Bytes) (value : ℕ)
      → d < base
      → value * base + d < 2 ^ 64
      → scan_uint base ((b'0' + d) ∷ s) value ≡ scan_uint base s (value * base + d)
  unfolding scan_uint
  scan_digit d s value h fits = ground arith

  scan_last :
      (n : ℕ) (out : Bytes)
      → n < 2 ^ 64
      → scan_uint base ((b'0' + n % base) ∷ out) (n / base) ≡ scan_uint base out n
  scan_last n out fits =
      scan_digit (n % base) out (n / base) (last_digit n) (rw (div-add-mod' n base) fits)
      ∙ ap (scan_uint base out) (div-add-mod' n base)

  scan_first :
      (n : ℕ) (out : Bytes) → n < base → scan_uint base ((b'0' + n) ∷ out) 0 ≡ scan_uint base out n
  scan_first n out h = scan_digit n out 0 h (omega arith) ∙ ap (scan_uint base out) (omega arith)

  scan-print_loop :
      (f n : ℕ) (out : Bytes)
      → n < f
      → n < 2 ^ 64
      → scan_uint base (print_loop f base n out) 0 ≡ scan_uint base out n
  unfolding print_loop
  scan-print_loop zero n out h fits = absurd (omega arith)
  scan-print_loop (suc f) n out h fits = elim (Bool-cases (ltb n base)) [
    | inl e ↦ rw e (scan_first n out (ground arith))
    | inr e ↦
        let smaller : n / base < n = div-lt_self (ground arith) (omega arith) in
        rw e (
          scan-print_loop f (n / base) ((b'0' + n % base) ∷ out) (omega arith) (omega arith)
          ∙ scan_last n out fits)
  ]

  print_loop-ne-nil : (f n : ℕ) (out : Bytes) → out ≢ [] → print_loop f base n out ≢ []
  unfolding print_loop
  print_loop-ne-nil zero n out h = h
  print_loop-ne-nil (suc f) n out h =
      ground (arith, print_loop-ne-nil f (n / base) ((b'0' + n % base) ∷ out))

  pub print_uint-ne-nil : (n : ℕ) → print_uint base n ≢ []
  unfolding print_uint print_loop
  print_uint-ne-nil n = ground (arith, print_loop-ne-nil n (n / base) ((b'0' + n % base) ∷ []))

trim_back-IsDigit : (s : Bytes) → All IsDigit s → trim_back s ≡ s
unfolding trim_back
trim_back-IsDigit [] h = refl
trim_back-IsDigit (c ∷ s) h = ground (arith, trim_back-IsDigit s h.1)

pub trim-IsDigit : (s : Bytes) → All IsDigit s → trim s ≡ s
unfolding trim trim_front
trim-IsDigit [] h = trim_back-IsDigit [] h
trim-IsDigit (c ∷ s) h = ground (arith, trim_back-IsDigit (c ∷ s) h)

parse_uint-scan :
    (base : ℕ) (s : Bytes) → All IsDigit s → s ≢ [] → parse_uint base s ≡ scan_uint base s 0
unfolding parse_uint
parse_uint-scan base s h ne = rw (trim-IsDigit s h, parse_uint) (go s ne)
  where
    go :
        (s : Bytes)
        → s ≢ []
        → elim s [ [] ↦ none | c ∷ s' ↦ scan_uint base (c ∷ s') 0 ] ≡ scan_uint base s 0
    go [] ne = absurd (ne refl)
    go (c ∷ s) ne = refl

-- In every base from 2 to 10, `ParseUint` of the printed number is the number, for each number
-- that fits in 64 bits.
pub parse_uint-print_uint :
    (base n : ℕ) → 2 ≤ base → base ≤ 10 → n < 2 ^ 64 → parse_uint base (print_uint base n) ≡ some n
parse_uint-print_uint base n two ten fits =
    parse_uint-scan base _ (print_uint-IsDigit base two ten n) (print_uint-ne-nil base two ten n)
    ∙ go
  where
    go : scan_uint base (print_uint base n) 0 ≡ some n
    go = unfold print_uint scan_uint in scan-print_loop base two ten (suc n) n [] (omega arith) fits

scan_uint-lt :
    (base : ℕ) (s : Bytes) (value r : ℕ)
    → value < 2 ^ 64
    → scan_uint base s value ≡ some r
    → r < 2 ^ 64
unfolding scan_uint
scan_uint-lt base [] value r fits h = ground arith
scan_uint-lt base (c ∷ s) value r fits h =
    ground (arith, scan_uint-lt base s (value * base + (c - b'0')) r)

-- The digits of `HexEncode`.
hex_digit-inj : (a b : ℕ) → a < 16 → b < 16 → hex_digit a ≡ hex_digit b → a ≡ b
hex_digit-inj a b ha hb h = ground arith

-- Two strings of bytes, each below 256, with one hexadecimal form are equal.
pub hex_encode-inj : (a b : Bytes) → IsBytes a → IsBytes b → hex_encode a ≡ hex_encode b → a ≡ b
unfolding hex_encode
hex_encode-inj [] [] ha hb h = refl
hex_encode-inj [] (y ∷ b) ha hb h = cc
hex_encode-inj (x ∷ a) [] ha hb h = cc
hex_encode-inj (x ∷ a) (y ∷ b) ha hb h =
    ground
      (arith, hex_digit-inj (x / 16) (y / 16), hex_digit-inj (x % 16) (y % 16), hex_encode-inj a b)

-- The form is twice as long, of hexadecimal digits only.
pub length-hex_encode : (a : Bytes) → length (hex_encode a) ≡ 2 * length a
unfolding hex_encode
length-hex_encode [] = omega arith
length-hex_encode (x ∷ a) = omega (arith, length-hex_encode a)
