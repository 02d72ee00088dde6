-- ===== src/Image/Patches.antt =====
-- What a patch of a binary image changes, and what it leaves alone.
use corepkgs_v.Prelude.{
  ℕ, zero, suc, ◌+◌, ◌-◌, ◌≤◌, ◌<◌, ◌≡◌, refl, sym, ap, ◌∙◌, ◌⊎◌, inl, inr, true, false, ◌||◌, some,
  [], ◌∷◌, ◌++◌, append_assoc, arith, ltb, Bool-cases, Bytes, Lacks, length, take, drop, replicate,
  length-append, drop-append_length, take-append_length, length-take, length-drop, length-replicate,
}
use mathlib.Core.Path.{subst}
use corepkgs_v.Image.{Image, outside, read, replaced, write, until_nul, c_string, write_padded}

-- A field of the image, and the whole image but for that field.
pub record SameElsewhere (offset size : ℕ) (before after : Bytes) : Type 0 where
  pub same_length : length after ≡ length before
  pub same_front : take offset after ≡ take offset before
  pub same_back : drop (offset + size) after ≡ drop (offset + size) before

length-replaced :
    (bytes : Bytes) (offset : ℕ) (text : Bytes)
    → offset + length text ≤ length bytes
    → length (replaced bytes offset (length text) text) ≡ length bytes
length-replaced bytes offset text h = omega (
  arith,
  length-append (take offset bytes) (text ++ drop (offset + length text) bytes),
  length-append text (drop (offset + length text) bytes),
  length-take offset bytes,
  length-drop (offset + length text) bytes,
)

take-replaced :
    (bytes : Bytes) (offset : ℕ) (rest : Bytes)
    → offset ≤ length bytes
    → take offset (take offset bytes ++ rest) ≡ take offset bytes
take-replaced bytes zero rest h = refl
take-replaced [] (suc offset) rest h = absurd (omega arith)
take-replaced (c ∷ bytes) (suc offset) rest h =
    ap (◌∷◌ c) (take-replaced bytes offset rest (omega arith))

drop-replaced :
    (bytes : Bytes) (offset : ℕ) (rest : Bytes)
    → offset ≤ length bytes
    → drop offset (take offset bytes ++ rest) ≡ rest
drop-replaced bytes zero rest h = refl
drop-replaced [] (suc offset) rest h = absurd (omega arith)
drop-replaced (c ∷ bytes) (suc offset) rest h = drop-replaced bytes offset rest (omega arith)

drop-nil : (k : ℕ) → drop {A = ℕ} k [] ≡ []
drop-nil zero = refl
drop-nil (suc k) = refl

drop_add : (n m : ℕ) (bytes : Bytes) → drop (n + m) bytes ≡ drop m (drop n bytes)
drop_add zero m bytes = ap (λ k. drop k bytes) (omega arith)
drop_add (suc n) m [] = drop-nil (suc n + m) ∙ sym (drop-nil m)
drop_add (suc n) m (c ∷ bytes) =
    let e : suc n + m ≡ suc (n + m) = omega arith in
    ap (λ k. drop k (c ∷ bytes)) e ∙ drop_add n m bytes

-- What stands at the field, and behind it.
drop_at-replaced :
    (bytes : Bytes) (offset : ℕ) (text : Bytes)
    → offset ≤ length bytes
    → drop offset (replaced bytes offset (length text) text)
      ≡ text ++ drop (offset + length text) bytes
drop_at-replaced bytes offset text h = drop-replaced bytes offset _ h

replaced-SameElsewhere :
    (bytes : Bytes) (offset : ℕ) (text : Bytes)
    → offset + length text ≤ length bytes
    → SameElsewhere offset (length text) bytes (replaced bytes offset (length text) text)
replaced-SameElsewhere bytes offset text h = record {
  same_length = length-replaced bytes offset text h;
  same_front = take-replaced bytes offset _ (omega arith);
  same_back =
      drop_add offset (length text) _
      ∙ ap (drop (length text)) (drop_at-replaced bytes offset text (omega arith))
      ∙ drop-append_length text (drop (offset + length text) bytes);
}

-- `outside` in numbers
fits :
    (image : Image) (offset size : ℕ)
    → outside image offset size ≡ false
    → offset + size ≤ length image.bytes
fits image offset size h = ground arith

read_inside :
    (image : Image) (offset size : ℕ)
    → offset + size ≤ length image.bytes
    → read image offset size ≡ some (take size (drop offset image.bytes))
unfolding read
read_inside image offset size h = ground arith

read-replaced :
    (bytes : Bytes) (offset : ℕ) (value : Bytes)
    → offset + length value ≤ length bytes
    → read (record { bytes = replaced bytes offset (length value) value }) offset (length value)
      ≡ some value
read-replaced bytes offset value h =
    read_inside _ offset (length value) (omega (arith, length-replaced bytes offset value h))
    ∙ ap (λ s. some (take (length value) s)) (drop_at-replaced bytes offset value (omega arith))
    ∙ ap some (take-append_length value (drop (offset + length value) bytes))

-- A write of a value either fits, and is then read back while nothing else changes, or it fails, runs past
-- the end, and changes nothing.
pub write_lem :
    (image : Image) (offset : ℕ) (value : Bytes)
    → let (after, written) = write image offset value in
      ((written ≡ true)
        × (offset + length value ≤ length image.bytes)
        × (read after offset (length value) ≡ some value)
        × SameElsewhere offset (length value) image.bytes after.bytes)
      ⊎ ((written ≡ false) × (length image.bytes < offset + length value) × (after ≡ image))
unfolding write read
write_lem image offset value = elim (Bool-cases (outside image offset (length value))) [
  | inl out ↦ inr (rw (out, write) refl, ground arith, rw (out, write) refl)
  | inr inside ↦
      let room = fits image offset (length value) inside in
      let same = replaced-SameElsewhere image.bytes offset value room in
      inl (
        rw (inside, write) refl,
        room,
        rw (inside, write) (read-replaced image.bytes offset value room),
        rw (inside, write) same,
      )
]

until_nul-Lacks : (text rest : Bytes) → Lacks 0 text → until_nul (text ++ (0 ∷ rest)) ≡ text
unfolding until_nul
until_nul-Lacks [] rest h = refl
until_nul-Lacks (c ∷ text) rest h = ground (arith, until_nul-Lacks text rest h.1)

abbrev padding : (capacity : ℕ) (text : Bytes) → Bytes
padding capacity text = text ++ replicate (capacity - length text) 0

length-padding :
    (capacity : ℕ) (text : Bytes)
    → length text ≤ capacity
    → length (padding capacity text) ≡ capacity
length-padding capacity text h = omega (
  arith,
  length-append text (replicate (capacity - length text) 0),
  length-replicate {A = ℕ} (capacity - length text) 0,
)

replicate-pos : (n : ℕ) → 0 < n → replicate {A = ℕ} n 0 ≡ 0 ∷ replicate (n - 1) 0
replicate-pos zero h = absurd (omega arith)
replicate-pos (suc n) h = ap (λ k. 0 ∷ replicate {A = ℕ} k 0) (omega arith)

c_string_inside :
    (image : Image) (offset : ℕ)
    → offset < length image.bytes
    → c_string image offset ≡ until_nul (drop offset image.bytes)
unfolding c_string
c_string_inside image offset h = ground arith

until_nul-padding :
    (capacity : ℕ) (text rest : Bytes)
    → Lacks 0 text
    → length text < capacity
    → until_nul (padding capacity text ++ rest) ≡ text
until_nul-padding capacity text rest h lt =
    rw (replicate-pos (capacity - length text) (omega arith), append_assoc)
      (until_nul-Lacks text _ h)

c_string-replaced :
    (bytes : Bytes) (offset : ℕ) (field text : Bytes)
    → offset + length field ≤ length bytes
    → 0 < length field
    → until_nul (field ++ drop (offset + length field) bytes) ≡ text
    → c_string (record { bytes = replaced bytes offset (length field) field }) offset ≡ text
c_string-replaced bytes offset field text h pos e =
    c_string_inside _ offset (omega (arith, length-replaced bytes offset field h))
    ∙ ap until_nul (drop_at-replaced bytes offset field (omega arith))
    ∙ e

padded_field :
    (bytes : Bytes) (offset capacity : ℕ) (text : Bytes)
    → Lacks 0 text
    → length text < capacity
    → offset + capacity ≤ length bytes
    → let after = replaced bytes offset capacity (padding capacity text) in
      (c_string (record { bytes = after }) offset ≡ text)
      × SameElsewhere offset capacity bytes after
padded_field bytes offset capacity text h lt room =
    let e = length-padding capacity text (omega arith) in
    let field = padding capacity text in
    subst
      (λ n.
        (c_string (record { bytes = replaced bytes offset n field }) offset ≡ text)
        × SameElsewhere offset n bytes (replaced bytes offset n field))
      e
      (
        c_string-replaced bytes offset field text (omega (arith, e)) (omega (arith, e))
            (until_nul-padding capacity text _ h lt),
        replaced-SameElsewhere bytes offset field (omega (arith, e)),
      )

-- A string without NUL that is written into a field of fixed size either fits with its NUL, is then the C string at that
-- place, and changes nothing outside the field, or the call fails and changes nothing. It
-- fails exactly when there is no room for the NUL or the field runs past the end.
pub write_padded_lem :
    (image : Image) (offset capacity : ℕ) (text : Bytes)
    → Lacks 0 text
    → let (after, written) = write_padded image offset capacity text in
      ((written ≡ true)
        × (length text < capacity)
        × (offset + capacity ≤ length image.bytes)
        × (c_string after offset ≡ text)
        × SameElsewhere offset capacity image.bytes after.bytes)
      ⊎ ((written ≡ false)
          × ((capacity ≤ length text) ⊎ (length image.bytes < offset + capacity))
          × (after ≡ image))
unfolding write_padded
write_padded_lem image offset capacity text h =
    elim (Bool-cases (ltb capacity (length text + 1) || outside image offset capacity)) [
      | inl out ↦ inr (rw (out, write_padded) refl, ground arith, rw (out, write_padded) refl)
      | inr inside ↦
          let room : (length text < capacity) × (offset + capacity ≤ length image.bytes) =
            ground arith in
          let done = padded_field image.bytes offset capacity text h room.0 room.1 in
          inl (
            rw (inside, write_padded) refl,
            room.0,
            room.1,
            rw (inside, write_padded) done.0,
            rw (inside, write_padded) done.1,
          )
    ]
