-- ===== src/CacheClient/Codec.antt =====
-- `Compress` and `Decompress` of pkgs/ji/jig/src/cache_client.cc. zstd is the record `Zstd`.
use corepkgs_v.Prelude.{
  ℕ, ◌+◌, ◌*◌, ◌/◌, ◌%◌, ◌^◌, ◌≤◌, ◌<◌, ◌≡◌, ◌≢◌, refl, ap, inl, inr, Option, none, some, [], ◌∷◌,
  ◌++◌, arith, ◌==◌, if◌then◌else◌, ==_iff, Option-cases, Bytes, length,
}
use native.Mathlib.Nat.{mod-eq_of_lt}

-- The two calls of zstd: a frame, and the bytes of a frame for a buffer of a size; none is an error. A
-- frame gives its bytes back where the buffer has room for them.
pub record Zstd : Type 0 where
  pub compress : Bytes → Option Bytes
  pub decompress : Bytes → ℕ → Option Bytes
  pub restores :
      (bytes frame : Bytes) (capacity : ℕ)
      → compress bytes ≡ some frame
      → length bytes ≤ capacity
      → decompress frame capacity ≡ some bytes

-- `kHeader`
abbrev pub header_size : ℕ
header_size = 4

-- A `uint32_t` as the bytes of this machine.
unfoldable pub header_of : ℕ → Bytes
header_of n =
    let n' = n % 2 ^ 32 in n' % 256 ∷ n' / 256 % 256 ∷ n' / 65536 % 256 ∷ n' / 16777216 ∷ []

-- `Compress`: empty if zstd fails.
unfoldable pub compress : Zstd → Bytes → Bytes
compress zstd value = elim (zstd.compress value) [
  | none ↦ []
  | some frame ↦ header_of (length value) ++ frame
]

-- The size in the header, and the frame.
unfoldable pub read_header : Bytes → Option (ℕ × Bytes)
read_header (a ∷ b ∷ c ∷ d ∷ frame) = some (a + 256 * b + 65536 * c + 16777216 * d, frame)
read_header _ = none

-- `Decompress`
unfoldable pub decompress : Zstd → Bytes → Option Bytes
decompress zstd wire = elim (read_header wire) [
  | none ↦ none
  | some (size, frame) ↦ elim (zstd.decompress frame size) [
    | none ↦ none
    | some bytes ↦ if length bytes == size then some bytes else none
  ]
]

read_header-header_of :
    (n : ℕ) (frame : Bytes) → n < 2 ^ 32 → read_header (header_of n ++ frame) ≡ some (n, frame)
unfolding read_header header_of
read_header-header_of n frame h =
    let small : n % 2 ^ 32 ≡ n = mod-eq_of_lt h in ap (λ k. some (k, frame)) (omega arith)

-- A value below 4 GiB that zstd could compress is read back from what is sent of it.
pub decompress-compress :
    (zstd : Zstd) (value : Bytes)
    → zstd.compress value ≢ none
    → length value < 2 ^ 32
    → decompress zstd (compress zstd value) ≡ some value
unfolding compress decompress
decompress-compress zstd value works small = elim (Option-cases (zstd.compress value)) [
  | inl e ↦ absurd (works e)
  | inr (frame, e) ↦
      rw
        (
          e,
          compress,
          decompress,
          read_header-header_of (length value) frame small,
          zstd.restores value frame (length value) e (omega arith),
          (==_iff (length value) (length value)).1 refl,
        )
        refl
]
