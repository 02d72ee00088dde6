-- ===== src/NixStore/Path.antt =====
-- Store paths in pkgs/ji/jig/src/nix_store_mode.cc: `Nix32`, `CompressHash` and the functions that name an output.
use corepkgs_v.Prelude.{
  ℕ, zero, suc, ◌+◌, ◌-◌, ◌*◌, ◌/◌, ◌%◌, ◌^◌, none, some, List, [], ◌∷◌, ◌++◌, Bytes, codes, length,
  get_elem?, replicate,
}
use Prim.Native.Nat.{bit_xor}
use corepkgs_v.Text.{hex_encode}
use corepkgs_v.Rustc.Key.{sort}
use corepkgs_v.NixStore.Sha256.{sha256}

-- `kAlphabet`
abbrev pub alphabet : Bytes
alphabet = codes "0123456789abcdfghijklmnpqrsvwxyz"

-- `length` of `Nix32`, in 64 bits.
abbrev pub digit_count : Bytes → ℕ
digit_count bytes = (length bytes * 8 + (2 ^ 64 - 1)) % 2 ^ 64 / 5 + 1

-- An element, or zero behind the end.
abbrev pub byte_at : Bytes → ℕ → ℕ
byte_at bytes i = elim (get_elem? bytes i) [ none ↦ 0 | some b ↦ b ]

-- The five bits from `bit` on.
abbrev pub five_bits : Bytes → ℕ → ℕ
five_bits bytes bit =
    (byte_at bytes (bit / 8) + byte_at bytes (bit / 8 + 1) * 2 ^ 8) / 2 ^ (bit % 8) % 32

-- The loop of `Nix32`, with the digits that are left.
unfoldable pub nix32_loop : Bytes → ℕ → Bytes
nix32_loop bytes zero = []
nix32_loop bytes (suc n) = byte_at alphabet (five_bits bytes (n * 5)) ∷ nix32_loop bytes n

-- `Nix32`
unfoldable pub nix32 : Bytes → Bytes
nix32 bytes = nix32_loop bytes (digit_count bytes)

-- `kStorePathHashBytes`
abbrev pub hash_bytes : ℕ
hash_bytes = 20

unfoldable pub xor_at : ℕ → ℕ → Bytes → Bytes
xor_at i b [] = []
xor_at zero b (x ∷ out) = bit_xor x b ∷ out
xor_at (suc i) b (x ∷ out) = x ∷ xor_at i b out

-- The loop of `CompressHash`, from a position on.
unfoldable pub fold_loop : ℕ → Bytes → Bytes → Bytes
fold_loop i out [] = out
fold_loop i out (b ∷ digest) = fold_loop (suc i) (xor_at (i % hash_bytes) b out) digest

-- `CompressHash`
unfoldable pub compress_hash : Bytes → Bytes
compress_hash digest = fold_loop 0 (replicate hash_bytes 0) digest

abbrev pub fingerprint : Bytes → Bytes → Bytes → Bytes → Bytes
fingerprint store_dir type inner_fingerprint name =
    type
    ++ (codes ":sha256:"
        ++ (hex_encode (sha256 inner_fingerprint) ++ (b':' ∷ store_dir ++ b':' ∷ name)))

-- The name in the store, behind its directory.
abbrev pub base_name : Bytes → Bytes → Bytes → Bytes → Bytes
base_name store_dir type inner_fingerprint name =
    nix32 (compress_hash (sha256 (fingerprint store_dir type inner_fingerprint name)))
    ++ b'-' ∷ name

-- `MakeStorePath`
unfoldable pub make_store_path : Bytes → Bytes → Bytes → Bytes → Bytes
make_store_path store_dir type inner_fingerprint name =
    store_dir ++ b'/' ∷ base_name store_dir type inner_fingerprint name

-- `FixedOutputPath`
unfoldable pub fixed_output_path : Bytes → Bytes → Bytes → Bytes → Bytes
fixed_output_path store_dir name algo hex =
    make_store_path store_dir (codes "output:out")
      (codes "fixed:out:" ++ (algo ++ (b':' ∷ hex ++ b':' ∷ []))) name

-- The type in the fingerprint of a text: its references, each behind a colon.
unfoldable pub text_type : Bytes → List Bytes → Bytes
text_type type [] = type
text_type type (ref ∷ refs) = text_type (type ++ b':' ∷ ref) refs

-- `TextPath`, with `JIG_STORE_DIR`
unfoldable pub text_path : Bytes → Bytes → List Bytes → Bytes → Bytes
text_path store_dir name references contents =
    make_store_path store_dir (text_type (codes "text") (sort references)) contents name
