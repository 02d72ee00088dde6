-- ===== src/NixStore/Named.antt =====
-- The paths that `MakeStorePath` of pkgs/ji/jig/src/nix_store_mode.cc makes, as `Store` reads them.
use corepkgs_v.Prelude.{
  ℕ, zero, suc, ◌+◌, ◌-◌, ◌*◌, ◌/◌, ◌%◌, ◌^◌, ◌<◌, ◌≡◌, refl, ap, ◌∙◌, Bool, true, [], ◌∷◌, ◌++◌,
  arith, ltb, ◌==◌, Bytes, starts_with-append, has, length, drop, replicate, all, length-append,
  length-replicate,
}
use corepkgs_v.Store.{
  hash_digits, store_hash_length, at_is, is_store_hash, is_hashed, is_store_path,
}
use corepkgs_v.Store.Names.{is_hashed-append}
use corepkgs_v.NixStore.Sha256.{sha256}
use corepkgs_v.NixStore.Path.{
  alphabet, byte_at, five_bits, nix32_loop, nix32, hash_bytes, xor_at, fold_loop, compress_hash,
  fingerprint, make_store_path,
}

all-byte_at :
    (p : ℕ → Bool) (xs : Bytes) (i : ℕ) → all p xs ≡ true → i < length xs → p (byte_at xs i) ≡ true
all-byte_at p [] i h below = ground arith
all-byte_at p (x ∷ xs) zero h below = ground arith
all-byte_at p (x ∷ xs) (suc i) h below = all-byte_at p xs i (ground arith) (ground arith)

digits_known : all (λ c. has c hash_digits) alphabet ≡ true
unfolding has
digits_known = refl

nix32_loop-digits :
    (bytes : Bytes) (n : ℕ) → all (λ c. has c hash_digits) (nix32_loop bytes n) ≡ true
unfolding nix32_loop
nix32_loop-digits bytes zero = refl
nix32_loop-digits bytes (suc n) =
    let first =
      all-byte_at (λ c. has c hash_digits) alphabet (five_bits bytes (n * 5)) digits_known
        (omega arith) in
    rw (first, nix32_loop-digits bytes n) refl

length-nix32_loop : (bytes : Bytes) (n : ℕ) → length (nix32_loop bytes n) ≡ n
unfolding nix32_loop
length-nix32_loop bytes zero = refl
length-nix32_loop bytes (suc n) = ground (arith, length-nix32_loop bytes n)

length-xor_at : (i b : ℕ) (out : Bytes) → length (xor_at i b out) ≡ length out
unfolding xor_at
length-xor_at i b [] = refl
length-xor_at zero b (x ∷ out) = refl
length-xor_at (suc i) b (x ∷ out) = ground (arith, length-xor_at i b out)

length-fold_loop : (i : ℕ) (out digest : Bytes) → length (fold_loop i out digest) ≡ length out
unfolding fold_loop
length-fold_loop i out [] = refl
length-fold_loop i out (b ∷ digest) =
    length-fold_loop (suc i) (xor_at (i % hash_bytes) b out) digest
    ∙ length-xor_at (i % hash_bytes) b out

length-compress_hash : (digest : Bytes) → length (compress_hash digest) ≡ hash_bytes
unfolding compress_hash
length-compress_hash digest =
    length-fold_loop 0 (replicate hash_bytes 0) digest ∙ length-replicate {A = ℕ} hash_bytes 0

-- A hash of 20 bytes has 32 digits.
nix32-is_store_hash :
    (bytes : Bytes) → length bytes ≡ hash_bytes → is_store_hash (nix32 bytes) ≡ true
unfolding nix32 is_store_hash
nix32-is_store_hash bytes h =
    let count : (length bytes * 8 + (2 ^ 64 - 1)) % 2 ^ 64 / 5 + 1 ≡ store_hash_length =
      omega (arith, h) in
    let n = (length bytes * 8 + (2 ^ 64 - 1)) % 2 ^ 64 / 5 + 1 in
    let size : (length (nix32_loop bytes n) == store_hash_length) ≡ true =
      ground (arith, length-nix32_loop bytes n, count) in
    rw (size, nix32_loop-digits bytes n) refl

length-nix32 :
    (bytes : Bytes) → length bytes ≡ hash_bytes → length (nix32 bytes) ≡ store_hash_length
unfolding nix32
length-nix32 bytes h = length-nix32_loop bytes _ ∙ omega (arith, h)

drop_behind : (n : ℕ) (xs ys : Bytes) → drop (length xs + n) (xs ++ ys) ≡ drop n ys
drop_behind n [] ys = ap (λ k. drop k ys) (omega arith)
drop_behind n (x ∷ xs) ys =
    let step : length (x ∷ xs) + n ≡ suc (length xs + n) = omega arith in
    ap (λ k. drop k (x ∷ xs ++ ys)) step ∙ drop_behind n xs ys

-- `at_is` behind a text.
at_is-append : (text rest : Bytes) (c : ℕ) → at_is (text ++ c ∷ rest) (length text) c ≡ true
at_is-append [] rest c = ground arith
at_is-append (x ∷ text) rest c = at_is-append text rest c

is_store_path-append : (dir rest : Bytes) → is_store_path dir (dir ++ b'/' ∷ rest) ≡ true
unfolding is_store_path
is_store_path-append dir rest =
    let long : ltb (length dir) (length (dir ++ b'/' ∷ rest)) ≡ true =
      ground (arith, length-append dir (b'/' ∷ rest)) in
    rw (long, starts_with-append dir (b'/' ∷ rest), at_is-append dir rest b'/') refl

-- The path that `MakeStorePath` makes is one that `Store::IsStorePath` accepts; behind the directory and
-- a slash stands what `Store::MaskHashes` takes for a hash and its dash, 33 bytes, and behind them the name.
pub make_store_path-is_store_path :
    (store_dir type inner_fingerprint name : Bytes)
    → let path = make_store_path store_dir type inner_fingerprint name in
      (is_store_path store_dir path ≡ true)
      × (is_hashed (drop (length store_dir + 1) path) ≡ true)
      × (drop (length store_dir + 34) path ≡ name)
unfolding make_store_path
make_store_path-is_store_path store_dir type inner_fingerprint name =
    let digest = sha256 (fingerprint store_dir type inner_fingerprint name) in
    let hash = nix32 (compress_hash digest) in
    let known = nix32-is_store_hash (compress_hash digest) (length-compress_hash digest) in
    let tail = hash ++ (b'-' ∷ name) in
    let size = length-nix32 (compress_hash digest) (length-compress_hash digest) in
    let place : 33 ≡ length hash + 1 = ground (arith, size) in
    let behind : drop 33 tail ≡ name =
      ap (λ n. drop n tail) place ∙ drop_behind 1 hash (b'-' ∷ name) in
    (
      is_store_path-append store_dir tail,
      ap is_hashed (drop_behind 1 store_dir (b'/' ∷ tail)) ∙ is_hashed-append hash name known,
      drop_behind 34 store_dir (b'/' ∷ tail) ∙ behind,
    )
