-- ===== src/Store/Names.antt =====
-- One store file under the names of two builds: `MaskHashes` and `Resolve` of pkgs/ji/jig/src/store.cc.
use corepkgs_v.Prelude.{
  find_byte-first, ℕ, zero, suc, ◌+◌, ◌≡◌, refl, sym, ap, ◌∙◌, true, none, some, [], ◌∷◌, ◌++◌,
  append_assoc, append-nil, arith, ltb, Bytes, codes, Lacks, starts_with, starts_with-append, find,
  find_byte, length, take, drop, length-append, drop-append_length, take-append_length,
}
use mathlib.Core.Path.{subst}
use corepkgs_v.Store.{
  Store, lookup, store_hash_length, at_is, is_store_hash, is_hashed, mask_loop, mask_hashes,
}
use corepkgs_v.Store.Resolve.{root_name, resolve}

-- Nothing, or a path below a root.
abbrev pub IsBelow : Bytes → Type 0
IsBelow [] = Unit
IsBelow (c ∷ s) = c ≡ b'/'

find_here : (needle s : Bytes) → starts_with s needle ≡ true → find needle s ≡ some ([], s)
unfolding find
find_here needle [] h = rw (h, find) refl
find_here needle (c ∷ s) h = rw (h, find) refl

at_is-append : (p s : Bytes) (c : ℕ) → at_is (p ++ (c ∷ s)) (length p) c ≡ true
at_is-append [] s c = ground arith
at_is-append (d ∷ p) s c = at_is-append p s c

length-store_hash : (hash : Bytes) → is_store_hash hash ≡ true → length hash ≡ store_hash_length
unfolding is_store_hash
length-store_hash hash h = ground arith

long_enough : (n : ℕ) → ltb store_hash_length (store_hash_length + suc n) ≡ true
long_enough n = ground arith

pub is_hashed-append :
    (hash rest : Bytes) → is_store_hash hash ≡ true → is_hashed (hash ++ (b'-' ∷ rest)) ≡ true
unfolding is_hashed
is_hashed-append hash rest h =
    let e = length-store_hash hash h in
    let at : at_is (hash ++ (b'-' ∷ rest)) store_hash_length b'-' ≡ true =
      subst (λ n. at_is (hash ++ (b'-' ∷ rest)) n b'-' ≡ true) e (at_is-append hash rest b'-') in
    let front : take store_hash_length (hash ++ (b'-' ∷ rest)) ≡ hash =
      subst (λ n. take n (hash ++ (b'-' ∷ rest)) ≡ hash) e
        (take-append_length hash (b'-' ∷ rest)) in
    let long : ltb store_hash_length (length (hash ++ (b'-' ∷ rest))) ≡ true =
      subst (λ n. ltb store_hash_length n ≡ true) (sym (length-append hash (b'-' ∷ rest)))
        (subst (λ n. ltb store_hash_length (n + suc (length rest)) ≡ true) (sym e)
          (long_enough (length rest))) in
    simp (is_hashed, at, front, long, h)

mask_loop-none :
    (f : ℕ) (prefix out rest : Bytes)
    → find prefix rest ≡ none
    → mask_loop f prefix out rest ≡ out ++ rest
unfolding mask_loop
mask_loop-none zero prefix out rest h = refl
mask_loop-none (suc f) prefix out rest h = rw (h, mask_loop) refl

module _ (dir hash rest : Bytes) (is_hash : is_store_hash hash ≡ true)
    (last : find (dir ++ codes "/") (b'-' ∷ rest) ≡ none) where
  mask_hashes-root :
      mask_hashes dir ((dir ++ codes "/") ++ (hash ++ (b'-' ∷ rest))) ≡ (dir ++ codes "/*-") ++ rest
  unfolding mask_hashes mask_loop
  mask_hashes-root =
      let prefix = dir ++ codes "/" in
      let tail = hash ++ (b'-' ∷ rest) in
      let behind : drop store_hash_length tail ≡ b'-' ∷ rest =
        subst (λ n. drop n tail ≡ b'-' ∷ rest) (length-store_hash hash is_hash)
          (drop-append_length hash (b'-' ∷ rest)) in
      let first : mask_hashes dir (prefix ++ tail)
          ≡ mask_loop (length (prefix ++ tail)) prefix (prefix ++ b'*' ∷ []) (b'-' ∷ rest) =
        simp (
          mask_hashes,
          mask_loop,
          find_here prefix (prefix ++ tail) (starts_with-append prefix tail),
          drop-append_length prefix tail,
          is_hashed-append hash rest is_hash,
          behind,
        ) in
      first
      ∙ mask_loop-none (length (prefix ++ tail)) prefix (prefix ++ b'*' ∷ []) (b'-' ∷ rest) last
      ∙ simp append_assoc

no_slash : (name : Bytes) → Lacks b'/' name → find_byte b'/' name ≡ none
unfolding find_byte
no_slash [] h = refl
no_slash (c ∷ name) h = ground (arith, no_slash name h.1)

root_name-append :
    (name below : Bytes)
    → Lacks b'/' name
    → IsBelow below
    → root_name (name ++ below) ≡ (name, below)
root_name-append name [] h b = rw append-nil (rw (root_name, no_slash name h) refl)
root_name-append name (c ∷ s) h b =
    subst (λ d. root_name (name ++ (d ∷ s)) ≡ (name, d ∷ s)) (sym b)
      (rw (root_name, find_byte-first b'/' name s h) refl)

module _ (s : Store) (name below real : Bytes) (root : Lacks b'/' name)
    (under : IsBelow below) where
  resolve-masked :
      lookup ((s.dir ++ codes "/*-") ++ name) s.masked_to_real ≡ some real
      → resolve s ((s.dir ++ codes "/*-") ++ (name ++ below)) ≡ some (real ++ below)
  unfolding resolve
  resolve-masked known =
      let prefix = s.dir ++ codes "/*-" in
      let path = prefix ++ (name ++ below) in
      let start : length prefix ≡ length s.dir + 3 = length-append s.dir (codes "/*-") in
      let behind : drop (length s.dir + 3) path ≡ name ++ below =
        subst (λ n. drop n path ≡ name ++ below) start
          (drop-append_length prefix (name ++ below)) in
      let front : take (length s.dir + 3) path ≡ prefix =
        subst (λ n. take n path ≡ prefix) start (take-append_length prefix (name ++ below)) in
      simp (
        resolve,
        starts_with-append prefix (name ++ below),
        behind,
        front,
        root_name-append name below root under,
        known,
      )

  -- A path below a store root, masked in one build, is resolved in another to the path below that
  -- build's root: the hash in the path does not matter. The root's name holds no '/', the rest of
  -- the path is empty or begins with '/' and does not name the store again, and the other build
  -- knows a root under the masked name.
  pub resolve-mask_hashes :
      (hash : Bytes)
      → is_store_hash hash ≡ true
      → find (s.dir ++ codes "/") (b'-' ∷ (name ++ below)) ≡ none
      → lookup ((s.dir ++ codes "/*-") ++ name) s.masked_to_real ≡ some real
      → resolve s (mask_hashes s.dir ((s.dir ++ codes "/") ++ (hash ++ (b'-' ∷ (name ++ below)))))
        ≡ some (real ++ below)
  resolve-mask_hashes hash is_hash last known =
      ap (λ p. resolve s p) (mask_hashes-root s.dir hash (name ++ below) is_hash last)
      ∙ resolve-masked known
