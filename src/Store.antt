-- ===== src/Store.antt =====
-- pkgs/ji/jig/src/store.cc: the names of store files in cache keys, and the identity of a file.
-- The environment, the file system and BLAKE3 are arguments; `JIG_STORE_DIR` is the field `dir`.
pub mod Resolve
pub mod Identity
pub mod Swapped
pub mod OwnHash
pub mod Maps
pub mod Names
use corepkgs_v.Prelude.{
  ℕ, zero, suc, ◌+◌, ◌-◌, ◌*◌, ◌/◌, ◌%◌, ◌^◌, ◌≤◌, ◌<◌, min, max, ◌≡◌, ◌≢◌, refl, sym, ap, ◌∙◌, ◌⊎◌,
  ◌↔◌, inl, inr, Bool, true, false, not, ◌&&◌, ◌||◌, Option, none, some, List, [], ◌∷◌, ◌++◌, map,
  append_assoc, append-nil, arith, ltb, leb, ◌==◌, if◌then◌else◌, ==_iff, Bool-cases, Option-cases,
  Bytes, codes, Lacks, IsBytes, equal, equal_iff, starts_with, starts_with-append,
  eq_of_starts_with, ends_with, find, find_byte, has, contains, find-append, length, take, drop,
  get_elem?, replicate, any, all, All, All-append, length-append, take-append-drop,
  drop-append_length, take-append_length, length-take, length-drop, length-replicate,
}
use corepkgs_v.Text.{split}
use corepkgs_v.Keys.{hash_of}
use corepkgs_v.FilePath.{lexically_normal}

-- The members of `class Store`. The two maps are association lists, in the order of iteration.
pub record Store : Type 0 where
  pub dir : Bytes
  pub by_content : Bool
  pub out : Bytes
  pub out_hash : Bytes
  pub masked_to_real : List (Bytes × Bytes)
  pub known_ids : List (Bytes × Bytes)

-- `find` of a map
unfoldable pub lookup : Bytes → List (Bytes × Bytes) → Option Bytes
lookup k [] = none
lookup k ((j, v) ∷ m) = if equal j k then some v else lookup k m

-- `emplace` keeps an entry that is there.
unfoldable pub emplace : Bytes → Bytes → List (Bytes × Bytes) → List (Bytes × Bytes)
emplace k v [] = (k, v) ∷ []
emplace k v ((j, w) ∷ m) = if equal j k then (j, w) ∷ m else (j, w) ∷ emplace k v m

-- `insert_or_assign`
unfoldable pub insert_or_assign : Bytes → Bytes → List (Bytes × Bytes) → List (Bytes × Bytes)
insert_or_assign k v [] = (k, v) ∷ []
insert_or_assign k v ((j, w) ∷ m) =
    if equal j k then (j, v) ∷ m else (j, w) ∷ insert_or_assign k v m

abbrev pub store_hash_length : ℕ
store_hash_length = 32

-- `path.at(i) == c`, false past the end (the source tests the size first)
abbrev pub at_is : Bytes → ℕ → ℕ → Bool
at_is s i c = elim (get_elem? s i) [ none ↦ false | some d ↦ d == c ]

-- `Store::IsStorePath` on the store's directory
unfoldable pub is_store_path : Bytes → Bytes → Bool
is_store_path dir path =
    ltb (length dir) (length path) && starts_with path dir && at_is path (length dir) b'/'

-- The digits of nix base32
abbrev pub hash_digits : Bytes
hash_digits = codes "0123456789abcdfghijklmnpqrsvwxyz"

-- `IsStoreHash`
unfoldable pub is_store_hash : Bytes → Bool
unfolding has
is_store_hash text = length text == store_hash_length && all (λ c. has c hash_digits) text

-- The test inside `MaskHashes`, on the text behind the store's prefix
unfoldable pub is_hashed : Bytes → Bool
unfolding is_store_hash
is_hashed tail =
    ltb store_hash_length (length tail)
    && at_is tail store_hash_length b'-'
    && is_store_hash (take store_hash_length tail)

-- A round of `MaskHashes`: the text is `out` up to `pos`. The next search begins one byte behind the
-- prefix.
unfoldable pub mask_loop : ℕ → Bytes → Bytes → Bytes → Bytes
unfolding is_hashed
mask_loop zero prefix out rest = out ++ rest
mask_loop (suc f) prefix out rest = elim (find prefix rest) [
  | none ↦ out ++ rest
  | some (before, at) ↦
      let tail = drop (length prefix) at in
      let tail' = if is_hashed tail then b'*' ∷ drop store_hash_length tail else tail in
      mask_loop f prefix (out ++ (before ++ (prefix ++ take 1 tail'))) (drop 1 tail')
]

-- `Store::MaskHashes`: each round moves past a prefix, so the length is fuel enough.
unfoldable pub mask_hashes : Bytes → Bytes → Bytes
unfolding mask_loop
mask_hashes dir text = mask_loop (suc (length text)) (dir ++ b'/' ∷ []) [] text

-- `kOutPlaceholder`
abbrev pub out_placeholder : Bytes
out_placeholder = replicate store_hash_length b'e'

-- The loop of `SwapOutHash`: the position moves on by the size of `from`.
unfoldable pub swap_loop : ℕ → Bytes → Bytes → Bytes → Bytes → Bytes
swap_loop zero from into out rest = out ++ rest
swap_loop (suc f) from into out rest = elim (find from rest) [
  | none ↦ out ++ rest
  | some (before, at) ↦
      let changed = into ++ drop (length from) at in
      swap_loop f from into (out ++ (before ++ take (length from) changed))
        (drop (length from) changed)
]

-- "<store>/<hash>-"
abbrev pub own_prefix : Bytes → Bytes → Bytes
own_prefix dir hash = dir ++ (b'/' ∷ (hash ++ b'-' ∷ []))

-- `Store::SwapOutHash`
unfoldable pub swap_out_hash : Store → Bytes → Bool → Bytes
unfolding swap_loop
swap_out_hash s bytes back =
    let real = own_prefix s.dir s.out_hash in
    let placeholder = own_prefix s.dir out_placeholder in
    let from = if back then placeholder else real in
    let into = if back then real else placeholder in
    elim s.out_hash [ [] ↦ bytes | c ∷ h ↦ swap_loop (suc (length bytes)) from into [] bytes ]

-- `Store::MaskOut` and `Store::UnmaskOut`
unfoldable pub mask_out : Store → Bytes → Bytes
unfolding swap_out_hash
mask_out s bytes = swap_out_hash s bytes false

unfoldable pub unmask_out : Store → Bytes → Bytes
unfolding swap_out_hash
unmask_out s bytes = swap_out_hash s bytes true

-- `std::isalnum` in the C locale
abbrev is_alnum : ℕ → Bool
is_alnum c = (leb b'0' c && leb c b'9') || (leb b'A' c && leb c b'Z') || (leb b'a' c && leb c b'z')

-- The loop of `MaskRandomNames` for one pattern: it ends where the name would pass the end.
unfoldable pub random_loop : ℕ → Bytes → ℕ → Bytes → Bytes → Bytes
random_loop zero prefix width out rest = out ++ rest
random_loop (suc f) prefix width out rest = elim (find prefix rest) [
  | none ↦ out ++ rest
  | some (before, at) ↦
      let tail = drop (length prefix) at in
      let tail' =
        if all is_alnum (take width tail) then replicate width b'#' ++ drop width tail else tail in
      let more = random_loop f prefix width (out ++ (before ++ prefix)) tail' in
      if ltb (length tail) width then out ++ rest else more
]

-- `MaskRandomNames`
unfoldable pub mask_random_names : Bytes → Bytes
unfolding random_loop find starts_with
mask_random_names text =
    let once = random_loop (suc (length text)) (codes "TryCompile-") 6 [] text in
    random_loop (suc (length once)) (codes "cmTC_") 5 [] once

-- The path that an argument ends in, normalised. `start` is where the path begins.
unfoldable pub normal_from : Bytes → ℕ → Bytes
unfolding lexically_normal
normal_from arg start =
    let value = drop start arg in
    let normal = lexically_normal value in
    let cut =
      if ltb 1 (length normal) && ends_with normal (codes "/")
      then take (length normal - 1) normal
      else normal in
    let full : Bytes = elim cut [ [] ↦ codes "." | c ∷ t ↦ c ∷ t ] in
    if not (has b'/' value) && not (starts_with value (codes "."))
    then arg
    else take start arg ++ full

-- The place behind the first '=' of an option, if there is one and no '/' before it.
abbrev glued_start : Bytes → ℕ
glued_start arg = elim (find_byte b'=' arg) [
  | none ↦ 2
  | some (before, at) ↦ if has b'/' before then 2 else length before + 1
]

-- `NormalizePathArg`
unfoldable pub normalize_path_arg : Bytes → Bytes
unfolding normal_from
normalize_path_arg arg =
    if starts_with arg (codes "-D") || starts_with arg (codes "-U")
    then arg
    else if starts_with arg (codes "--")
    then (elim (find_byte b'=' arg) [
      | none ↦ arg
      | some (before, at) ↦ normal_from arg (length before + 1)
    ])
    else if starts_with arg (codes "-") && ltb 2 (length arg) && not (at_is arg 1 b'-')
    then normal_from arg (glued_start arg)
    else if starts_with arg (codes "-")
    then arg
    else normal_from arg 0

-- `Store::Key`
unfoldable pub key : Store → Bytes → Bytes
unfolding normalize_path_arg mask_random_names mask_hashes
key s arg =
    let spelled = mask_random_names (normalize_path_arg arg) in
    if s.by_content then mask_hashes s.dir spelled else spelled

-- `Store::MaskForReplay`
unfoldable pub mask_for_replay : Store → Bytes → Bytes
mask_for_replay s text = if s.by_content then mask_hashes s.dir text else text
