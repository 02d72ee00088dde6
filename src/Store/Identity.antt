-- ===== src/Store/Identity.antt =====
-- The identity of an input and the constructor of `class Store`, in pkgs/ji/jig/src/store.cc.
use corepkgs_v.Prelude.{
  ◌+◌, Bool, false, not, ◌&&◌, ◌||◌, Option, none, some, List, [], ◌∷◌, ◌++◌, ltb, ◌==◌,
  if◌then◌else◌, Bytes, codes, equal, starts_with, find_byte, length, take, drop,
}
use corepkgs_v.Text.{split}
use corepkgs_v.Keys.{hash_of}
use corepkgs_v.Store.{
  Store, lookup, emplace, insert_or_assign, store_hash_length, at_is, is_store_path, mask_hashes,
  mask_out,
}

-- `Store::DaemonMayIdentify`
unfoldable pub daemon_may_identify : Store → Bytes → Bool
unfolding is_store_path
daemon_may_identify s path =
    let under_out : Bool = elim s.out [
      | [] ↦ false
      | c ∷ o ↦
          starts_with path s.out && (length path == length s.out || at_is path (length s.out) b'/')
    ] in
    s.by_content && is_store_path s.dir path && not under_out

-- `Store::RememberIdentity`
unfoldable pub remember_identity : Store → Bytes → Bytes → Store
unfolding insert_or_assign
remember_identity s path identity = record s {
  known_ids = insert_or_assign path identity s.known_ids;
}

-- `Store::InputId`, given what `ReadFile` answers.
unfoldable pub input_id : (Bytes → Bytes) → (Bytes → Option Bytes) → Store → Bytes → Option Bytes
unfolding is_store_path lookup mask_out
input_id blake3 read_file s path =
    let content : Option Bytes = elim (read_file path) [
      | none ↦ none
      | some text ↦ some (
          codes "C:" ++ hash_of blake3 (if is_store_path s.dir path then text else mask_out s text))
    ] in
    if is_store_path s.dir path && not s.by_content
    then some (codes "S:" ++ path)
    else elim (lookup path s.known_ids) [ some known ↦ some known | none ↦ content ]

-- A root of `JIG_STORE_ROOTS` is cut behind its "<hash>-<name>".
abbrev cut_root : Bytes → Bytes → Bytes
cut_root dir root =
    let start = length dir + 1 in
    elim (find_byte b'/' (drop start root)) [
      | none ↦ root
      | some (name, below) ↦ take start root ++ name
    ]

unfoldable pub add_roots : Bytes → List Bytes → List (Bytes × Bytes) → List (Bytes × Bytes)
unfolding mask_hashes emplace
add_roots dir [] m = m
add_roots dir (root ∷ roots) m =
    let cut = cut_root dir root in
    let masked = mask_hashes dir cut in
    add_roots dir roots (if equal masked cut then m else emplace masked cut m)

-- The constructor, from `JIG_STORE_DIR` and the three variables that it reads.
unfoldable pub make_store : Bytes → Bytes → Bytes → Bytes → Store
unfolding is_store_path add_roots
make_store dir identity out store_roots =
    let by_content = equal identity (codes "content") in
    let start = length dir + 1 in
    let own =
      is_store_path dir out
      && ltb (start + store_hash_length) (length out)
      && at_is out (start + store_hash_length) b'-' in
    record {
      dir = dir;
      by_content = by_content;
      out = out;
      out_hash = if by_content && own then take store_hash_length (drop start out) else [];
      masked_to_real =
          if by_content then add_roots dir (split store_roots b' ' false ++ out ∷ []) [] else [];
      known_ids = [];
    }
