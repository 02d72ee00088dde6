-- ===== src/DirMode.antt =====
-- pkgs/ji/jig/src/dir_mode.cc: the snapshot of a directory. Files, links and the daemon's answers are
-- arguments.
pub mod Listing
use corepkgs_v.Prelude.{
  ℕ, zero, suc, ◌+◌, ◌-◌, ◌*◌, ◌/◌, ◌%◌, ◌^◌, ◌≤◌, ◌<◌, min, max, ◌≡◌, ◌≢◌, refl, sym, ap, ◌∙◌, ◌⊎◌,
  ◌↔◌, inl, inr, Bool, true, false, not, ◌&&◌, ◌||◌, Option, none, some, List, [], ◌∷◌, ◌++◌, map,
  append_assoc, append-nil, arith, ltb, leb, ◌==◌, if◌then◌else◌, ==_iff, Bool-cases, Option-cases,
  Bytes, codes, Lacks, IsBytes, equal, equal_iff, starts_with, starts_with-append,
  eq_of_starts_with, ends_with, find, find_byte, has, contains, find-append, length, take, drop,
  get_elem?, replicate, any, all, All, All-append, length-append, take-append-drop,
  drop-append_length, take-append_length, length-take, length-drop, length-replicate,
}
use corepkgs_v.Text.{split, split_whitespace, parse_uint, print_uint}
use corepkgs_v.FilePath.{append}
use corepkgs_v.Keys.{hash_of}
use corepkgs_v.Store.{Store, mask_hashes, insert_or_assign}
use corepkgs_v.Store.Resolve.{resolve_all}

-- `BlobKey`
unfoldable pub blob_key : Bytes → Bytes
blob_key hash_hex = codes "b/" ++ hash_hex

-- `struct Entry`
pub record DirEntry : Type 0 where
  pub kind : ℕ
  pub mode : ℕ
  pub ref : Bytes
  pub rel : Bytes

abbrev pub default_mode : ℕ
default_mode = 420

-- The permissions in a listing, in 32 bits.
unfoldable pub parse_mode : Bytes → ℕ
unfolding parse_uint
parse_mode text = elim (parse_uint 8 text) [ none ↦ default_mode | some n ↦ n % 2 ^ 32 ]

unfoldable pub entry_of : List Bytes → Bytes → Option DirEntry
unfolding parse_mode
entry_of ((kind ∷ more) ∷ mode ∷ ref ∷ []) rel =
    some (record { kind = kind; mode = parse_mode mode; ref = ref; rel = rel })
entry_of _ rel = none

-- A line of `ParseListing`
unfoldable pub parse_entry : Bytes → Option DirEntry
unfolding find_byte split_whitespace entry_of
parse_entry line = elim (find_byte b'\t' line) [
  | none ↦ none
  | some (front, at) ↦ entry_of (split_whitespace front) (drop 1 at)
]

unfoldable pub parse_entries : List Bytes → List DirEntry
parse_entries [] = []
parse_entries (line ∷ lines) = elim (parse_entry line) [
  | none ↦ parse_entries lines
  | some e ↦ e ∷ parse_entries lines
]

-- `ParseListing`
unfoldable pub parse_listing : Bytes → List DirEntry
parse_listing text = parse_entries (split text b'\n' false)

abbrev pub is_text : Bytes → Bool
is_text content = not (has 0 content)

-- `Stored` and `Restored`
unfoldable pub stored : Store → Bytes → Bytes
unfolding mask_hashes has
stored s content = if is_text content then mask_hashes s.dir content else content

unfoldable pub restored : Store → Bytes → Bytes
unfolding resolve_all has
restored s content = if is_text content then resolve_all s content else content

-- What the directory iterator of `PutDir` meets, with the path below the root.
pub data Found : Type 0 where
  symlink : Bytes → Bytes → Found
  unreadable : Bytes → Found
  regular : ℕ → Bytes → Bytes → Found

-- The line that `PutDir` adds for it: the target of a link, or the mode and the content of a file.
unfoldable pub listing_line : (Bytes → Bytes) → Store → Found → Bytes
listing_line blake3 s (symlink target rel) =
    codes "l 0 " ++ (target ++ (b'\t' ∷ (rel ++ b'\n' ∷ [])))
listing_line blake3 s (unreadable rel) = []
listing_line blake3 s (regular mode content rel) =
    codes "f "
    ++ (print_uint 8 (mode % 512)
        ++ (b' ' ∷ (hash_of blake3 (stored s content) ++ (b'\t' ∷ (rel ++ b'\n' ∷ [])))))

-- The listing of `PutDir`
unfoldable pub listing_of : (Bytes → Bytes) → Store → List Found → Bytes
listing_of blake3 s [] = []
listing_of blake3 s (found ∷ rest) = listing_line blake3 s found ++ listing_of blake3 s rest

-- The tree that `GetDir` writes.
pub record Tree : Type 0 where
  pub links : List (Bytes × Bytes)
  pub files : List (Bytes × Bytes)
  pub modes : List (Bytes × ℕ)

abbrev pub dest_of : Bytes → DirEntry → Bytes
dest_of root e = append root e.rel

-- The first loop of `GetDir`, with the paths written.
unfoldable pub restore_links : Bytes → List DirEntry → Tree → List Bytes → Tree × List Bytes
unfolding insert_or_assign
restore_links root [] t paths = (t, paths)
restore_links root (e ∷ es) t paths =
    let linked = record t { links = insert_or_assign (dest_of root e) e.ref t.links } in
    restore_links root es (if e.kind == b'l' then linked else t)
      (if e.kind == b'l' then paths ++ dest_of root e ∷ [] else paths)

-- The second loop, with the number of blobs that are missing or could not be written.
unfoldable pub restore_files :
    Store
    → (Bytes → Option Bytes)
    → (Bytes → Bool)
    → Bytes
    → List DirEntry
    → Tree
    → List Bytes
    → ℕ
    → Tree × List Bytes × ℕ
unfolding restored blob_key insert_or_assign
restore_files s blobs can_write root [] t paths missing = (t, paths, missing)
restore_files s blobs can_write root (e ∷ es) t paths missing =
    let dest = dest_of root e in
    let skip = restore_files s blobs can_write root es t paths in
    elim (if e.kind == b'f' then some (blobs (blob_key e.ref)) else none) [
      | none ↦ skip missing
      | some none ↦ skip (missing + 1)
      | some (some blob) ↦
          if can_write dest
          then restore_files s blobs can_write root es
              (record t {
                files = insert_or_assign dest (restored s blob) t.files;
                modes = (dest, e.mode) ∷ t.modes;
              })
              (paths ++ dest ∷ []) missing
          else skip (missing + 1)
    ]

-- `GetDir` behind its Connect: the exit status, the tree, and the paths that it removes again.
unfoldable pub get_dir :
    Store
    → (Bytes → Option Bytes)
    → (Bytes → Bool)
    → Option Bytes
    → Bytes
    → Tree
    → ℕ × Tree × List Bytes
unfolding parse_listing restore_links restore_files
get_dir s blobs can_write none root t = (1, t, [])
get_dir s blobs can_write (some listing) root t =
    let entries = parse_listing listing in
    let (linked, link_paths) = restore_links root entries t [] in
    let (after, paths, missing) =
      restore_files s blobs can_write root entries linked link_paths 0 in
    if missing == 0 then (0, after, []) else (1, after, paths)
