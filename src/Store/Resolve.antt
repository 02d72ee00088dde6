-- ===== src/Store/Resolve.antt =====
-- `Resolve` and `ResolveAll` of pkgs/ji/jig/src/store.cc: masked names back to paths.
use corepkgs_v.Prelude.{
  ℕ, zero, suc, ◌+◌, Bool, false, not, ◌&&◌, Option, none, some, List, [], ◌∷◌, ◌++◌, ◌==◌,
  if◌then◌else◌, Bytes, codes, starts_with, find, find_byte, has, length, take, drop,
}
use corepkgs_v.Store.{Store, lookup, mask_hashes}

-- Up to the next '/', and from there on.
abbrev pub root_name : Bytes → Bytes × Bytes
root_name s = elim (find_byte b'/' s) [ none ↦ (s, []) | some (name, below) ↦ (name, below) ]

-- `Store::Resolve`: the root of a masked path is looked up, its rest kept.
unfoldable pub resolve : Store → Bytes → Option Bytes
unfolding lookup
resolve s path =
    let start = length s.dir + 3 in
    let (name, below) = root_name (drop start path) in
    if starts_with path (s.dir ++ codes "/*-")
    then (elim (lookup (take start path ++ name) s.masked_to_real) [
      | none ↦ none
      | some real ↦ some (real ++ below)
    ])
    else some path

-- `kPathEnds`
abbrev path_ends : Bytes
path_ends = codes " \t\n\\:\"';,)]}>"

-- The inner loop of `ResolveAll`, for one root: a name that goes on behind the match is another root.
unfoldable pub resolve_loop : ℕ → Bytes → Bytes → Bytes → Bytes → Bytes
resolve_loop zero masked real out rest = out ++ rest
resolve_loop (suc f) masked real out rest = elim (find masked rest) [
  | none ↦ out ++ rest
  | some (before, at) ↦
      let tail = drop (length masked) at in
      let other : Bool = elim tail [
        | [] ↦ false
        | c ∷ t ↦ not (c == b'/') && not (has c path_ends)
      ] in
      resolve_loop f masked real (out ++ (before ++ (if other then masked else real))) tail
]

unfoldable pub resolve_each : List (Bytes × Bytes) → Bytes → Bytes
unfolding resolve_loop
resolve_each [] text = text
resolve_each ((masked, real) ∷ m) text =
    resolve_each m (resolve_loop (suc (length text)) masked real [] text)

-- `Store::ResolveAll`
unfoldable pub resolve_all : Store → Bytes → Bytes
unfolding resolve_each mask_hashes
resolve_all s text = resolve_each s.masked_to_real (mask_hashes s.dir text)
