-- ===== src/Launch/Env.antt =====
-- `GetEnv`, `SetEnv`, `UnsetEnv` and `ApplyEnv` of pkgs/la/launch/src/launch.cc, on POSIX.
use corepkgs_v.Prelude.{
  Bool, true, false, ◌||◌, Option, none, some, List, [], ◌∷◌, ◌++◌, if◌then◌else◌, Bytes, codes,
  equal, has,
}
use corepkgs_v.Store.{insert_or_assign}
use corepkgs_v.Store
use corepkgs_v.Cc.Replay.{remove}
use corepkgs_v.Launch.{
  Try, done, die, ◌>>=◌, Json, object, Members, no_member, member, lookup, str, Context,
  string_list, join,
}

abbrev pub Env : Type 0
Env = List (Bytes × Bytes)

-- `GetEnv`
abbrev pub get_env : Bytes → Env → Option Bytes
get_env name env = Store.lookup name env

-- `SetEnv`: setenv refuses an empty name and one with a '='.
unfoldable pub set_env : Bytes → Bytes → Env → Try Env
unfolding equal
set_env name value env =
    if equal name [] || has b'=' name
    then die (codes "Invalid argument") name
    else done (insert_or_assign name value env)

-- `UnsetEnv`
unfoldable pub unset_env : Bytes → Env → Env
unset_env name env = remove name env

-- `kPathSep`
abbrev pub path_sep : Bytes
path_sep = codes ":"

-- The value that `prepend` or `append` joins, which one that is set and not empty is part of.
unfoldable pub with_current : Bool → Option Bytes → List Bytes → List Bytes
with_current prepends none parts = parts
with_current prepends (some []) parts = parts
with_current prepends (some (c ∷ cur)) parts =
    if prepends then parts ++ (c ∷ cur) ∷ [] else (c ∷ cur) ∷ parts

module _ (ctx : Context) (name sep : Bytes) where
  -- `SetEnv(name, Join(..., sep))` of a list of the record.
  unfoldable pub set_list : (List Bytes → List Bytes) → Json → Env → Try Env
  set_list change value env =
      string_list ctx value >>= λ parts. set_env name (join sep (change parts)) env

  -- The loop body of `ApplyEnv`.
  unfoldable pub apply_op : Bytes → Json → Env → Try Env
  unfolding equal
  apply_op oper value env =
      let cur = get_env name env in
      let default : Try Env = elim cur [
        | none ↦ set_list (λ parts. parts) value env
        | some v ↦ done env
      ] in
      if equal oper (codes "sep")
      then done env
      else if equal oper (codes "unset")
      then done (unset_env name env)
      else if equal oper (codes "set")
      then set_list (λ parts. parts) value env
      else if equal oper (codes "default")
      then default
      else if equal oper (codes "prepend")
      then set_list (with_current true cur) value env
      else if equal oper (codes "append")
      then set_list (with_current false cur) value env
      else die (codes "unknown env op") oper

  unfoldable pub apply_ops : Members → Env → Try Env
  apply_ops no_member env = done env
  apply_ops (member oper value members) env = apply_op oper value env >>= apply_ops members

-- The separator of an entry.
unfoldable pub entry_sep : Members → Try Bytes
entry_sep members = elim (lookup (codes "sep") members) [
  | none ↦ done path_sep
  | some value ↦ str value (codes "sep")
]

-- `ApplyEnv`
unfoldable pub apply_env : Context → Bytes → Json → Env → Try Env
apply_env ctx name (object members) env =
    entry_sep members >>= λ sep. apply_ops ctx name sep members env
apply_env ctx name _ env = die (codes "env entry must be an object") name
