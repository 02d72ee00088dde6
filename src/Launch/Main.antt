-- ===== src/Launch/Main.antt =====
-- `main` of pkgs/la/launch/src/launch.cc, up to the call of execv.
use corepkgs_v.Prelude.{Option, none, some, List, [], ◌∷◌, ◌++◌, Bytes, codes}
use corepkgs_v.FilePath.{append, filename, parent_path}
use corepkgs_v.Launch.{
  Try, done, die, ◌>>=◌, Json, object, Members, no_member, member, lookup, str, Context, expand,
  string_list,
}
use corepkgs_v.Launch.Invoked.{Disk, invoked_path}
use corepkgs_v.Launch.Env.{Env, get_env, apply_env}

-- What execv is called with, and the environment then.
pub record Start : Type 0 where
  pub program : Bytes
  pub argv : List Bytes
  pub env : Env

-- The context of the program that the launcher was started as.
unfoldable pub context_of : Bytes → Bytes → Context
context_of argv0 self =
    let bindir = parent_path self in
    record {
      root = parent_path bindir;
      store = parent_path (parent_path bindir);
      self = self;
      argv0 = argv0;
    }

unfoldable pub record_path : Bytes → Bytes
record_path self = append (parent_path self) (codes "." ++ (filename self ++ codes ".launch"))

-- The parsed record; the outer none is a file that cannot be read, the inner one a text that is no JSON.
unfoldable pub members_of : Bytes → Option (Option Json) → Try Members
members_of path none = die (codes "cannot read record") path
members_of path (some none) = die (codes "bad record") path
members_of path (some (some (object members))) = done members
members_of path (some (some _)) = die (codes "bad record") path

unfoldable pub program_of : Context → Bytes → Members → Try Bytes
program_of ctx path members = elim (lookup (codes "program") members) [
  | none ↦ die (codes "record lacks program") path
  | some value ↦ str value (codes "program") >>= λ text. done (expand ctx text)
]

unfoldable pub argv0_of : Context → Bytes → Members → Try Bytes
argv0_of ctx program members = elim (lookup (codes "argv0") members) [
  | none ↦ done program
  | some value ↦ str value (codes "argv0") >>= λ text. done (expand ctx text)
]

unfoldable pub args_of : Context → Members → Try (List Bytes)
args_of ctx members = elim (lookup (codes "args") members) [
  | none ↦ done []
  | some value ↦ string_list ctx value
]

unfoldable pub apply_entries : Context → Members → Env → Try Env
apply_entries ctx no_member env = done env
apply_entries ctx (member name spec members) env =
    apply_env ctx name spec env >>= apply_entries ctx members

unfoldable pub env_of : Context → Bytes → Members → Env → Try Env
env_of ctx path members env = elim (lookup (codes "env") members) [
  | none ↦ done env
  | some value ↦ elim value [
    | object entries ↦ apply_entries ctx entries env
    | _ ↦ die (codes "env must be an object") path
  ]
]

-- What the record makes of a start, and `Run`: the record's arguments stand before the user's.
unfoldable pub start_of : Context → Bytes → Members → List Bytes → Env → Try Start
start_of ctx path members args env = do
  program ← program_of ctx path members
  argv0 ← argv0_of ctx program members
  pre ← args_of ctx members
  env' ← env_of ctx path members env
  done (record { program = program; argv = argv0 ∷ (pre ++ args); env = env' })

-- `main`
unfoldable pub launch : Disk → (Bytes → Option (Option Json)) → List Bytes → Env → Try Start
launch disk read_record [] env = die (codes "no argv[0]") []
launch disk read_record (argv0 ∷ args) env = do
  self ← invoked_path disk (get_env (codes "PATH") env) argv0
  members ← members_of (record_path self) (read_record (record_path self))
  start_of (context_of argv0 self) (record_path self) members args env
