-- ===== src/Launch/Applied.antt =====
-- What `main` of pkgs/la/launch/src/launch.cc keeps of the environment and of the arguments.
use corepkgs_v.Prelude.{
  ◌≡◌, refl, sym, ap, ◌∙◌, inl, inr, Bool, true, false, ◌||◌, Option, none, some, List, [], ◌∷◌,
  ◌++◌, arith, if◌then◌else◌, Bool-cases, or_false, Bytes, codes, equal, has,
}
use corepkgs_v.Store
use corepkgs_v.Store.{insert_or_assign}
use corepkgs_v.Store.Maps.{equal_to, lookup-insert_or_assign_other}
use corepkgs_v.Cc.Replay.{remove}
use corepkgs_v.Launch.{
  Try, done, die, ◌>>=◌, Json, string, array, object, other, Members, no_member, member, lookup,
  Context, string_list, join,
}
use corepkgs_v.Launch.Invoked.{Disk, invoked_path}
use corepkgs_v.Launch.Env.{
  Env, get_env, set_env, unset_env, set_list, apply_op, apply_ops, entry_sep, apply_env,
}
use corepkgs_v.Launch.Main.{
  Start, context_of, record_path, members_of, program_of, argv0_of, args_of, apply_entries, env_of,
  start_of, launch,
}

done-inj {ℓ} : {A : Type ℓ} {a b : A} → done a ≡ done b → a ≡ b
done-inj e = ground arith

-- A chain that is done went through each of its parts.
bind_done {ℓ κ} :
    {A : Type ℓ} {B : Type κ} (t : Try A) (f : A → Try B) {b : B}
    → (t >>= f) ≡ done b
    → (a : A) × (t ≡ done a) × (f a ≡ done b)
bind_done (done a) f h = (a, refl, h)
bind_done (die what arg) f h = cc h

lookup-remove :
    (var name : Bytes) (env : Env)
    → equal name var ≡ false
    → Store.lookup var (remove name env) ≡ Store.lookup var env
unfolding remove Store.lookup
lookup-remove var name [] h = refl
lookup-remove var name ((n, value) ∷ env) h = elim (Bool-cases (equal n name)) [
  | inl e ↦ rw (e, remove, equal_to n name var e, h) (lookup-remove var name env h)
  | inr e ↦
      rw (e, remove)
        (elim (Bool-cases (equal n var)) [
          | inl e' ↦ rw (Store.lookup, e') refl
          | inr e' ↦ rw (Store.lookup, e') (lookup-remove var name env h)
        ])
]

-- Whether an entry of a record is about a variable.
abbrev pub is_named : Bytes → Members → Bool
is_named var no_member = false
is_named var (member name spec members) = equal name var || is_named var members

abbrev pub changes : Bytes → Members → Bool
changes var members = elim (lookup (codes "env") members) [
  | none ↦ false
  | some value ↦ elim value [ object entries ↦ is_named var entries | _ ↦ false ]
]

module _ (var : Bytes) where
  -- If this is done, the variable is what it was.
  abbrev Keeps : Env → Try Env → Type 0
  Keeps env r = (after : Env) → r ≡ done after → get_env var after ≡ get_env var env

  Keeps-done : (env : Env) → Keeps env (done env)
  Keeps-done env after e = ap (get_env var) (sym (done-inj e))

  Keeps-if :
      (env : Env) (b : Bool) (r s : Try Env)
      → Keeps env r
      → Keeps env s
      → Keeps env (if b then r else s)
  Keeps-if env true r s hr hs = hr
  Keeps-if env false r s hr hs = hs

  Keeps-option :
      (env : Env) (o : Option Bytes) (r s : Try Env)
      → Keeps env r
      → Keeps env s
      → Keeps env (elim o [ none ↦ r | some v ↦ s ])
  Keeps-option env none r s hr hs = hr
  Keeps-option env (some v) r s hr hs = hs

  module _ (ctx : Context) (name sep : Bytes) (apart : equal name var ≡ false) where
    set_env-Keeps : (value : Bytes) (env : Env) → Keeps env (set_env name value env)
    unfolding set_env
    set_env-Keeps value env =
        Keeps-if env (equal name [] || has b'=' name) _ _ (λ after e. cc e)
          (λ after e.
            ap (get_env var) (sym (done-inj e))
            ∙ lookup-insert_or_assign_other var name value env apart)

    set_list-Keeps :
        (change : List Bytes → List Bytes) (value : Json) (env : Env)
        → Keeps env (set_list ctx name sep change value env)
    unfolding set_list
    set_list-Keeps change value env after e =
        let (parts, _, set) = bind_done (string_list ctx value) _ e in
        set_env-Keeps (join sep (change parts)) env after set

    apply_op-Keeps :
        (oper : Bytes) (value : Json) (env : Env) → Keeps env (apply_op ctx name sep oper value env)
    unfolding apply_op unset_env
    apply_op-Keeps oper value env = Keeps-if env (equal oper (codes "sep")) _ _ (Keeps-done env) (
        Keeps-if env (equal oper (codes "unset")) _ _
          (λ after e. ap (get_env var) (sym (done-inj e)) ∙ lookup-remove var name env apart)
          (Keeps-if env (equal oper (codes "set")) _ _ (set_list-Keeps (λ p. p) value env) (
            Keeps-if env (equal oper (codes "default")) _ _
              (Keeps-option env (get_env name env) _ _ (set_list-Keeps (λ p. p) value env)
                (Keeps-done env))
              (Keeps-if env (equal oper (codes "prepend")) _ _ (set_list-Keeps _ value env) (
                Keeps-if env (equal oper (codes "append")) _ _ (set_list-Keeps _ value env)
                  (λ after e. cc e))))))

    apply_ops-Keeps :
        (members : Members) (env : Env) → Keeps env (apply_ops ctx name sep members env)
    unfolding apply_ops
    apply_ops-Keeps no_member env after e = Keeps-done env after e
    apply_ops-Keeps (member oper value members) env after e =
        let (between, applied, rest) =
          bind_done (apply_op ctx name sep oper value env) (apply_ops ctx name sep members) e in
        apply_ops-Keeps members between after rest ∙ apply_op-Keeps oper value env between applied

  module _ (ctx : Context) where
    apply_env-Keeps :
        (name : Bytes) (spec : Json) (env : Env)
        → equal name var ≡ false
        → Keeps env (apply_env ctx name spec env)
    unfolding apply_env
    apply_env-Keeps name (object members) env apart after e =
        let (sep, _, applied) = bind_done (entry_sep members) _ e in
        apply_ops-Keeps ctx name sep apart members env after applied
    apply_env-Keeps name (string text) env apart after e = cc e
    apply_env-Keeps name (array elements) env apart after e = cc e
    apply_env-Keeps name other env apart after e = cc e

    apply_entries-Keeps :
        (members : Members) (env : Env)
        → is_named var members ≡ false
        → Keeps env (apply_entries ctx members env)
    unfolding apply_entries
    apply_entries-Keeps no_member env h after e = Keeps-done env after e
    apply_entries-Keeps (member name spec members) env h after e =
        let (apart, others) = or_false (equal name var) (is_named var members) h in
        let (between, applied, rest) =
          bind_done (apply_env ctx name spec env) (apply_entries ctx members) e in
        apply_entries-Keeps members between others after rest
        ∙ apply_env-Keeps name spec env apart between applied

    env_of-Keeps :
        (path : Bytes) (members : Members) (env : Env)
        → changes var members ≡ false
        → Keeps env (env_of ctx path members env)
    unfolding env_of
    env_of-Keeps path members env h = go (lookup (codes "env") members) h
      where
        go :
            (found : Option Json)
            → (elim found [
              | none ↦ false
              | some value ↦ elim value [ object entries ↦ is_named var entries | _ ↦ false ]
            ])
              ≡ false
            → Keeps env (elim found [
              | none ↦ done env
              | some value ↦ elim value [
                | object entries ↦ apply_entries ctx entries env
                | _ ↦ die (codes "env must be an object") path
              ]
            ])
        go none h = Keeps-done env
        go (some (object entries)) h = apply_entries-Keeps entries env h
        go (some (string text)) h = λ after e. cc e
        go (some (array elements)) h = λ after e. cc e
        go (some other) h = λ after e. cc e

-- A start that the launcher makes, and what it stands on.
pub record Launched (disk : Disk) (read_record : Bytes → Option (Option Json)) (argv0 : Bytes)
    (args : List Bytes) (env : Env) (s : Start) : Type 0 where
  pub self : Bytes
  pub members : Members
  pub pre : List Bytes
  pub first : Bytes
  pub found : invoked_path disk (get_env (codes "PATH") env) argv0 ≡ done self
  pub described : members_of (record_path self) (read_record (record_path self)) ≡ done members
  pub program : program_of (context_of argv0 self) (record_path self) members ≡ done s.program
  pub argv : s.argv ≡ first ∷ (pre ++ args)
  pub given : args_of (context_of argv0 self) members ≡ done pre
  pub keeps : (var : Bytes) → changes var members ≡ false → get_env var s.env ≡ get_env var env

-- A start that the launcher makes runs the program of the record that lies beside the link it was
-- called by. The user's arguments are passed on in order, behind the record's. A variable that no entry
-- of the record is about is as it was.
pub launch_lem :
    (disk : Disk) (read_record : Bytes → Option (Option Json)) (argv0 : Bytes) (args : List Bytes)
    (env : Env) (s : Start)
    → launch disk read_record (argv0 ∷ args) env ≡ done s
    → Launched disk read_record argv0 args env s
unfolding launch start_of
launch_lem disk read_record argv0 args env s h =
    let (self, found, h1) = bind_done (invoked_path disk (get_env (codes "PATH") env) argv0) _ h in
    let path = record_path self in
    let ctx = context_of argv0 self in
    let (members, described, h2) = bind_done (members_of path (read_record path)) _ h1 in
    let (program, is_program, h3) = bind_done (program_of ctx path members) _ h2 in
    let (first, is_first, h4) = bind_done (argv0_of ctx program members) _ h3 in
    let (pre, given, h5) = bind_done (args_of ctx members) _ h4 in
    let (after, applied, h6) = bind_done (env_of ctx path members env) _ h5 in
    let same = done-inj h6 in
    record {
      self = self;
      members = members;
      pre = pre;
      first = first;
      found = found;
      described = described;
      program = is_program ∙ ap (λ r. done r.program) same;
      argv = sym (ap (λ r. r.argv) same);
      given = given;
      keeps = λ var h.
          sym (ap (λ r. get_env var r.env) same)
          ∙ env_of-Keeps var ctx path members env h after applied;
    }
