-- ===== src/Tests/Launch.antt =====
-- pkgs/la/launch/src/launch.cc
use corepkgs_v.Prelude.{
  ◌≡◌, refl, ◌↔◌, Option, none, some, List, [], ◌∷◌, ◌++◌, arith, if◌then◌else◌, Bytes, codes,
  Lacks, equal, starts_with, ends_with, find, has,
}
use corepkgs_v.Launch.{
  Try, done, die, Json, string, array, object, other, Elements, no_element, element, Members,
  no_member, member, Context, expand,
}
use corepkgs_v.Launch.Invoked.{Disk, max_hops, invoked_path, follow}
use corepkgs_v.Launch.Followed.{Reached, follow_lem}
use corepkgs_v.Launch.Expanded.{
  Place, root_place, store_place, self_place, argv0_place, Piece, place, plain, key_of, value_of,
  fill, expand-fill,
}
use corepkgs_v.Launch.Env.{Env, get_env, apply_env}
use corepkgs_v.Launch.Main.{Start, launch}
use corepkgs_v.Launch.Applied.{Launched, launch_lem}
use corepkgs_v.Launch.CommandLine.{append_args, user_args, command_line}
use corepkgs_v.Launch.Quoted.{read_args, read_args-append_args}

-- A profile's link to the package's link to the launcher, and a link to itself.
abbrev links : Disk
links = record {
  cwd = codes "/home";
  executable = λ path. equal path (codes "/p/bin/foo");
  read_symlink = λ path.
      if equal path (codes "/p/bin/foo")
      then some (codes "../../s/1-foo/bin/foo")
      else if equal path (codes "/p/bin/../../s/1-foo/bin/foo")
      then some (codes "../../2-launch/bin/launch")
      else if equal path (codes "/loop")
      then some (codes "loop")
      else none;
  canonical = λ path.
      if equal path (codes "/p/bin/../../s/1-foo/bin")
      then done (codes "/s/1-foo/bin")
      else die (codes "No such file or directory") path;
}

abbrev place_of : Bytes
place_of = codes "/s/1-foo/bin/foo"

found_on_path : invoked_path links (some (codes "/x:/p/bin")) (codes "foo") ≡ done place_of
unfolding invoked_path has corepkgs_v.FilePath.append starts_with ends_with
    corepkgs_v.FilePath.filename corepkgs_v.FilePath.parent_path
    corepkgs_v.Launch.Invoked.name_in_place
found_on_path = refl

not_there :
    invoked_path links none (codes "foo")
    ≡ die (codes "argv[0] has no '/' and PATH is unset") (codes "foo")
unfolding invoked_path has
not_there = refl

loops : invoked_path links none (codes "/loop") ≡ die (codes "symlink loop") (codes "/loop")
unfolding invoked_path has corepkgs_v.FilePath.append starts_with corepkgs_v.FilePath.filename
    corepkgs_v.FilePath.parent_path ends_with
loops = refl

follow_lem_example :
    (follow links (codes "foo") max_hops (codes "/p/bin/foo") ≡ done place_of)
    ↔ Reached links max_hops (codes "/p/bin/foo") place_of
follow_lem_example = follow_lem links (codes "foo") (codes "/p/bin/foo") place_of

reached : Reached links max_hops (codes "/p/bin/foo") place_of
unfolding follow corepkgs_v.FilePath.filename corepkgs_v.FilePath.append starts_with
    corepkgs_v.FilePath.parent_path ends_with corepkgs_v.Launch.Invoked.name_in_place
reached = (follow_lem links (codes "foo") (codes "/p/bin/foo") place_of).0 refl

abbrev ctx : Context
ctx = record { root = codes "/s/1-foo"; store = codes "/s"; self = place_of; argv0 = codes "foo" }

values_safe : (p : Place) → Lacks b'{' (value_of ctx p)
values_safe root_place = omega arith
values_safe store_place = omega arith
values_safe self_place = omega arith
values_safe argv0_place = omega arith

abbrev pieces : List Piece
pieces = plain (codes "--with=") ∷ place root_place ∷ plain (codes ":") ∷ place store_place ∷ []

expand-fill_example : expand ctx (fill key_of pieces) ≡ fill (value_of ctx) pieces
expand-fill_example =
    expand-fill ctx values_safe pieces (omega arith, (tt, (omega arith, (tt, tt))))

expanded_there : expand ctx (codes "--with={root}:{store}") ≡ codes "--with=/s/1-foo:/s"
unfolding expand corepkgs_v.Text.replace_all find starts_with
expanded_there = refl

abbrev entries : Members
entries = member (codes "FOO") (object (member (codes "unset") other no_member)) (
    member (codes "PATH")
      (object (
        member (codes "prepend") (array (element (string (codes "{store}/jq/bin")) no_element))
          (member (codes "sep") (string (codes ":")) no_member)))
      no_member)

abbrev members : Members
members = member (codes "args") (string (codes "{root}/bin/.foo")) (
    member (codes "env") (object entries)
      (member (codes "program") (string (codes "{store}/python3")) no_member))

abbrev read_record : Bytes → Option (Option Json)
read_record path =
    if equal path (codes "/s/1-foo/bin/.foo.launch") then some (some (object members)) else none

abbrev env : Env
env = (codes "FOO", codes "1") ∷ (codes "PATH", codes "/p/bin") ∷ (codes "HOME", codes "/h") ∷ []

abbrev started : Start
started = record {
  program = codes "/s/python3";
  argv = codes "/s/python3" ∷ codes "/s/1-foo/bin/.foo" ∷ codes "-v" ∷ [];
  env = (codes "PATH", codes "/s/jq/bin:/p/bin") ∷ (codes "HOME", codes "/h") ∷ [];
}

starts : launch links read_record (codes "foo" ∷ codes "-v" ∷ []) env ≡ done started
unfolding launch invoked_path has corepkgs_v.Store.lookup corepkgs_v.FilePath.append starts_with
    ends_with corepkgs_v.FilePath.filename corepkgs_v.FilePath.parent_path
    corepkgs_v.Launch.Invoked.name_in_place corepkgs_v.Launch.Main.members_of
    corepkgs_v.Launch.Main.record_path corepkgs_v.Launch.Main.start_of
    corepkgs_v.Launch.Main.program_of corepkgs_v.Launch.lookup corepkgs_v.Launch.str
    corepkgs_v.Launch.Main.argv0_of corepkgs_v.Launch.Main.args_of corepkgs_v.Cc.Replay.remove
    apply_env corepkgs_v.Launch.Env.apply_op corepkgs_v.Launch.Env.apply_ops
    corepkgs_v.Launch.Env.entry_sep corepkgs_v.Launch.Env.set_env corepkgs_v.Launch.Env.set_list
    corepkgs_v.Launch.Env.unset_env corepkgs_v.Launch.Env.with_current
    corepkgs_v.Launch.Invoked.argv0_path corepkgs_v.Launch.Invoked.find_on_path follow
    corepkgs_v.Launch.Invoked.path_entries corepkgs_v.Launch.Main.apply_entries
    corepkgs_v.Launch.Main.context_of corepkgs_v.Launch.Main.env_of expand
    corepkgs_v.Launch.expand_elements corepkgs_v.Launch.join corepkgs_v.Launch.string_list equal
    find corepkgs_v.Store.insert_or_assign corepkgs_v.Text.replace_all corepkgs_v.Text.replace_loop
starts = refl

launch_lem_example : Launched links read_record (codes "foo") (codes "-v" ∷ []) env started
launch_lem_example = launch_lem links read_record (codes "foo") (codes "-v" ∷ []) env started starts

unknown_op :
    apply_env ctx (codes "A") (object (member (codes "push") other no_member)) []
    ≡ die (codes "unknown env op") (codes "push")
unfolding apply_env corepkgs_v.Launch.Env.entry_sep corepkgs_v.Launch.lookup equal
    corepkgs_v.Launch.Env.apply_ops corepkgs_v.Launch.Env.apply_op
unknown_op = refl

appended :
    apply_env ctx
      (codes "A")
      (object (member (codes "append") (string (codes "x")) no_member))
      ((codes "A", codes "y") ∷ [])
    ≡ done ((codes "A", codes "y:x") ∷ [])
unfolding apply_env corepkgs_v.Launch.Env.entry_sep corepkgs_v.Launch.lookup equal
    corepkgs_v.Launch.Env.apply_ops corepkgs_v.Launch.Env.apply_op corepkgs_v.Launch.Env.set_list
    corepkgs_v.Launch.string_list corepkgs_v.Launch.Env.set_env has
    corepkgs_v.Store.insert_or_assign corepkgs_v.Launch.join corepkgs_v.Launch.Env.with_current
    corepkgs_v.Store.lookup corepkgs_v.Text.replace_all find starts_with
appended = refl

abbrev awkward : List Bytes
awkward = codes "a b" ∷ codes "c:\\dir\\" ∷ codes "say \"hi\\\"" ∷ [] ∷ []

read_args-append_args_example :
    read_args 4 (append_args [] awkward ++ codes " rest") ≡ (awkward, codes " rest")
read_args-append_args_example = read_args-append_args awkward (codes " rest") refl

one_command : command_line (codes "a") [] (codes "\"C:\\x y\" -v") ≡ codes "\"a\" -v"
unfolding command_line corepkgs_v.Launch.CommandLine.append_arg
one_command = refl

bare_name : user_args (codes "foo.exe -v") ≡ codes " -v"
unfolding user_args
bare_name = refl
