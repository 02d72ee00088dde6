-- ===== src/Driver/Build.antt =====
-- `BuildDriverArgs` of pkgs/ji/jig/src/driver.cc, and the helpers on its configuration.
use corepkgs_v.Prelude.{
  ℕ, zero, suc, ◌-◌, Bool, true, false, not, ◌&&◌, ◌||◌, none, some, List, [], ◌∷◌, ◌++◌, map, ltb,
  ◌==◌, if◌then◌else◌, Bytes, codes, starts_with, find, find_byte, length, drop, get_elem?,
}
use corepkgs_v.Text.{split}
use corepkgs_v.Driver.Args.{is_fortify_arg, BinFmt, k_elf, UserArgs, scan_user_args}
use corepkgs_v.Driver.Link.{DriverConf, policy_link, policy_libs}

-- The lambda `expand` of `ParseDriverConf`: "@/" in front, behind '=' or behind a short option.
unfoldable pub expand : Bytes → Bytes → Bytes
unfolding find starts_with
expand root flag = elim (find (codes "@/") flag) [
  | none ↦ flag
  | some (before, at) ↦
      let pos = length before in
      let behind_equals : Bool = elim (get_elem? flag (pos - 1)) [
        | none ↦ false
        | some c ↦ c == b'='
      ] in
      if pos == 0 || (pos == 2 && starts_with flag (codes "-")) || (ltb 0 pos && behind_equals)
      then before ++ (root ++ drop 1 at)
      else flag
]

abbrev pub library_dir : Bytes → Bytes
library_dir flag =
    if starts_with flag (codes "-L") && ltb 2 (length flag) then b':' ∷ drop 2 flag else []

-- The first loop of `WithPackageLibDirs`.
unfoldable pub extra_dirs : List Bytes → Bytes
extra_dirs [] = []
extra_dirs (flag ∷ flags) = library_dir flag ++ extra_dirs flags

abbrev pub search_line : Bytes → Bytes → Bytes
search_line extra line =
    line ++ ((if starts_with line (codes "libraries:") then extra else []) ++ b'\n' ∷ [])

-- The second loop: a line each round, the last one with or without its newline.
unfoldable pub lines_loop : ℕ → Bytes → Bytes → Bytes → Bytes
unfolding find_byte
lines_loop zero extra out rest = out
lines_loop (suc f) extra out [] = out
lines_loop (suc f) extra out (c ∷ rest) = elim (find_byte b'\n' (c ∷ rest)) [
  | none ↦ out ++ search_line extra (c ∷ rest)
  | some (line, at) ↦ lines_loop f extra (out ++ search_line extra line) (drop 1 at)
]

-- `WithPackageLibDirs`
unfoldable pub with_package_lib_dirs : Bytes → List Bytes → Bytes
unfolding lines_loop extra_dirs
with_package_lib_dirs search_dirs ldflags =
    lines_loop (length search_dirs) (extra_dirs ldflags) [] search_dirs

pub data Language : Type 0 where
  k_c k_cxx k_fortran : Language

abbrev pub is_cxx : Language → Bool
is_cxx k_cxx = true
is_cxx _ = false

abbrev pub is_fortran : Language → Bool
is_fortran k_fortran = true
is_fortran _ = false

-- The loop over the package's C flags: a fortify flag gives way to the command line's own and to -O0.
unfoldable pub package_cflags : UserArgs → List Bytes → List Bytes
unfolding is_fortify_arg
package_cflags user [] = []
package_cflags user (flag ∷ flags) =
    let rest = package_cflags user flags in
    if is_fortify_arg flag && (user.sets_fortify || not user.optimizes) then rest else flag ∷ rest

abbrev pub prefix_map_arg : Bytes → Bytes
prefix_map_arg mapping = codes "-ffile-prefix-map=" ++ mapping

-- `always` of the policy.
unfoldable pub policy_flags : BinFmt → List Bytes
policy_flags k_elf =
    codes "-Wl,--build-id=sha1" ∷ codes "-Wl,--package-metadata={\"type\":\"repkgs\"}" ∷ []
policy_flags _ = []

-- What `BuildDriverArgs` puts in front of the build system's arguments. `mappings` is `$PKGS_PREFIX_MAP`.
unfoldable pub leading_args : DriverConf → Language → Bytes → UserArgs → List Bytes
unfolding package_cflags policy_flags split
leading_args conf lang mappings user =
    let fortran = is_fortran lang in
    let first =
      if fortran then codes "-Qunused-arguments" else codes "--start-no-unused-arguments" in
    let base = if fortran then conf.fflags else conf.flags in
    let cflags = if fortran then [] else package_cflags user conf.of_package.cflags in
    let cxx : List Bytes =
      if is_cxx lang
      then codes "--driver-mode=g++" ∷ (conf.conf_cxxflags ++ conf.of_package.cxxflags)
      else [] in
    let maps : List Bytes =
      if fortran then [] else map prefix_map_arg (conf.prefix_map ++ split mappings b':' false) in
    let last : List Bytes = if fortran then [] else codes "--end-no-unused-arguments" ∷ [] in
    first ∷ (base ++ (cflags ++ (cxx ++ (maps ++ (policy_flags conf.binfmt ++ last)))))

-- The arguments and the tail of `BuildDriverArgs`: library names and link policy of a step that links.
unfoldable pub link_step :
    Bytes → (Bytes → Bytes) → (Bytes → Bool) → DriverConf → Bool → UserArgs → UserArgs × List Bytes
unfolding policy_libs policy_link
link_step dir real_dir exists conf cxx user =
    let named = policy_libs dir real_dir exists conf user in
    let tail = conf.of_package.ldflags in
    if user.linking && user.have_input
    then (
      named,
      if user.no_policy then tail else policy_link dir real_dir exists conf cxx named tail,
    )
    else (user, [])

-- `BuildDriverArgs`
unfoldable pub build_driver_args :
    Bytes
    → (Bytes → Bytes)
    → (Bytes → Bool)
    → Bytes
    → DriverConf
    → Language
    → List Bytes
    → List Bytes
build_driver_args dir real_dir exists mappings conf lang raw =
    let user = scan_user_args conf.binfmt raw in
    let (passed, tail) = link_step dir real_dir exists conf (is_cxx lang) user in
    leading_args conf lang mappings user ++ (passed.args ++ tail)
