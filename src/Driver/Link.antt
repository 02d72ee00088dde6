-- ===== src/Driver/Link.antt =====
-- The link policy of pkgs/ji/jig/src/driver.cc: RUNPATH, dynamic linker and library names. The file
-- system is two arguments: `real_dir` is RealDir, `exists` is std::filesystem::exists.
use corepkgs_v.Prelude.{
  ℕ, zero, suc, ◌+◌, Bool, true, false, not, ◌&&◌, ◌||◌, Option, none, some, List, [], ◌∷◌, ◌++◌,
  map, leb, ◌==◌, if◌then◌else◌, Bytes, codes, equal, starts_with, ends_with, has, length, take,
  drop, any,
}
use corepkgs_v.FilePath.{filename, parent_path}
use corepkgs_v.Store.{is_store_path}
use corepkgs_v.Driver.Args.{is, flag_value, BinFmt, k_elf, k_mach_o, k_coff, UserArgs}
use corepkgs_v.Driver.Runpath.{listed, RunpathList, add_entry, render}

pub record PackageCcFlags : Type 0 where
  pub cflags : List Bytes
  pub cxxflags : List Bytes
  pub ldflags : List Bytes

pub record DriverConf : Type 0 where
  pub cc : Bytes
  pub fc : Bytes
  pub binfmt : BinFmt
  pub libc : Bytes
  pub interp : Bytes
  pub crt : Bytes
  pub runtimes : Bytes
  pub flags : List Bytes
  pub conf_cxxflags : List Bytes
  pub fflags : List Bytes
  pub prefix_map : List Bytes
  pub of_package : PackageCcFlags

-- The text behind the last match.
unfoldable pub behind_last : Bytes → Bytes → Option Bytes
unfolding starts_with
behind_last word [] = none
behind_last word (c ∷ s) = elim (behind_last word s) [
  | some tail ↦ some tail
  | none ↦ if starts_with (c ∷ s) word then some (drop (length word) (c ∷ s)) else none
]

abbrev pub is_version_byte : ℕ → Bool
is_version_byte c = c == b'.' || (leb b'0' c && leb c b'9')

-- `IsSharedLibName`
unfoldable pub is_shared_lib_name : Bytes → Bool
unfolding behind_last ends_with
is_shared_lib_name base =
    let versioned : Bool = elim (behind_last (codes ".so") base) [
      | none ↦ false
      | some tail ↦ elim tail [ [] ↦ true | c ∷ version ↦ c == b'.' && any_version version ]
    ] in
    ends_with base (codes ".dylib") || versioned
  where
    any_version : Bytes → Bool
    any_version version = not (any (λ c. not (is_version_byte c)) version)

unfoldable pub is_runtime_lib : Bytes → Bool
unfolding listed
is_runtime_lib lib =
    listed lib
      (codes "c++" ∷ codes "stdc++" ∷ codes "gcc_s" ∷ codes "unwind" ∷ codes ":libunwind.so" ∷ [])

-- The local variables of `AddRunpathEntries`.
pub record Linked : Type 0 where
  pub lib_dirs : List Bytes
  pub libs : List Bytes
  pub links_runtime : Bool
  pub runpath : RunpathList

abbrev pub interp_slack : ℕ
interp_slack = 12

unfoldable pub dots : ℕ → Bytes
dots zero = []
dots (suc n) = codes "./" ++ dots n

-- The -L directories that `CoffLibs` collects.
unfoldable pub link_dirs : List Bytes → List Bytes
unfolding flag_value
link_dirs [] = []
link_dirs (arg ∷ rest) =
    let others = link_dirs rest in
    elim (flag_value (codes "-L") arg rest) [ some lib_dir ↦ lib_dir ∷ others | none ↦ others ]

abbrev pub lower : ℕ → ℕ
lower c = if leb b'A' c && leb c b'Z' then c + 32 else c

module _ (dir : Bytes) (real_dir : Bytes → Bytes) (exists : Bytes → Bool) where
  abbrev pub add_lib : Linked → Bytes → Linked
  add_lib l arg =
      if is_store_path dir arg && is_shared_lib_name (filename arg)
      then record l { runpath = add_entry l.runpath (parent_path (real_dir arg)) }
      else l

  -- The first loop: -L directories, -l libraries and store libraries that are named by path.
  unfoldable pub collect : List Bytes → Linked → Linked
  unfolding flag_value is_runtime_lib equal
  collect [] l = l
  collect (arg ∷ rest) l =
      let taken : Linked = elim (flag_value (codes "-L") arg rest) [
        | some lib_dir ↦ record l { lib_dirs = l.lib_dirs ++ lib_dir ∷ [] }
        | none ↦ elim (flag_value (codes "-l") arg rest) [
          | some lib ↦ record l {
            links_runtime = l.links_runtime || is_runtime_lib lib;
            libs = l.libs ++ lib ∷ [];
          }
          | none ↦ add_lib l arg
        ]
      ] in
      collect rest (
        if is arg (codes "-nostdlib++") || is arg (codes "-nostdlib")
        then record taken { links_runtime = false }
        else taken)

  -- The lambda `provides`
  abbrev pub provides : List Bytes → Bytes → Bool
  provides libs lib_dir =
      any
        (λ lib.
          exists (lib_dir ++ (codes "/lib" ++ (lib ++ codes ".so")))
          || exists (lib_dir ++ (codes "/lib" ++ (lib ++ codes ".dylib"))))
        libs

  -- The second loop.
  unfoldable pub add_lib_dirs : List Bytes → List Bytes → RunpathList → RunpathList
  unfolding add_entry is_store_path
  add_lib_dirs libs [] r = r
  add_lib_dirs libs (lib_dir ∷ lib_dirs) r =
      let real = real_dir lib_dir in
      add_lib_dirs libs lib_dirs
        (if is_store_path dir real && provides libs real then add_entry r real else r)

  -- `AddRunpathEntries`: the list and the number of libraries.
  unfoldable pub add_runpath_entries :
      DriverConf → Bool → List Bytes → RunpathList → RunpathList × ℕ
  unfolding collect add_lib_dirs add_entry
  add_runpath_entries conf cxx args r =
      let l =
        collect args (record { lib_dirs = []; libs = []; links_runtime = cxx; runpath = r }) in
      let found = add_lib_dirs l.libs l.lib_dirs l.runpath in
      let runtime =
        if l.links_runtime && not (equal conf.runtimes [])
        then add_entry found conf.runtimes
        else found in
      (add_entry runtime (conf.libc ++ codes "/lib"), length l.libs)

  -- `CollectRunpath`
  unfoldable pub collect_runpath : DriverConf → Bool → UserArgs → RunpathList × ℕ
  unfolding add_runpath_entries
  collect_runpath conf cxx user =
      add_runpath_entries conf cxx (user.args ++ conf.of_package.ldflags) user.runpath

  -- `ElfLink`
  unfoldable pub elf_link : DriverConf → Bool → UserArgs → List Bytes → List Bytes
  unfolding collect_runpath render dots
  elf_link conf cxx user out =
      let (r, libs) = collect_runpath conf cxx user in
      let linked =
        out
        ++ codes "-Wl,--undefined-version"
          ∷ (codes "-Wl,-rpath," ++ render r libs)
          ∷ codes "-Wl,--enable-new-dtags"
          ∷ [] in
      let libc_lib = conf.libc ++ codes "/lib/" in
      if user.shared
      then linked
      else if equal conf.crt []
      then linked ++ (codes "-Wl,--dynamic-linker=" ++ (libc_lib ++ conf.interp)) ∷ []
      else linked
        ++ codes "-x"
          ∷ codes "none"
          ∷ conf.crt
          ∷ (codes "-Wl,--dynamic-linker=" ++ (libc_lib ++ (dots interp_slack ++ conf.interp)))
          ∷ codes "-Wl,--export-dynamic-symbol=__reloc_start"
          ∷ []

  -- The lambda `present`
  abbrev pub present : List Bytes → Bytes → Bool
  present dirs name =
      any
        (λ lib_dir.
          exists (lib_dir ++ (codes "/lib" ++ (name ++ codes ".dll.a")))
          || exists (lib_dir ++ (codes "/lib" ++ (name ++ codes ".a")))
          || exists (lib_dir ++ (b'/' ∷ name)))
        dirs

  -- A round of the last loop of `CoffLibs`.
  abbrev pub coff_lib : List Bytes → Bytes → Bytes
  coff_lib dirs arg =
      if not (starts_with arg (codes "-l")) || has b'/' arg || present dirs (drop 2 arg)
      then arg
      else take 2 arg ++ map lower (drop 2 arg)

  -- `CoffLibs`
  unfoldable pub coff_libs : DriverConf → UserArgs → UserArgs
  unfolding link_dirs
  coff_libs conf user =
      let dirs = link_dirs user.args ++ link_dirs conf.of_package.ldflags in
      record user { args = map (coff_lib dirs) user.args }

  -- `PolicyFor`: `link` and `libs` of the policy.
  unfoldable pub policy_link : DriverConf → Bool → UserArgs → List Bytes → List Bytes
  unfolding elf_link
  policy_link conf cxx user out = elim conf.binfmt [
    | k_elf ↦ elf_link conf cxx user out
    | k_mach_o ↦ out ++ codes "-Wl,-headerpad_max_install_names" ∷ []
    | k_coff ↦ out
  ]

  unfoldable pub policy_libs : DriverConf → UserArgs → UserArgs
  unfolding coff_libs
  policy_libs conf user = elim conf.binfmt [ k_coff ↦ coff_libs conf user | _ ↦ user ]
