-- ===== src/Driver/Distinct.antt =====
-- The entries that `AddRunpathEntries` adds to a RUNPATH, in pkgs/ji/jig/src/driver.cc.
use corepkgs_v.Prelude.{
  ◌≡◌, sym, inl, inr, Bool, true, false, not, ◌&&◌, ◌||◌, Option, none, some, List, [], ◌∷◌, ◌++◌,
  arith, if◌then◌else◌, Bool-cases, Bytes, codes, equal,
}
use mathlib.Core.Path.{subst}
use corepkgs_v.FilePath.{filename, parent_path}
use corepkgs_v.Store.{is_store_path}
use corepkgs_v.Driver.Args.{is, flag_value, k_elf, scan_user_args}
use corepkgs_v.Driver.Runpath.{is_host_dir, listed, RunpathList, add_entry}
use corepkgs_v.Driver.Link.{
  DriverConf, Linked, is_shared_lib_name, is_runtime_lib, add_lib, collect, provides, add_lib_dirs,
  add_runpath_entries, collect_runpath,
}
use corepkgs_v.Driver.Passed.{scan_user_args-Scanned}

-- Entries that were added one by one: none is a directory of the host, and none stands twice.
pub data IsRunpath : List Bytes → Type 0 where
  empty : IsRunpath []
  added :
      (dirs : List Bytes) (dir : Bytes)
      → IsRunpath dirs
      → is_host_dir dir ≡ false
      → listed dir dirs ≡ false
      → IsRunpath (dirs ++ dir ∷ [])

add_entry-IsRunpath :
    (r : RunpathList) (dir : Bytes) → IsRunpath r.entries → IsRunpath (add_entry r dir).entries
unfolding add_entry
add_entry-IsRunpath r dir h = elim (Bool-cases (is_host_dir dir || listed dir r.entries)) [
  | inl e ↦ simp (add_entry, e) h
  | inr e ↦ simp (add_entry, e) (added r.entries dir h (ground arith) (ground arith))
]

module _ (dir : Bytes) (real_dir : Bytes → Bytes) (exists : Bytes → Bool) where
  add_lib-IsRunpath :
      (l : Linked) (arg : Bytes)
      → IsRunpath l.runpath.entries
      → IsRunpath (add_lib dir real_dir exists l arg).runpath.entries
  add_lib-IsRunpath l arg h =
      elim (Bool-cases (is_store_path dir arg && is_shared_lib_name (filename arg))) [
        | inl e ↦ simp (add_lib, e) (add_entry-IsRunpath l.runpath (parent_path (real_dir arg)) h)
        | inr e ↦ simp (add_lib, e) h
      ]

  -- What a round of the first loop makes of the variables, but for the flag links_runtime.
  collect-IsRunpath :
      (args : List Bytes) (l : Linked)
      → IsRunpath l.runpath.entries
      → IsRunpath (collect dir real_dir exists args l).runpath.entries
  unfolding collect
  collect-IsRunpath [] l h = h
  collect-IsRunpath (arg ∷ rest) l h = collect-IsRunpath rest _ (
      flagged (is arg (codes "-nostdlib++") || is arg (codes "-nostdlib")) _
        (taken (flag_value (codes "-L") arg rest) (flag_value (codes "-l") arg rest)))
    where
      flagged :
          (b : Bool) (m : Linked)
          → IsRunpath m.runpath.entries
          → IsRunpath (if b then record m { links_runtime = false } else m).runpath.entries
      flagged true m h = h
      flagged false m h = h

      taken :
          (a b : Option Bytes)
          → IsRunpath (
              let t : Linked = elim a [
                | some lib_dir ↦ record l { lib_dirs = l.lib_dirs ++ lib_dir ∷ [] }
                | none ↦ elim b [
                  | some lib ↦ record l {
                    links_runtime = l.links_runtime || is_runtime_lib lib;
                    libs = l.libs ++ lib ∷ [];
                  }
                  | none ↦ add_lib dir real_dir exists l arg
                ]
              ] in
              t.runpath.entries)
      taken (some d) b = h
      taken none (some lib) = h
      taken none none = add_lib-IsRunpath l arg h

  add_lib_dirs-IsRunpath :
      (libs dirs : List Bytes) (r : RunpathList)
      → IsRunpath r.entries
      → IsRunpath (add_lib_dirs dir real_dir exists libs dirs r).entries
  unfolding add_lib_dirs
  add_lib_dirs-IsRunpath libs [] r h = h
  add_lib_dirs-IsRunpath libs (d ∷ dirs) r h =
      add_lib_dirs-IsRunpath libs dirs _
        (go (is_store_path dir (real_dir d) && provides dir real_dir exists libs (real_dir d)))
    where
      go : (b : Bool) → IsRunpath (if b then add_entry r (real_dir d) else r).entries
      go true = add_entry-IsRunpath r (real_dir d) h
      go false = h

  add_runpath_entries-IsRunpath :
      (conf : DriverConf) (cxx : Bool) (args : List Bytes) (r : RunpathList)
      → IsRunpath r.entries
      → IsRunpath (add_runpath_entries dir real_dir exists conf cxx args r).0.entries
  unfolding add_runpath_entries
  add_runpath_entries-IsRunpath conf cxx args r h =
      let l =
        collect dir real_dir exists args
          (record { lib_dirs = []; libs = []; links_runtime = cxx; runpath = r }) in
      let found = add_lib_dirs-IsRunpath l.libs l.lib_dirs l.runpath (collect-IsRunpath args _ h) in
      add_entry-IsRunpath _ (conf.libc ++ codes "/lib")
        (go (l.links_runtime && not (equal conf.runtimes [])) _ found)
    where
      go :
          (b : Bool) (s : RunpathList)
          → IsRunpath s.entries
          → IsRunpath (if b then add_entry s conf.runtimes else s).entries
      go true s k = add_entry-IsRunpath s conf.runtimes k
      go false s k = k

  -- The entries that jig itself adds to the RUNPATH of an ELF link, from the first argument to libc's
  -- directory: none is a directory of the host (/usr, /lib or /opt), and none stands twice among them. The
  -- text in front of them, which the build system asked for, is not looked at.
  pub collect_runpath-IsRunpath :
      (conf : DriverConf) (cxx : Bool) (raw : List Bytes)
      → IsRunpath
          (collect_runpath dir real_dir exists conf cxx (scan_user_args k_elf raw)).0.entries
  unfolding collect_runpath
  collect_runpath-IsRunpath conf cxx raw =
      let s = scan_user_args-Scanned raw in
      add_runpath_entries-IsRunpath conf cxx
        ((scan_user_args k_elf raw).args ++ conf.of_package.ldflags)
        (scan_user_args k_elf raw).runpath (subst IsRunpath (sym s.same_entries) empty)
