-- ===== src/Tests/Driver.antt =====
-- pkgs/ji/jig/src/driver.cc
use corepkgs_v.Prelude.{
  ◌≡◌, refl, Bool, true, false, List, [], ◌∷◌, Bytes, codes, equal, starts_with,
}
use corepkgs_v.Driver.Args.{k_elf, scan_user_args}
use corepkgs_v.Driver.Link.{DriverConf, collect_runpath, is_shared_lib_name}
use corepkgs_v.Driver.Build.{k_c, leading_args, build_driver_args, expand, with_package_lib_dirs}
use corepkgs_v.Driver.Distinct.{IsRunpath, collect_runpath-IsRunpath}
use corepkgs_v.Driver.Built.{IsBuilt, build_driver_args-IsBuilt}

abbrev conf : DriverConf
conf = record {
  cc = codes "/nix/store/x-clang/bin/clang";
  fc = [];
  binfmt = k_elf;
  libc = codes "/nix/store/x-glibc";
  interp = codes "ld.so";
  crt = [];
  runtimes = [];
  flags = codes "-B/x" ∷ [];
  conf_cxxflags = [];
  fflags = [];
  prefix_map = [];
  of_package = record {
    cflags = codes "-D_FORTIFY_SOURCE=3" ∷ [];
    cxxflags = [];
    ldflags = codes "-L/d" ∷ [];
  };
}

abbrev line : List Bytes
line = codes "-O2" ∷ codes "x.o" ∷ codes "-Wl,-rpath,/b/lib" ∷ codes "-lz" ∷ []

abbrev real : Bytes → Bytes
real path = path

abbrev nowhere : Bytes → Bool
nowhere path = false

abbrev dir : Bytes
dir = codes "/nix/store"

collect_runpath-IsRunpath_example :
    IsRunpath (collect_runpath dir real nowhere conf false (scan_user_args k_elf line)).0.entries
collect_runpath-IsRunpath_example = collect_runpath-IsRunpath dir real nowhere conf false line

build_driver_args-IsBuilt_example :
    IsBuilt conf k_c [] line (build_driver_args dir real nowhere [] conf k_c line)
build_driver_args-IsBuilt_example = build_driver_args-IsBuilt dir real nowhere conf refl [] k_c line

passed : (scan_user_args k_elf line).args ≡ codes "-O2" ∷ codes "x.o" ∷ codes "-lz" ∷ []
unfolding scan_user_args
passed = refl

noted : (scan_user_args k_elf line).runpath.verbatim ≡ codes "/b/lib:"
unfolding scan_user_args
noted = refl

compile :
    build_driver_args dir real nowhere [] conf k_c (codes "-c" ∷ codes "-O0" ∷ codes "x.c" ∷ [])
    ≡ codes "--start-no-unused-arguments"
      ∷ codes "-B/x"
      ∷ codes "-Wl,--build-id=sha1"
      ∷ codes "-Wl,--package-metadata={\"type\":\"repkgs\"}"
      ∷ codes "--end-no-unused-arguments"
      ∷ codes "-c"
      ∷ codes "-O0"
      ∷ codes "x.c"
      ∷ []
unfolding build_driver_args leading_args scan_user_args corepkgs_v.Driver.Build.link_step
compile = refl

shared_names :
    (is_shared_lib_name (codes "libz.so.1.3") ≡ true)
    × (is_shared_lib_name (codes "libz.so.x") ≡ false)
unfolding is_shared_lib_name equal
shared_names = (refl, refl)

expanded :
    (expand (codes "/p/") (codes "-L@/lib") ≡ codes "-L/p//lib")
    × (expand (codes "/p") (codes "x@/y") ≡ codes "x@/y")
unfolding expand
expanded = (refl, refl)

search :
    with_package_lib_dirs (codes "install: /x\nlibraries: =/y\n") (codes "-L/d" ∷ codes "-lz" ∷ [])
    ≡ codes "install: /x\nlibraries: =/y:/d\n"
unfolding with_package_lib_dirs starts_with
search = refl
