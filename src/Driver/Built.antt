-- ===== src/Driver/Built.antt =====
-- The whole command line of `BuildDriverArgs` in pkgs/ji/jig/src/driver.cc, for ELF.
use corepkgs_v.Prelude.{
  ◌≡◌, ap, ◌∙◌, inl, inr, Bool, true, false, ◌&&◌, List, [], ◌∷◌, ◌++◌, Bool-cases, Bytes, codes,
  equal,
}
use corepkgs_v.Driver.Args.{k_elf, UserArgs, scan_user_args}
use corepkgs_v.Driver.Runpath.{render}
use corepkgs_v.Driver.Link.{
  DriverConf, policy_libs, policy_link, elf_link, collect_runpath, dots, interp_slack,
}
use corepkgs_v.Driver.Build.{Language, is_cxx, leading_args, link_step, build_driver_args}
use corepkgs_v.Driver.Passed.{Passes, scan_user_args-Scanned}

-- The policy of a link that asks for this RUNPATH.
abbrev pub policy_front : Bytes → List Bytes
policy_front runpath =
    codes "-Wl,--undefined-version"
    ∷ (codes "-Wl,-rpath," ++ runpath)
    ∷ codes "-Wl,--enable-new-dtags"
    ∷ []

-- The request for the dynamic linker of libc, with room in its path.
abbrev pub own_linker : DriverConf → Bytes → Bytes
own_linker conf room =
    codes "-Wl,--dynamic-linker=" ++ ((conf.libc ++ codes "/lib/") ++ (room ++ conf.interp))

-- The tail: none in a step that does not link or has no input; the package's flags alone in a link that
-- refuses the policy; else a RUNPATH of jig's behind them, and for a program the dynamic linker of libc:
-- behind the start file and with room in its name, if there is such a file.
pub data IsTail (conf : DriverConf) (user : UserArgs) : List Bytes → Type 0 where
  unlinked : (user.linking && user.have_input) ≡ false → IsTail conf user []
  refused :
      (user.linking && user.have_input) ≡ true
      → user.no_policy ≡ true
      → IsTail conf user conf.of_package.ldflags
  shared :
      (runpath : Bytes)
      → (user.linking && user.have_input) ≡ true
      → user.no_policy ≡ false
      → user.shared ≡ true
      → IsTail conf user (conf.of_package.ldflags ++ policy_front runpath)
  program :
      (runpath : Bytes)
      → (user.linking && user.have_input) ≡ true
      → user.no_policy ≡ false
      → user.shared ≡ false
      → equal conf.crt [] ≡ true
      → IsTail conf user
          ((conf.of_package.ldflags ++ policy_front runpath) ++ own_linker conf [] ∷ [])
  started :
      (runpath : Bytes)
      → (user.linking && user.have_input) ≡ true
      → user.no_policy ≡ false
      → user.shared ≡ false
      → equal conf.crt [] ≡ false
      → IsTail conf user (
          (conf.of_package.ldflags ++ policy_front runpath)
          ++ codes "-x"
            ∷ codes "none"
            ∷ conf.crt
            ∷ own_linker conf (dots interp_slack)
            ∷ codes "-Wl,--export-dynamic-symbol=__reloc_start"
            ∷ [])

-- A command line in three parts: ours, the build system's and the tail of a link.
pub record IsBuilt (conf : DriverConf) (lang : Language) (mappings : Bytes) (raw : List Bytes)
    (line : List Bytes) : Type 0 where
  pub passed : List Bytes
  pub tail : List Bytes
  pub shape : line ≡ leading_args conf lang mappings (scan_user_args k_elf raw) ++ (passed ++ tail)
  pub passes : Passes raw passed
  pub ends : IsTail conf (scan_user_args k_elf raw) tail

module _ (dir : Bytes) (real_dir : Bytes → Bytes) (exists : Bytes → Bool) (conf : DriverConf)
    (elf : conf.binfmt ≡ k_elf) where
  link_step-args :
      (cxx : Bool) (user : UserArgs)
      → (link_step dir real_dir exists conf cxx user).0.args ≡ user.args
  unfolding link_step policy_libs
  link_step-args cxx user = elim (Bool-cases (user.linking && user.have_input)) [
    | inl e ↦ simp (link_step, e, policy_libs, elf)
    | inr e ↦ simp (link_step, e)
  ]

  elf_link-IsTail :
      (cxx : Bool) (user : UserArgs)
      → (user.linking && user.have_input) ≡ true
      → user.no_policy ≡ false
      → IsTail conf user (elf_link dir real_dir exists conf cxx user conf.of_package.ldflags)
  unfolding elf_link
  elf_link-IsTail cxx user l n =
      let (r, libs) = collect_runpath dir real_dir exists conf cxx user in
      let runpath = render r libs in
      elim (Bool-cases user.shared) [
        | inl s ↦ simp (elf_link, s) (shared runpath l n s)
        | inr s ↦ elim (Bool-cases (equal conf.crt [])) [
          | inl c ↦ simp (elf_link, s, c) (program runpath l n s c)
          | inr c ↦ simp (elf_link, s, c) (started runpath l n s c)
        ]
      ]

  link_step-IsTail :
      (cxx : Bool) (user : UserArgs)
      → IsTail conf user (link_step dir real_dir exists conf cxx user).1
  unfolding link_step policy_libs policy_link
  link_step-IsTail cxx user = elim (Bool-cases (user.linking && user.have_input)) [
    | inr e ↦ simp (link_step, e) (unlinked e)
    | inl e ↦ elim (Bool-cases user.no_policy) [
      | inl n ↦ simp (link_step, e, policy_libs, elf, n) (refused e n)
      | inr n ↦ simp (link_step, e, policy_libs, policy_link, elf, n) (elf_link-IsTail cxx user e n)
    ]
  ]

  -- For ELF the compiler's command line is jig's own arguments, then the build system's in their order, less
  -- the requests for an rpath and for a dynamic linker, then the tail: none in a step that does not link or
  -- has no input, the package's flags in a link that refuses the policy, and else those, one RUNPATH of jig's
  -- and, unless the link is of a shared library, libc's dynamic linker.
  pub build_driver_args-IsBuilt :
      (mappings : Bytes) (lang : Language) (raw : List Bytes)
      → IsBuilt conf lang mappings raw
          (build_driver_args dir real_dir exists mappings conf lang raw)
  unfolding build_driver_args
  build_driver_args-IsBuilt mappings lang raw =
      let user = scan_user_args k_elf raw in
      let s = scan_user_args-Scanned raw in
      let step = link_step dir real_dir exists conf (is_cxx lang) user in
      record {
        passed = s.passed;
        tail = step.1;
        shape =
            simp (build_driver_args, elf)
              (ap (λ a. leading_args conf lang mappings user ++ (a ++ step.1))
                (link_step-args (is_cxx lang) user ∙ s.added));
        passes = s.passes;
        ends = link_step-IsTail (is_cxx lang) user;
      }
