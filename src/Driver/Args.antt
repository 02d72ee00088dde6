-- ===== src/Driver/Args.antt =====
-- The build system's arguments, as `ScanUserArgs` of pkgs/ji/jig/src/driver.cc passes them on.
use corepkgs_v.Prelude.{
  ℕ, zero, suc, ◌-◌, Bool, true, false, not, ◌&&◌, ◌||◌, Option, none, some, List, [], ◌∷◌, ◌++◌,
  ltb, if◌then◌else◌, Bytes, codes, equal, starts_with, ends_with, length, take, drop, any,
}
use corepkgs_v.Driver.Runpath.{RunpathList, add_verbatim, listed}

abbrev pub is : Bytes → Bytes → Bool
is arg word = equal arg word

-- The first of the prefixes that `arg` begins with is cut off.
unfoldable pub cut_prefix : List Bytes → Bytes → Option Bytes
unfolding starts_with
cut_prefix [] arg = none
cut_prefix (p ∷ ps) arg =
    let rest = cut_prefix ps arg in if starts_with arg p then some (drop (length p) arg) else rest

abbrev pub rpath_spellings : List Bytes
rpath_spellings =
    codes "-Wl,-rpath," ∷ codes "-Wl,--rpath," ∷ codes "-Wl,-rpath=" ∷ codes "-Wl,--rpath=" ∷ []

-- The last test of `TakeRpathArg`: -Xlinker -rpath -Xlinker <value>.
unfoldable pub take_xlinker : Bytes → List Bytes → Option (Bytes × List Bytes)
unfolding equal
take_xlinker arg (option ∷ again ∷ value ∷ rest) =
    if is arg (codes "-Xlinker")
      && (is option (codes "-rpath") || is option (codes "--rpath"))
      && is again (codes "-Xlinker")
    then some (value, rest)
    else none
take_xlinker arg _ = none

-- The tests of `TakeRpathArg` behind the first.
unfoldable pub take_glued_rpath : Bytes → List Bytes → Option (Bytes × List Bytes)
unfolding cut_prefix take_xlinker
take_glued_rpath arg rest = elim (cut_prefix rpath_spellings arg) [
  | some value ↦ some (value, rest)
  | none ↦ take_xlinker arg rest
]

-- `TakeRpathArg`: the value and the arguments that are left.
unfoldable pub take_rpath_arg : Bytes → List Bytes → Option (Bytes × List Bytes)
unfolding take_glued_rpath equal starts_with
take_rpath_arg arg [] = take_glued_rpath arg []
take_rpath_arg arg (value ∷ rest) =
    if (is arg (codes "-Wl,-rpath") || is arg (codes "-Wl,--rpath"))
      && starts_with value (codes "-Wl,")
    then some (drop 4 value, rest)
    else take_glued_rpath arg (value ∷ rest)

unfoldable pub is_output_only_mode : Bytes → Bool
unfolding listed
is_output_only_mode arg = listed arg (
    codes "-c"
    ∷ codes "-E"
    ∷ codes "-S"
    ∷ codes "-M"
    ∷ codes "-MM"
    ∷ codes "-fsyntax-only"
    ∷ codes "-###"
    ∷ [])

unfoldable pub refuses_link_policy : Bytes → Bool
unfolding listed
refuses_link_policy arg = listed arg (
    codes "-static"
    ∷ codes "-static-pie"
    ∷ codes "-r"
    ∷ codes "-Wl,-r"
    ∷ codes "-nostartfiles"
    ∷ [])

unfoldable pub is_fortify_arg : Bytes → Bool
unfolding equal starts_with
is_fortify_arg arg =
    starts_with arg (codes "-D_FORTIFY_SOURCE")
    || is arg (codes "-U_FORTIFY_SOURCE")
    || starts_with arg (codes "-Wp,-D_FORTIFY_SOURCE")
    || starts_with arg (codes "-Wp,-U_FORTIFY_SOURCE")

unfoldable pub is_pic_arg : Bytes → Bool
unfolding listed
is_pic_arg arg = listed arg (
    codes "-fPIC"
    ∷ codes "-fpic"
    ∷ codes "-fPIE"
    ∷ codes "-fpie"
    ∷ codes "-fno-PIC"
    ∷ codes "-fno-pic"
    ∷ codes "-pie"
    ∷ [])

-- `FlagValue`: of a flag that is glued to its value, or of one in front of it.
unfoldable pub flag_value : Bytes → Bytes → List Bytes → Option Bytes
unfolding starts_with
flag_value flag arg rest =
    if not (starts_with arg flag)
    then none
    else if ltb (length flag) (length arg)
    then some (drop (length flag) arg)
    else (elim rest [ [] ↦ none | value ∷ _ ↦ some value ])

pub data BinFmt : Type 0 where
  k_elf k_mach_o k_coff : BinFmt

unfoldable pub elf_arg : Bytes → Option Bytes
unfolding starts_with
elf_arg arg =
    if starts_with arg (codes "-Wl,--dynamic-linker")
      || starts_with arg (codes "-Wl,-dynamic-linker")
    then none
    else some arg

unfoldable pub coff_arg : Bytes → Option Bytes
unfolding is_pic_arg starts_with ends_with
coff_arg arg =
    let std = starts_with arg (codes "-std=c") || starts_with arg (codes "-std=gnu") in
    let old =
      any (λ o. ends_with arg o) (codes "++98" ∷ codes "++03" ∷ codes "++0x" ∷ codes "++11" ∷ []) in
    if is_pic_arg arg
    then none
    else if std && old
    then some (take (length arg - 2) arg ++ codes "14")
    else some arg

-- `PolicyFor`: `takes_rpath` and `arg` of the policy.
unfoldable pub takes_rpath : BinFmt → Bool
takes_rpath k_elf = true
takes_rpath _ = false

unfoldable pub policy_arg : BinFmt → Bytes → Option Bytes
unfolding elf_arg coff_arg
policy_arg k_elf arg = elf_arg arg
policy_arg k_mach_o arg = some arg
policy_arg k_coff arg = coff_arg arg

-- `struct UserArgs`
pub record UserArgs : Type 0 where
  pub args : List Bytes
  pub runpath : RunpathList
  pub output : Bytes
  pub linking : Bool
  pub have_input : Bool
  pub shared : Bool
  pub no_policy : Bool
  pub optimizes : Bool
  pub sets_fortify : Bool

-- The end of a round: what is noted about an argument that is passed on.
unfoldable pub note_arg : UserArgs → Bytes → Bytes → UserArgs
unfolding is_output_only_mode refuses_link_policy is_fortify_arg equal starts_with
note_arg user arg kept = record user {
  linking = user.linking && not (is_output_only_mode arg);
  shared = user.shared || is arg (codes "-shared") || is arg (codes "-dynamiclib");
  no_policy = user.no_policy || refuses_link_policy arg;
  have_input = user.have_input || not (starts_with arg (codes "-"));
  sets_fortify = user.sets_fortify || is_fortify_arg arg;
  optimizes = if starts_with arg (codes "-O") then not (is arg (codes "-O0")) else user.optimizes;
  args = user.args ++ kept ∷ [];
}

abbrev pub note_output : UserArgs → Bytes → List Bytes → UserArgs
note_output user arg rest = elim (flag_value (codes "-o") arg rest) [
  | none ↦ user
  | some out ↦ record user { output = out }
]

-- A round of the loop in which no rpath is taken.
unfoldable pub pass_arg : BinFmt → UserArgs → Bytes → List Bytes → UserArgs
unfolding policy_arg note_arg flag_value
pass_arg fmt user arg rest = elim (policy_arg fmt arg) [
  | none ↦ note_output user arg rest
  | some kept ↦ note_arg (note_output user arg rest) arg kept
]

-- A round of the loop of `ScanUserArgs`.
unfoldable pub scan_user_arg : BinFmt → UserArgs → Bytes → List Bytes → UserArgs × List Bytes
unfolding take_rpath_arg pass_arg add_verbatim takes_rpath
scan_user_arg fmt user arg rest = elim (if takes_rpath fmt then take_rpath_arg arg rest else none) [
  | some (rpath, left) ↦ (record user { runpath = add_verbatim user.runpath rpath }, left)
  | none ↦ (pass_arg fmt user arg rest, rest)
]

unfoldable pub scan_user_loop : ℕ → BinFmt → UserArgs → List Bytes → UserArgs
unfolding scan_user_arg
scan_user_loop zero fmt user raw = user
scan_user_loop (suc f) fmt user [] = user
scan_user_loop (suc f) fmt user (arg ∷ rest) =
    let (user', left) = scan_user_arg fmt user arg rest in scan_user_loop f fmt user' left

abbrev pub first_user_args : UserArgs
first_user_args = record {
  args = [];
  runpath = record { verbatim = []; entries = [] };
  output = [];
  linking = true;
  have_input = false;
  shared = false;
  no_policy = false;
  optimizes = true;
  sets_fortify = false;
}

-- `ScanUserArgs`
unfoldable pub scan_user_args : BinFmt → List Bytes → UserArgs
unfolding scan_user_loop
scan_user_args fmt raw = scan_user_loop (length raw) fmt first_user_args raw
