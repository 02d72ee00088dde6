-- ===== src/Cc/Options.antt =====
-- pkgs/ji/jig/src/cc_mode.cc: what a single argument of the compiler is.
use corepkgs_v.Prelude.{
  Bool, not, ◌&&◌, ◌||◌, List, [], ◌∷◌, ltb, Bytes, codes, equal, starts_with, ends_with, contains,
  length, any,
}

-- `HasSuffix`: one of the suffixes, with something before it
unfoldable pub has_suffix : Bytes → List Bytes → Bool
unfolding ends_with equal
has_suffix arg suffixes = any (λ s. ltb (length s) (length arg) && ends_with arg s) suffixes

-- `std::ranges::contains`, and the same for a part of the text
abbrev pub one_of : Bytes → List Bytes → Bool
one_of arg words = any (λ w. equal arg w) words

abbrev pub has_any : Bytes → List Bytes → Bool
has_any arg markers = any (λ m. contains arg m) markers

abbrev pub is_dashed : Bytes → Bool
is_dashed arg = starts_with arg (codes "-")

-- `IsAssembly`
unfoldable pub is_assembly : Bytes → Bool
unfolding has_suffix
is_assembly path = has_suffix path (codes ".S" ∷ codes ".s" ∷ codes ".sx" ∷ [])

-- `IsPlainAssembly`
unfoldable pub is_plain_assembly : Bytes → Bool
unfolding has_suffix
is_plain_assembly path = has_suffix path (codes ".s" ∷ [])

abbrev source_suffixes : List Bytes
source_suffixes =
    codes ".c"
    ∷ codes ".cc"
    ∷ codes ".cpp"
    ∷ codes ".cxx"
    ∷ codes ".c++"
    ∷ codes ".C"
    ∷ codes ".S"
    ∷ codes ".s"
    ∷ codes ".sx"
    ∷ codes ".m"
    ∷ []

-- `IsSourceFile`
unfoldable pub is_source_file : Bytes → Bool
unfolding starts_with has_suffix
is_source_file arg = not (is_dashed arg) && has_suffix arg source_suffixes

abbrev object_suffixes : List Bytes
object_suffixes =
    codes ".o" ∷ codes ".os" ∷ codes ".lo" ∷ codes ".a" ∷ codes ".so" ∷ codes ".obj" ∷ []

-- `IsObjectInput`
unfoldable pub is_object_input : Bytes → Bool
unfolding starts_with has_suffix contains
is_object_input arg =
    not (is_dashed arg) && (has_suffix arg object_suffixes || contains arg (codes ".so."))

abbrev side_markers : List Bytes
side_markers =
    codes "-Map"
    ∷ codes "--print-map"
    ∷ codes ",-M,"
    ∷ codes "--dependency-file"
    ∷ codes "--out-implib"
    ∷ codes "--trace"
    ∷ codes ",-t,"
    ∷ codes "--verbose"
    ∷ codes "--print-gc-sections"
    ∷ codes "--stats"
    ∷ []

-- `HasLinkerSideOutput`
unfoldable pub has_linker_side_output : Bytes → Bool
unfolding starts_with contains ends_with
has_linker_side_output arg =
    (starts_with arg (codes "-Wl,") || starts_with arg (codes "-Xlinker"))
    && (has_any arg side_markers || ends_with arg (codes ",-M") || ends_with arg (codes ",-t"))

abbrev no_output_options : List Bytes
no_output_options =
    codes "-M"
    ∷ codes "-MM"
    ∷ codes "-"
    ∷ codes "-v"
    ∷ codes "-V"
    ∷ codes "--version"
    ∷ codes "-###"
    ∷ codes "-fsyntax-only"
    ∷ []

-- `IsNoOutputOption`
unfoldable pub is_no_output_option : Bytes → Bool
unfolding equal starts_with
is_no_output_option arg =
    one_of arg no_output_options
    || starts_with arg (codes "-print")
    || starts_with arg (codes "--print")
    || starts_with arg (codes "-dump")

-- The last branch of `ParseInvocation`: an argument that leaves the call cacheable.
unfoldable pub is_replayable : Bytes → Bool
unfolding starts_with contains has_linker_side_output ends_with
is_replayable arg =
    not (starts_with arg (codes "@"))
    && not (contains arg (codes ",@"))
    && not (has_linker_side_output arg)
    && not (ends_with arg (codes "-header"))
