-- ===== src/Tests/Cc.antt =====
-- pkgs/ji/jig/src/cc_mode.cc: command lines.
use corepkgs_v.Prelude.{
  ◌≡◌, refl, true, false, List, [], ◌∷◌, Bytes, codes, equal, starts_with, ends_with, find,
  find_byte,
}
use corepkgs_v.Cc.Options.{
  is_source_file, is_object_input, has_linker_side_output, is_no_output_option,
}
use corepkgs_v.Cc.Options.{is_replayable, has_suffix}
use corepkgs_v.FilePath
use corepkgs_v.FilePath.{replace_extension, filename, stem_extension}
use corepkgs_v.Text.{print_uint}
use corepkgs_v.Cc.Invocation.{
  default_depfile, classify_stop, scan_loop, scan_arg, take_depfile_option, depfile_alone,
  scan_option, scan_plain, is_kept_output, classify, parse_invocation,
}
use corepkgs_v.Cc.Omits.{Parts, Omits}
use corepkgs_v.Cc.Keyed.{parse_invocation-Omits}
use corepkgs_v.Cc.Classes.{Kind, parse_invocation-Kind}

kinds :
    (is_source_file (codes "dir/x.c") ≡ true)
    × (is_source_file (codes ".c") ≡ false)
    × (is_object_input (codes "lib/libz.so.1.3") ≡ true)
    × (has_linker_side_output (codes "-Wl,-Map=out.map") ≡ true)
    × (has_linker_side_output (codes "-Map") ≡ false)
    × (is_no_output_option (codes "-print-search-dirs") ≡ true)
unfolding is_source_file is_object_input has_linker_side_output is_no_output_option find
kinds = (refl, refl, refl, refl, refl, refl)

abbrev compile_line : List Bytes
compile_line =
    codes "-O2" ∷ codes "-c" ∷ codes "x.c" ∷ codes "-MD" ∷ codes "-o" ∷ codes "d/x.o" ∷ []

compile_key :
    (parse_invocation (codes "/tmp") 7 compile_line).key_args ≡ codes "-O2" ∷ codes "-c" ∷ []
unfolding parse_invocation classify default_depfile classify_stop scan_loop scan_arg
    take_depfile_option depfile_alone scan_option scan_plain is_kept_output is_source_file
    is_object_input is_no_output_option is_replayable equal starts_with ends_with has_suffix
    replace_extension FilePath.append filename stem_extension print_uint find_byte FilePath.same
compile_key = refl

compile_depfile : (parse_invocation (codes "/tmp") 7 compile_line).depfile ≡ codes "d/x.d"
unfolding parse_invocation classify default_depfile classify_stop scan_loop scan_arg
    take_depfile_option depfile_alone scan_option scan_plain is_kept_output is_source_file
    is_object_input is_no_output_option is_replayable equal starts_with ends_with has_suffix
    replace_extension FilePath.append filename stem_extension print_uint find_byte FilePath.same
compile_depfile = refl

parse_invocation-Omits_example :
    let inv = parse_invocation (codes "/tmp") 7 compile_line in
    (parts : Parts) × Omits false compile_line parts
    × (inv.key_args ≡ parts.keys)
    × (inv.args ≡ compile_line)
parse_invocation-Omits_example = parse_invocation-Omits (codes "/tmp") 7 compile_line

compile_line_cacheable : (parse_invocation (codes "/tmp") 7 compile_line).cacheable ≡ true
unfolding parse_invocation classify default_depfile classify_stop scan_loop scan_arg
    take_depfile_option depfile_alone scan_option scan_plain is_kept_output is_source_file
    is_object_input is_no_output_option is_replayable equal starts_with ends_with has_suffix
    replace_extension FilePath.append filename stem_extension print_uint find_byte FilePath.same
    find
compile_line_cacheable = refl

parse_invocation-Kind_example :
    (parts : Parts) × Omits false compile_line parts
    × Kind (parse_invocation (codes "/tmp") 7 compile_line) parts
parse_invocation-Kind_example =
    parse_invocation-Kind (codes "/tmp") 7 compile_line compile_line_cacheable
