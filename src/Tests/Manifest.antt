-- ===== src/Tests/Manifest.antt =====
-- pkgs/ji/jig/src/manifest.cc
use corepkgs_v.Prelude.{
  ◌≡◌, refl, false, some, List, [], ◌∷◌, arith, Bytes, codes, Lacks, starts_with, All,
}
use mathlib.Core.Path.{subst}
use corepkgs_v.Keys.{finish}
use corepkgs_v.Keys.Frame.{fields}
use corepkgs_v.Manifest.{Files, build_manifest, parse_manifest, validate_manifest, ok, unexpected}
use corepkgs_v.Manifest.Depfile.{parse_depfile}
use corepkgs_v.Manifest.RoundTrip.{KeptInput, StillAbsent, validate_manifest-build_manifest}
use corepkgs_v.Manifest.Validity.{
  IsCurrent, FirstChange, lines, validate_manifest_ok, validate_manifest_unexpected,
}

two_rules :
    parse_depfile (codes "out.o: a.c my\\ dir/b.h \\\n c.h\nc.h:\n")
    ≡ codes "a.c" ∷ codes "my dir/b.h" ∷ codes "c.h" ∷ []
unfolding parse_depfile
two_rules = refl

-- Every path is its own key, and every file but "gone.h" has the same identity.
abbrev pub disk : Files
disk = record {
  key_of = λ path. path;
  path_of = λ path. some path;
  identity = λ path. some (codes "C:01");
  in_store = λ path. false;
  present = λ path. false;
}

abbrev pub plain_hash : Bytes → Bytes
plain_hash text = text

abbrev pub read_files : List Bytes
read_files = codes "a.c" ∷ codes "b.h" ∷ []

abbrev pub absent_files : List Bytes
absent_files = codes "gone.h" ∷ []

same_id : {id : Bytes} → some (codes "C:01") ≡ some id → codes "C:01" ≡ id
same_id e = ground arith

pub kept :
    (path : Bytes)
    → Lacks b'\n' path
    → Lacks b'\t' path
    → starts_with path (b'!' ∷ []) ≡ false
    → KeptInput disk disk path
kept path no_newline no_tab not_absent id e = record {
  line_path = record { no_newline = no_newline; no_tab = no_tab; not_absent = not_absent };
  line_id = subst (Lacks b'\n') (same_id e) (omega arith);
  path_again = path;
  resolves = refl;
  same = e;
}

pub read_files-Kept : All (KeptInput disk disk) read_files
unfolding starts_with
read_files-Kept = (
  kept (codes "a.c") (omega arith) (omega arith) refl,
  (kept (codes "b.h") (omega arith) (omega arith) refl, tt),
)

pub absent_files-StillAbsent : All (StillAbsent disk disk) absent_files
absent_files-StillAbsent = (λ h. (omega arith, refl), tt)

abbrev request : Bytes
request = codes "00"

abbrev text : Bytes
text = codes "b.h\tC:01\n!gone.h\n"

written : (build_manifest plain_hash disk request read_files (codes "a.c") absent_files).text ≡ text
unfolding build_manifest
written = refl

validate_manifest-build_manifest_example :
    validate_manifest plain_hash disk request
      (build_manifest plain_hash disk request read_files (codes "a.c") absent_files).text
    ≡ ok (build_manifest plain_hash disk request read_files (codes "a.c") absent_files).key
validate_manifest-build_manifest_example =
    validate_manifest-build_manifest plain_hash disk disk request (codes "a.c") read_files
      absent_files read_files-Kept absent_files-StillAbsent

abbrev text_key : Bytes
text_key = finish plain_hash (fields [] (request ∷ lines (parse_manifest disk text)))

text_is_valid : validate_manifest plain_hash disk request text ≡ ok text_key
unfolding validate_manifest parse_manifest corepkgs_v.Text.split lines corepkgs_v.Keys.field
text_is_valid = refl

validate_manifest_ok_example :
    All (IsCurrent disk) (parse_manifest disk text)
    × (text_key ≡ finish plain_hash (fields [] (request ∷ lines (parse_manifest disk text))))
validate_manifest_ok_example = validate_manifest_ok plain_hash disk request text text_is_valid

abbrev old_text : Bytes
old_text = codes "b.h\tC:01\nc.h\tC:02\n"

old_text_is_not :
    validate_manifest plain_hash disk request old_text ≡ unexpected (codes "inputs-changed:c.h")
unfolding validate_manifest corepkgs_v.Text.split
old_text_is_not = refl

validate_manifest_unexpected_example :
    FirstChange disk (parse_manifest disk old_text) (codes "inputs-changed:c.h")
validate_manifest_unexpected_example =
    validate_manifest_unexpected plain_hash disk request old_text old_text_is_not
