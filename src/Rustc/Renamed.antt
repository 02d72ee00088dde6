-- ===== src/Rustc/Renamed.antt =====
-- The names of a crate's files in `PackFiles` and `UnpackFiles` of pkgs/ji/jig/src/rustc_mode.cc: cargo's
-- metadata stem goes out as "@" and comes back as the stem of the build at hand.
use corepkgs_v.Prelude.{
  ◌≡◌, ◌≢◌, refl, ap, ◌∙◌, inl, inr, Bool, true, none, some, List, [], ◌∷◌, ◌++◌, Option-cases,
  Bytes, Lacks, find, All,
}
use corepkgs_v.Text.Replace.Back.{replace_all_back, replace_all_carried}
use corepkgs_v.FilePath.{filename, append}
use corepkgs_v.Rustc.Pack.{Disk, Written, permission_bits, pack_files, unpack_files}
use corepkgs_v.Rustc.Unpacked.{renamed, IsPackable, unpacked, unpack_files-pack_files}

-- A name with the stem in one place gets the later stem there; the rest holds no "@".
pub renamed_lem :
    (stem later front back : Bytes)
    → stem ≢ []
    → find stem (front ++ (stem ++ back)) ≡ some (front, stem ++ back)
    → find stem back ≡ none
    → Lacks b'@' front
    → Lacks b'@' back
    → renamed stem later (front ++ (stem ++ back)) ≡ front ++ (later ++ back)
renamed_lem stem later front back ne first last hf hb =
    replace_all_carried b'@' stem later front back ne first last hf hb

module _ (can_write : Bytes → Bool) (disk : Disk) (dir stem : Bytes) where
  -- The files that could be read, in another directory.
  unfoldable pub copied : List Bytes → List Written
  copied [] = []
  copied (path ∷ paths) = elim (disk.read_file path) [
    | none ↦ copied paths
    | some bytes ↦
        record {
          path = append dir (filename path);
          mode = permission_bits (disk.mode_of path);
          bytes = bytes;
        }
        ∷ copied paths
  ]

  unpacked-copied :
      (paths : List Bytes)
      → All (λ path. Lacks b'@' (filename path)) paths
      → unpacked can_write disk dir stem stem paths ≡ copied paths
  unfolding unpacked copied
  unpacked-copied [] h = refl
  unpacked-copied (path ∷ paths) h = elim (Option-cases (disk.read_file path)) [
    | inl e ↦ rw (e, unpacked, copied) (unpacked-copied paths h.1)
    | inr (bytes, e) ↦
        rw (e, unpacked, copied, unpacked-copied paths h.1)
          (ap
            (λ name.
              record {
                path = append dir name;
                mode = permission_bits (disk.mode_of path);
                bytes = bytes;
              }
              ∷ copied paths)
            (replace_all_back b'@' (filename path) stem h.0))
  ]

  -- A blob that is unpacked under the stem it was packed under, be it empty, leaves in the directory a
  -- copy of each file that could be read: its own name, bytes and permissions. The names hold no "@"
  -- and can be packed.
  pub unpack_files-copied :
      (paths : List Bytes)
      → All (IsPackable can_write disk dir stem stem) paths
      → All (λ path. Lacks b'@' (filename path)) paths
      → unpack_files can_write dir stem (pack_files disk stem paths) ≡ (true, copied paths)
  unpack_files-copied paths h names =
      unpack_files-pack_files can_write disk dir stem stem paths h
      ∙ ap (λ d. (true, d)) (unpacked-copied paths names)
