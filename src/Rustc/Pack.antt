-- ===== src/Rustc/Pack.antt =====
-- `PackFiles` and `UnpackFiles` of pkgs/ji/jig/src/rustc_mode.cc: the files of a crate as one blob, in
-- which "@" stands for the crate's metadata stem. What the process reads and writes is the record `Disk`.
use corepkgs_v.Prelude.{
  ℕ, zero, suc, ◌%◌, Bool, true, false, not, ◌||◌, Option, none, some, List, [], ◌∷◌, ◌++◌, ltb,
  if◌then◌else◌, Bytes, codes, find_byte, length, take, drop,
}
use corepkgs_v.Text.{split, replace_all, print_uint, parse_uint}
use corepkgs_v.FilePath.{filename, append}

-- `ReadFile` and the permissions of a path.
pub record Disk : Type 0 where
  pub read_file : Bytes → Option Bytes
  pub mode_of : Bytes → ℕ

-- A file that `WriteFile` wrote, with the mode that `permissions` then gave it.
pub record Written : Type 0 where
  pub path : Bytes
  pub mode : ℕ
  pub bytes : Bytes

-- `kPermissionBits` keeps nine bits.
abbrev pub permission_bits : ℕ → ℕ
permission_bits mode = mode % 512

-- `std::filesystem::permissions` keeps `perms::mask`.
abbrev pub chmod_bits : ℕ → ℕ
chmod_bits mode = mode % 4096

abbrev pub placeholder : Bytes
placeholder = codes "@"

-- The line in front of a file's bytes, for its name in the blob.
unfoldable pub head_line : Bytes → ℕ → ℕ → Bytes
head_line name mode size = name ++ (b' ' ∷ (print_uint 8 mode ++ (b' ' ∷ print_uint 10 size)))

abbrev pub packed_file : Bytes → ℕ → Bytes → Bytes
packed_file name mode bytes = head_line name mode (length bytes) ++ (b'\n' ∷ bytes)

-- `PackFiles`: a file that cannot be read is left out.
unfoldable pub pack_files : Disk → Bytes → List Bytes → Bytes
unfolding head_line
pack_files disk stem [] = []
pack_files disk stem (path ∷ paths) =
    let rest = pack_files disk stem paths in
    elim (disk.read_file path) [
      | none ↦ rest
      | some bytes ↦
          packed_file (replace_all (filename path) stem placeholder)
            (permission_bits (disk.mode_of path)) bytes
          ++ rest
    ]

-- The three words of a head line, with the two numbers read.
unfoldable pub parse_head : Bytes → Option (Bytes × (ℕ × ℕ))
parse_head line = elim (split line b' ' false) [
  | name ∷ mode_text ∷ size_text ∷ [] ↦ elim (parse_uint 8 mode_text) [
    | none ↦ none
    | some mode ↦ elim (parse_uint 10 size_text) [
      | none ↦ none
      | some size ↦ some (name, (mode, size))
    ]
  ]
  | _ ↦ none
]

module _ (can_write : Bytes → Bool) (dir stem : Bytes) where
  -- Behind a head line: the file is written, and the rest of the blob is what follows it.
  unfoldable pub unpack_file : Bytes → Bytes → Option (Written × Bytes)
  unfolding parse_head
  unpack_file line after = elim (parse_head line) [
    | none ↦ none
    | some (name, (mode, size)) ↦
        let out = append dir (replace_all name placeholder stem) in
        if ltb (length after) size || not (can_write out)
        then none
        else some (
          record { path = out; mode = chmod_bits mode; bytes = take size after },
          drop size after,
        )
  ]

  -- One round of the loop: the head line ends at the first newline.
  unfoldable pub unpack_step : Bytes → Option (Written × Bytes)
  unfolding unpack_file find_byte
  unpack_step blob = elim (find_byte b'\n' blob) [
    | none ↦ none
    | some (line, at) ↦ unpack_file line (drop 1 at)
  ]

  -- The loop: whether it reached the end, and what it wrote on the way. Each round takes a newline at
  -- least, so the length of the blob is fuel enough.
  unfoldable pub unpack_loop : ℕ → Bytes → List Written → Bool × List Written
  unfolding unpack_step
  unpack_loop f [] done = (true, done)
  unpack_loop zero (c ∷ blob) done = (false, done)
  unpack_loop (suc f) (c ∷ blob) done = elim (unpack_step (c ∷ blob)) [
    | none ↦ (false, done)
    | some (file, rest) ↦ unpack_loop f rest (done ++ file ∷ [])
  ]

  -- `UnpackFiles`
  unfoldable pub unpack_files : Bytes → Bool × List Written
  unfolding unpack_loop
  unpack_files blob = unpack_loop (length blob) blob []
