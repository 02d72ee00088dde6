-- ===== src/Rustc/Unpacked.antt =====
-- `UnpackFiles` of pkgs/ji/jig/src/rustc_mode.cc on any blob, and on the blobs of `PackFiles`.
use corepkgs_v.Prelude.{
  ℕ, zero, suc, ◌-◌, ◌%◌, ◌^◌, ◌≤◌, ◌<◌, ◌≡◌, ◌≢◌, refl, sym, ap, ◌∙◌, inl, inr, Bool, true, false,
  none, some, List, [], ◌∷◌, ◌++◌, append_assoc, append-nil, arith, ltb, Option-cases, Bytes, Lacks,
  find_byte, find_byte-first, length, drop, All, All-append, length-append, drop-append_length,
  take-append_length, length-drop,
}
use native.Mathlib.Nat.{mod-lt, mod-eq_of_lt}
use corepkgs_v.Text.{print_uint, replace_all}
use corepkgs_v.Text.Split.{IsPart, split-three}
use corepkgs_v.Text.Numbers.{print_uint-Lacks, print_uint-ne-nil, parse_uint-print_uint}
use corepkgs_v.FilePath.{filename, append}
use corepkgs_v.Rustc.Pack.{
  Disk, Written, permission_bits, placeholder, head_line, packed_file, pack_files, parse_head,
  unpack_file, unpack_step, unpack_loop, unpack_files,
}

-- Where a match is found.
length-find_byte :
    (b : ℕ) (s before at : Bytes)
    → find_byte b s ≡ some (before, at)
    → (0 < length at) × (length at ≤ length s)
unfolding find_byte
length-find_byte b [] before at h = ground arith
length-find_byte b (c ∷ s) before at h = elim (Option-cases (find_byte b s)) [
  | inl e ↦ ground arith
  | inr (r, e) ↦ ground (arith, length-find_byte b s r.0 r.1 e)
]

digits-IsPart : (base n : ℕ) → 2 ≤ base → base ≤ 10 → IsPart b' ' (print_uint base n)
digits-IsPart base n two ten =
    (print_uint-Lacks base two ten b' ' n (inl (omega arith)), print_uint-ne-nil base two ten n)

-- A head line is read as what it was printed of.
parse_head-head_line :
    (name : Bytes) (mode size : ℕ)
    → IsPart b' ' name
    → mode < 2 ^ 64
    → size < 2 ^ 64
    → parse_head (head_line name mode size) ≡ some (name, (mode, size))
unfolding parse_head head_line
parse_head-head_line name mode size h hm hs =
    rw
      (
        parse_head,
        split-three b' ' name (print_uint 8 mode) (print_uint 10 size) h
            (digits-IsPart 8 mode (omega arith) (omega arith))
            (digits-IsPart 10 size (omega arith) (omega arith)),
        parse_uint-print_uint 8 mode (omega arith) (omega arith) hm,
        parse_uint-print_uint 10 size (omega arith) (omega arith) hs,
      )
      refl

head_line-Lacks :
    (name : Bytes) (mode size : ℕ) → Lacks b'\n' name → Lacks b'\n' (head_line name mode size)
unfolding head_line
head_line-Lacks name mode size h =
    All-append (λ c. c ≢ b'\n') name _ h
      (
        omega arith,
        All-append (λ c. c ≢ b'\n') (print_uint 8 mode) _
            (print_uint-Lacks 8 (omega arith) (omega arith) b'\n' mode (inl (omega arith)))
            (
              omega arith,
              print_uint-Lacks 10 (omega arith) (omega arith) b'\n' size (inl (omega arith)),
            ),
      )

less_one : (f : ℕ) → suc f - 1 ≡ f
less_one f = omega arith

module _ (can_write : Bytes → Bool) (dir stem : Bytes) where
  length-unpack_file :
      (line after : Bytes) (file : Written) (rest : Bytes)
      → unpack_file can_write dir stem line after ≡ some (file, rest)
      → length rest ≤ length after
  unfolding unpack_file
  length-unpack_file line after file rest h = elim (Option-cases (parse_head line)) [
    | inl e ↦ absurd (ground arith)
    | inr (r, e) ↦ ground (arith, length-drop r.1.1 after)
  ]

  -- A round leaves less of the blob.
  length-unpack_step :
      (blob : Bytes) (file : Written) (rest : Bytes)
      → unpack_step can_write dir stem blob ≡ some (file, rest)
      → length rest < length blob
  unfolding unpack_step
  length-unpack_step blob file rest h = elim (Option-cases (find_byte b'\n' blob)) [
    | inl e ↦ absurd (ground arith)
    | inr (r, e) ↦
        let found = length-find_byte b'\n' blob r.0 r.1 e in
        let less = length-unpack_file r.0 (drop 1 r.1) file rest (simp (unpack_step, e) at h) in
        omega (arith, found.0, found.1, less, length-drop 1 r.1)
  ]

  -- Fuel as long as the blob is enough: on every blob, the loop comes to the same end with any more
  -- of it.
  pub unpack_loop_enough :
      (f g : ℕ) (blob : Bytes) (done : List Written)
      → length blob ≤ f
      → length blob ≤ g
      → unpack_loop can_write dir stem f blob done ≡ unpack_loop can_write dir stem g blob done
  unfolding unpack_loop
  unpack_loop_enough zero zero blob done hf hg = refl
  unpack_loop_enough (suc f) zero [] done hf hg = refl
  unpack_loop_enough zero (suc g) [] done hf hg = refl
  unpack_loop_enough (suc f) zero (c ∷ blob) done hf hg = absurd (omega arith)
  unpack_loop_enough zero (suc g) (c ∷ blob) done hf hg = absurd (omega arith)
  unpack_loop_enough (suc f) (suc g) [] done hf hg = refl
  unpack_loop_enough (suc f) (suc g) (c ∷ blob) done hf hg =
      elim (Option-cases (unpack_step can_write dir stem (c ∷ blob))) [
        | inl e ↦ rw (e, unpack_loop) refl
        | inr ((file, rest), e) ↦
            let less = length-unpack_step (c ∷ blob) file rest e in
            rw (e, unpack_loop)
              (unpack_loop_enough f g rest (done ++ file ∷ []) (omega arith) (omega arith))
      ]

  unpack_loop-step :
      (f : ℕ) (blob : Bytes) (done : List Written) (file : Written) (rest : Bytes)
      → length blob ≤ f
      → unpack_step can_write dir stem blob ≡ some (file, rest)
      → (unpack_loop can_write dir stem f blob done
          ≡ unpack_loop can_write dir stem (f - 1) rest (done ++ file ∷ []))
        × (length rest ≤ f - 1)
  unfolding unpack_loop
  unpack_loop-step f [] done file rest hf h =
      absurd (omega (arith, length-unpack_step [] file rest h))
  unpack_loop-step zero (c ∷ blob) done file rest hf h = absurd (omega arith)
  unpack_loop-step (suc f) (c ∷ blob) done file rest hf h = (
    rw (h, unpack_loop)
        (ap (λ k. unpack_loop can_write dir stem k rest (done ++ file ∷ [])) (sym (less_one f))),
    omega (arith, length-unpack_step (c ∷ blob) file rest h),
  )

  unpack_step-packed :
      (name : Bytes) (mode : ℕ) (bytes rest : Bytes)
      → IsPart b' ' name
      → Lacks b'\n' name
      → mode < 512
      → length bytes < 2 ^ 64
      → can_write (append dir (replace_all name placeholder stem)) ≡ true
      → unpack_step can_write dir stem (packed_file name mode bytes ++ rest)
        ≡ some (
          record {
            path = append dir (replace_all name placeholder stem);
            mode = mode;
            bytes = bytes;
          },
          rest,
        )
  unfolding unpack_step unpack_file
  unpack_step-packed name mode bytes rest hp hn hm hs writes =
      let whole = append_assoc (head_line name mode (length bytes)) (b'\n' ∷ bytes) rest in
      let same_mode : mode % 4096 ≡ mode = mod-eq_of_lt (omega arith) in
      let long_enough : ltb (length (bytes ++ rest)) (length bytes) ≡ false =
        ground (arith, length-append bytes rest) in
      rw
        (
          whole,
          unpack_step,
          find_byte-first b'\n' (head_line name mode (length bytes)) (bytes ++ rest)
              (head_line-Lacks name mode (length bytes) hn),
          unpack_file,
          parse_head-head_line name mode (length bytes) hp (omega arith) hs,
          long_enough,
          writes,
          take-append_length bytes rest,
          drop-append_length bytes rest,
          same_mode,
        )
        refl

-- The name under which a crate's file comes back for another metadata stem.
abbrev pub renamed : Bytes → Bytes → Bytes → Bytes
renamed stem later name = replace_all (replace_all name stem placeholder) placeholder later

module _ (can_write : Bytes → Bool) (disk : Disk) (dir stem later : Bytes) where
  -- A file that the blob can hold, and that can be written back.
  pub record IsPackable (path : Bytes) : Type 0 where
    pub part : IsPart b' ' (replace_all (filename path) stem placeholder)
    pub one_line : Lacks b'\n' (replace_all (filename path) stem placeholder)
    pub fits : (bytes : Bytes) → disk.read_file path ≡ some bytes → length bytes < 2 ^ 64
    pub writes : can_write (append dir (renamed stem later (filename path))) ≡ true

  abbrev restored : Bytes → Bytes → Written
  restored path bytes = record {
    path = append dir (renamed stem later (filename path));
    mode = permission_bits (disk.mode_of path);
    bytes = bytes;
  }

  -- The files that a blob stands for.
  unfoldable pub unpacked : List Bytes → List Written
  unpacked [] = []
  unpacked (path ∷ paths) = elim (disk.read_file path) [
    | none ↦ unpacked paths
    | some bytes ↦ restored path bytes ∷ unpacked paths
  ]

  module _ (path : Bytes) (paths : List Bytes) where
    unreadable-packed :
        disk.read_file path ≡ none
        → (pack_files disk stem (path ∷ paths) ≡ pack_files disk stem paths)
          × (unpacked (path ∷ paths) ≡ unpacked paths)
    unfolding pack_files unpacked
    unreadable-packed e = (rw (e, pack_files) refl, rw (e, unpacked) refl)

    readable-packed :
        {bytes : Bytes}
        → disk.read_file path ≡ some bytes
        → (pack_files disk stem (path ∷ paths)
            ≡ packed_file
                (replace_all (filename path) stem placeholder)
                (permission_bits (disk.mode_of path))
                bytes
              ++ pack_files disk stem paths)
          × (unpacked (path ∷ paths) ≡ restored path bytes ∷ unpacked paths)
    unfolding pack_files unpacked
    readable-packed e = (rw (e, pack_files) refl, rw (e, unpacked) refl)

  unpack_loop-packed :
      (f : ℕ) (paths : List Bytes) (done : List Written)
      → All IsPackable paths
      → length (pack_files disk stem paths) ≤ f
      → unpack_loop can_write dir later f (pack_files disk stem paths) done
        ≡ (true, done ++ unpacked paths)
  unpack_loop-packed zero [] done h hf =
      unfold pack_files unpack_loop unpacked in ap (λ d. (true, d)) (sym (append-nil done))
  unpack_loop-packed (suc f) [] done h hf =
      unfold pack_files unpack_loop unpacked in ap (λ d. (true, d)) (sym (append-nil done))
  unpack_loop-packed f (path ∷ paths) done h hf = elim (Option-cases (disk.read_file path)) [
    | inl e ↦
        let (same, none_more) = unreadable-packed path paths e in
        rw (same, none_more) (unpack_loop-packed f paths done h.1 (rw same at hf))
    | inr (bytes, e) ↦
        let (same, one_more) = readable-packed path paths e in
        let step =
          unpack_step-packed can_write dir later (replace_all (filename path) stem placeholder)
            (permission_bits (disk.mode_of path)) bytes (pack_files disk stem paths) h.0.part
            h.0.one_line (mod-lt _ (omega arith)) (h.0.fits bytes e) h.0.writes in
        let (stepped, shorter) =
          unpack_loop-step can_write dir later f _ done _ _ (rw same at hf) step in
        rw (same, one_more)
          (stepped
            ∙ unpack_loop-packed (f - 1) paths (done ++ restored path bytes ∷ []) h.1 shorter
            ∙ ap (λ d. (true, d)) (append_assoc done (restored path bytes ∷ []) (unpacked paths)))
  ]

  -- What `UnpackFiles` writes of a blob of `PackFiles` is every file that could be read when it was
  -- packed, in order, with its bytes and permissions, under its name with the later metadata stem in
  -- place of the packed one; and it comes to the end of the blob. The names that "@" stands in are
  -- not empty and hold no space and no newline, the sizes fit in 64 bits, and each file can be written.
  pub unpack_files-pack_files :
      (paths : List Bytes)
      → All IsPackable paths
      → unpack_files can_write dir later (pack_files disk stem paths) ≡ (true, unpacked paths)
  unfolding unpack_files
  unpack_files-pack_files paths h =
      unpack_loop-packed (length (pack_files disk stem paths)) paths [] h (omega arith)
