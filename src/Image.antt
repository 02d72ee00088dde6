-- ===== src/Image.antt =====
-- `BinaryImage` of pkgs/ji/jig/src/fixup_mode.h and fixup_mode.cc: a binary file in memory, read
-- and patched in place. A value of a trivially copyable type is the list of its bytes.
pub mod Patches
use corepkgs_v.Prelude.{
  ℕ, zero, suc, ◌+◌, ◌-◌, ◌*◌, ◌/◌, ◌%◌, ◌^◌, ◌≤◌, ◌<◌, min, max, ◌≡◌, ◌≢◌, refl, sym, ap, ◌∙◌, ◌⊎◌,
  ◌↔◌, inl, inr, Bool, true, false, not, ◌&&◌, ◌||◌, Option, none, some, List, [], ◌∷◌, ◌++◌, map,
  append_assoc, append-nil, arith, ltb, leb, ◌==◌, if◌then◌else◌, ==_iff, Bool-cases, Option-cases,
  Bytes, codes, Lacks, IsBytes, equal, equal_iff, starts_with, starts_with-append,
  eq_of_starts_with, ends_with, find, find_byte, has, contains, find-append, length, take, drop,
  get_elem?, replicate, any, all, All, All-append, length-append, take-append-drop,
  drop-append_length, take-append_length, length-take, length-drop, length-replicate,
}

pub record Image : Type 0 where
  pub bytes : Bytes

-- `offset > bytes_.size() || bytes_.size() - offset < size`
abbrev pub outside : Image → ℕ → ℕ → Bool
outside image offset size =
    ltb (length image.bytes) offset || ltb (length image.bytes - offset) size

-- `Read<T>`, for a type of the given size
unfoldable pub read : Image → ℕ → ℕ → Option Bytes
read image offset size =
    if outside image offset size then none else some (take size (drop offset image.bytes))

-- `std::string::replace(offset, count, text)` within the text
abbrev pub replaced : Bytes → ℕ → ℕ → Bytes → Bytes
replaced bytes offset count text = take offset bytes ++ (text ++ drop (offset + count) bytes)

-- `Write<T>` of a value's bytes
unfoldable pub write : Image → ℕ → Bytes → Image × Bool
write image offset value =
    if outside image offset (length value)
    then (image, false)
    else (record { bytes = replaced image.bytes offset (length value) value }, true)

-- The bytes before the first NUL, all if there is none.
unfoldable pub until_nul : Bytes → Bytes
until_nul [] = []
until_nul (c ∷ s) = let rest = until_nul s in if c == 0 then [] else c ∷ rest

-- `CString`
unfoldable pub c_string : Image → ℕ → Bytes
unfolding until_nul
c_string image offset =
    if leb (length image.bytes) offset then [] else until_nul (drop offset image.bytes)

-- `WritePadded`
unfoldable pub write_padded : Image → ℕ → ℕ → Bytes → Image × Bool
write_padded image offset capacity text =
    if ltb capacity (length text + 1) || outside image offset capacity then (image, false) else (
      record {
        bytes = replaced image.bytes offset capacity (text ++ replicate (capacity - length text) 0);
      },
      true,
    )

-- `Overwrite`
unfoldable pub overwrite : Image → ℕ → Bytes → Image × Bool
overwrite image offset bytes =
    if outside image offset (length bytes)
    then (image, false)
    else (record { bytes = replaced image.bytes offset (length bytes) bytes }, true)

-- `IsElf64LittleEndian`: "\x7fELF", ELFCLASS64 and ELFDATA2LSB
unfoldable pub is_elf64_little_endian : Image → Bool
unfolding starts_with
is_elf64_little_endian image =
    starts_with image.bytes (0x7f ∷ b'E' ∷ b'L' ∷ b'F' ∷ [])
    && ltb 5 (length image.bytes)
    && (elim (get_elem? image.bytes 4) [ none ↦ false | some c ↦ c == 2 ])
    && (elim (get_elem? image.bytes 5) [ none ↦ false | some c ↦ c == 1 ])
