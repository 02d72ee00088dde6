-- ===== src/Tests/Image.antt =====
-- pkgs/ji/jig/src/binary_image.h
use corepkgs_v.Prelude.{◌+◌, ◌≤◌, ◌<◌, ◌≡◌, refl, ◌⊎◌, true, false, arith, codes, length}
use corepkgs_v.Image.{Image, c_string, write_padded}
use corepkgs_v.Image.Patches.{SameElsewhere, write_padded_lem}

abbrev image : Image
image = record { bytes = codes "xx/lib/ld\0\0yy" }

write_padded_lem_example :
    let (after, written) = write_padded image 2 9 (codes "/lib64/l") in
    ((written ≡ true)
      × (8 < 9)
      × (2 + 9 ≤ length image.bytes)
      × (c_string after 2 ≡ codes "/lib64/l")
      × SameElsewhere 2 9 image.bytes after.bytes)
    ⊎ ((written ≡ false) × ((9 ≤ 8) ⊎ (length image.bytes < 2 + 9)) × (after ≡ image))
write_padded_lem_example = write_padded_lem image 2 9 (codes "/lib64/l") (omega arith)

patched :
    (c_string (write_padded image 2 9 (codes "/lib64/l")).0 2 ≡ codes "/lib64/l")
    × ((write_padded image 2 9 (codes "/lib64/ld")).1 ≡ false)
unfolding write_padded c_string
patched = (refl, refl)
