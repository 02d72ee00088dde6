-- ===== src/Tests/DirMode.antt =====
-- pkgs/ji/jig/src/dir_mode.cc
use corepkgs_v.Prelude.{◌≡◌, refl, List, [], ◌∷◌, arith, Bytes, codes, starts_with, find, All}
use corepkgs_v.Text.{print_uint, split}
use corepkgs_v.Keys.{finish, hash_of}
use corepkgs_v.DirMode.{
  parse_entries, DirEntry, parse_listing, listing_line, Found, symlink, unreadable, regular, stored,
  listing_of,
}
use corepkgs_v.DirMode.Listing.{IsEntry, entries_of, parse_listing-listing_of}
use corepkgs_v.Tests.Store.{here}

abbrev same_bytes : Bytes → Bytes
same_bytes text = text

abbrev tree : List Found
tree =
    regular 33261 (codes "x") (codes "bin/a b")
    ∷ unreadable (codes "s")
    ∷ symlink (codes "a") (codes "bin/l")
    ∷ []

tree-IsEntry : All IsEntry (entries_of same_bytes here tree)
unfolding hash_of finish corepkgs_v.Text.hex_encode stored find starts_with
tree-IsEntry = (
  record {
    kind = refl;
    mode = omega arith;
    ref = ((refl, (refl, tt)), λ e. absurd (ground arith));
    rel = omega arith;
  },
  (
    record {
      kind = refl;
      mode = omega arith;
      ref = ((refl, tt), λ e. absurd (ground arith));
      rel = omega arith;
    },
    tt,
  ),
)

parse_listing-listing_of_example :
    parse_listing (listing_of same_bytes here tree) ≡ entries_of same_bytes here tree
parse_listing-listing_of_example = parse_listing-listing_of same_bytes here tree tree-IsEntry

tree_listing : listing_of same_bytes here tree ≡ codes "f 755 78\tbin/a b\nl 0 a\tbin/l\n"
unfolding listing_of corepkgs_v.DirMode.listing_line print_uint hash_of finish
    corepkgs_v.Text.hex_encode stored find starts_with
tree_listing = refl

-- A link whose target holds a blank is listed, and no entry is read back.
lost_link :
    (listing_of same_bytes here (symlink (codes "a b") (codes "c") ∷ []) ≡ codes "l 0 a b\tc\n")
    × (parse_listing (codes "l 0 a b\tc\n") ≡ [])
unfolding listing_of listing_line parse_listing parse_entries split corepkgs_v.DirMode.parse_entry
lost_link = (refl, refl)
