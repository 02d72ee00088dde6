-- ===== src/Tests/Store.antt =====
-- pkgs/ji/jig/src/store.cc
use corepkgs_v.Prelude.{
  ◌≡◌, refl, true, some, [], ◌∷◌, ◌++◌, arith, Bytes, codes, equal, starts_with, find, find_byte,
  contains, length,
}
use corepkgs_v.Store.Names.{resolve-mask_hashes}
use corepkgs_v.Store.{is_store_hash, lookup}
use corepkgs_v.Store.{Store, mask_hashes, mask_out, unmask_out}
use corepkgs_v.Store.Resolve.{resolve}
use corepkgs_v.Store.OwnHash.{IsOwn, unmask_out-mask_out, length-mask_out}

abbrev pub own_hash : Bytes
own_hash = codes "0123456789abcdfghijklmnpqrsvwxyz"

abbrev pub here : Store
here = record {
  dir = codes "/nix/store";
  by_content = true;
  out = codes "/nix/store/0123456789abcdfghijklmnpqrsvwxyz-a";
  out_hash = own_hash;
  masked_to_real =
      (codes "/nix/store/*-zlib", codes "/nix/store/0123456789abcdfghijklmnpqrsvwxyz-zlib") ∷ [];
  known_ids = [];
}

pub here-IsOwn : IsOwn here
here-IsOwn = record { dashless_dir = omega arith; hash_length = refl }

abbrev message : Bytes
message = codes "in /nix/store/0123456789abcdfghijklmnpqrsvwxyz-a/x"

unmask_out-mask_out_example : unmask_out here (mask_out here message) ≡ message
unfolding contains find starts_with
unmask_out-mask_out_example = unmask_out-mask_out here here-IsOwn message refl

length-mask_out_example : length (mask_out here message) ≡ length message
length-mask_out_example = length-mask_out here here-IsOwn message

masked :
    mask_hashes
      (codes "/nix/store")
      (codes "-I/nix/store/0123456789abcdfghijklmnpqrsvwxyz-zlib/include")
    ≡ codes "-I/nix/store/*-zlib/include"
unfolding mask_hashes find starts_with
masked = refl

resolved :
    resolve here (codes "/nix/store/*-zlib/zlib.h")
    ≡ some (codes "/nix/store/0123456789abcdfghijklmnpqrsvwxyz-zlib/zlib.h")
unfolding resolve starts_with equal find_byte
resolved = refl

-- A store path right behind another prefix is missed.
missed :
    mask_hashes
      (codes "/nix/store")
      (codes "/nix/store//nix/store/0123456789abcdfghijklmnpqrsvwxyz-z")
    ≡ codes "/nix/store//nix/store/0123456789abcdfghijklmnpqrsvwxyz-z"
unfolding mask_hashes find starts_with
missed = refl

resolve-mask_hashes_example :
    resolve here (
      mask_hashes here.dir (
        (here.dir ++ codes "/")
        ++ (codes "zyxwvsrqpnmlkjihgfdcba9876543210"
            ++ (b'-' ∷ (codes "zlib" ++ codes "/zlib.h")))))
    ≡ some (codes "/nix/store/0123456789abcdfghijklmnpqrsvwxyz-zlib" ++ codes "/zlib.h")
unfolding is_store_hash find starts_with lookup equal
resolve-mask_hashes_example =
    resolve-mask_hashes here (codes "zlib") (codes "/zlib.h")
      (codes "/nix/store/0123456789abcdfghijklmnpqrsvwxyz-zlib") (omega arith) refl
      (codes "zyxwvsrqpnmlkjihgfdcba9876543210") refl refl refl
