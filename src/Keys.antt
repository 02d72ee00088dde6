-- ===== src/Keys.antt =====
-- pkgs/ji/jig/src/keys.h and the `Hasher` of base.cc: how cache keys are made and spelled.
-- BLAKE3 is a parameter: the function that a section or an argument calls `blake3`.
pub mod Frame
use corepkgs_v.Prelude.{
  ℕ, zero, suc, ◌+◌, ◌-◌, ◌*◌, ◌/◌, ◌%◌, ◌^◌, ◌≤◌, ◌<◌, min, max, ◌≡◌, ◌≢◌, refl, sym, ap, ◌∙◌, ◌⊎◌,
  ◌↔◌, inl, inr, Bool, true, false, not, ◌&&◌, ◌||◌, Option, none, some, List, [], ◌∷◌, ◌++◌, map,
  append_assoc, append-nil, arith, ltb, leb, ◌==◌, if◌then◌else◌, ==_iff, Bool-cases, Option-cases,
  Bytes, codes, Lacks, IsBytes, equal, equal_iff, starts_with, starts_with-append,
  eq_of_starts_with, ends_with, find, find_byte, has, contains, find-append, length, take, drop,
  get_elem?, replicate, any, all, All, All-append, length-append, take-append-drop,
  drop-append_length, take-append_length, length-take, length-drop, length-replicate,
}
use corepkgs_v.Text.{hex_encode, print_uint}

-- The bytes that a `Hasher` has been fed.
abbrev pub Hasher : Type 0
Hasher = Bytes

-- `Hasher::Update`
abbrev pub update : Hasher → Bytes → Hasher
update h text = h ++ text

-- `Hasher::Field`: the length in decimal and a colon stand in front.
unfoldable pub field : Hasher → Bytes → Hasher
field h text = update (update h (print_uint 10 (length text) ++ b':' ∷ [])) text

-- `Digest::kBytes`
abbrev pub digest_bytes : ℕ
digest_bytes = 16

-- `Hasher::Finish`: the hexadecimal form of the first bytes of the hash.
unfoldable pub finish : (Bytes → Bytes) → Hasher → Bytes
finish blake3 h = hex_encode (take digest_bytes (blake3 h))

-- `HashOf`
unfoldable pub hash_of : (Bytes → Bytes) → Bytes → Bytes
hash_of blake3 text = finish blake3 (update [] text)

pub data Tool : Type 0 where
  k_cc k_rustc : Tool

-- The text of a `RequestKey` (k1).
unfoldable pub request_key : Tool → Bytes → Bytes
request_key k_cc hex = hex
request_key k_rustc hex = codes "rs/" ++ hex

-- The text of a `ResultKey` (k2) is the digest itself.
abbrev pub result_key : Bytes → Bytes
result_key hex = hex

-- namespace `slot`: what an entry of the server is about.
pub data Slot : Type 0 where
  manifest object stderr depfile exit_status go_action go_output : Bytes → Slot

-- The server's key for it.
unfoldable pub slot_key : Slot → Bytes
slot_key (manifest k) = codes "m/" ++ k
slot_key (object k) = codes "o/" ++ k
slot_key (stderr k) = codes "e/" ++ k
slot_key (depfile k) = codes "d/" ++ k
slot_key (exit_status k) = codes "r/" ++ k
slot_key (go_action k) = codes "go/a/" ++ k
slot_key (go_output k) = codes "go/o/" ++ k
