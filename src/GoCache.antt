-- ===== src/GoCache.antt =====
-- pkgs/ji/jig/src/gocache_mode.cc: the base64 of Go's cache program protocol.
pub mod Base64
pub mod RoundTrip
pub mod Session
pub mod Stored
use corepkgs_v.Prelude.{
  ℕ, zero, suc, ◌+◌, ◌-◌, ◌*◌, ◌/◌, ◌%◌, ◌^◌, ◌≤◌, ◌<◌, min, max, ◌≡◌, ◌≢◌, refl, sym, ap, ◌∙◌, ◌⊎◌,
  ◌↔◌, inl, inr, Bool, true, false, not, ◌&&◌, ◌||◌, Option, none, some, List, [], ◌∷◌, ◌++◌, map,
  append_assoc, append-nil, arith, ltb, leb, ◌==◌, if◌then◌else◌, ==_iff, Bool-cases, Option-cases,
  Bytes, codes, Lacks, IsBytes, equal, equal_iff, starts_with, starts_with-append,
  eq_of_starts_with, ends_with, find, find_byte, has, contains, find-append, length, take, drop,
  get_elem?, replicate, any, all, All, All-append, length-append, take-append-drop,
  drop-append_length, take-append_length, length-take, length-drop, length-replicate,
}

-- `kAlphabet`
abbrev pub alphabet : Bytes
alphabet = codes "ABCDEFGHIJKLMNOPQRSTUVWXYZabcdefghijklmnopqrstuvwxyz0123456789+/"

abbrev pub invalid : ℕ
invalid = 255

-- The loop of `MakeDecodeTable` from index `i` on.
fill_table : ℕ → Bytes → (ℕ → ℕ) → ℕ → ℕ
fill_table i [] table = table
fill_table i (c ∷ cs) table = fill_table (i + 1) cs (λ d. if d == c then i else table d)

-- `kDecode`
unfoldable pub decode_table : ℕ → ℕ
unfolding fill_table
decode_table = fill_table 0 alphabet (λ _. invalid)

-- `kAlphabet.at(index)`; an index is below 64.
unfoldable pub sextet_char : ℕ → ℕ
sextet_char d = elim (get_elem? alphabet d) [ none ↦ 0 | some c ↦ c ]

-- The variables of both loops. Shifts and masks are divisions and remainders by powers of two.
pub record Bits : Type 0 where
  pub acc : ℕ
  pub bits : ℕ
  pub out : Bytes

-- The inner `while` of the encoder; a round takes six of at most twelve bits.
unfoldable pub take_sextets : ℕ → Bits → Bits
unfolding sextet_char
take_sextets zero b = b
take_sextets (suc f) b =
    let more = take_sextets f (record {
      acc = b.acc;
      bits = b.bits - 6;
      out = b.out ++ sextet_char (b.acc / 2 ^ (b.bits - 6) % 64) ∷ [];
    }) in
    if leb 6 b.bits then more else b

-- One byte of `Base64Encode`
unfoldable pub encode_byte : Bits → ℕ → Bits
unfolding take_sextets
encode_byte b c =
    let b' = take_sextets 2 (record { acc = b.acc * 256 + c; bits = b.bits + 8; out = b.out }) in
    record b' { acc = b'.acc % 2 ^ b'.bits }

unfoldable pub encode_loop : Bits → Bytes → Bits
encode_loop b [] = b
encode_loop b (c ∷ cs) = encode_loop (encode_byte b c) cs

-- `while (out.size() % 4 != 0) out += '='`
unfoldable pub pad : ℕ → Bytes → Bytes
pad zero out = out
pad (suc f) out = let more = pad f (out ++ b'=' ∷ []) in if length out % 4 == 0 then out else more

abbrev pub empty : Bits
empty = record { acc = 0; bits = 0; out = [] }

abbrev pub last_sextet : Bits → Bytes
last_sextet b =
    if ltb 0 b.bits then b.out ++ sextet_char (b.acc * 2 ^ (6 - b.bits) % 64) ∷ [] else b.out

-- `Base64Encode`; three rounds of padding are enough.
unfoldable pub base64_encode : Bytes → Bytes
unfolding encode_loop encode_byte pad
base64_encode bytes = pad 3 (last_sextet (encode_loop empty bytes))

-- One character of `Base64Decode`
unfoldable pub decode_char : Bits → ℕ → Bits
unfolding decode_table
decode_char b c =
    let sextet = decode_table c in
    let acc = b.acc * 64 + sextet in
    let bits = b.bits + 6 in
    if sextet == invalid
    then b
    else if leb 8 bits
    then record {
      acc = acc % 2 ^ (bits - 8);
      bits = bits - 8;
      out = b.out ++ (acc / 2 ^ (bits - 8) % 256) ∷ [];
    }
    else record { acc = acc % 2 ^ bits; bits = bits; out = b.out }

unfoldable pub decode_loop : Bits → Bytes → Bits
decode_loop b [] = b
decode_loop b (c ∷ cs) = decode_loop (decode_char b c) cs

-- `Base64Decode`
unfoldable pub base64_decode : Bytes → Bytes
unfolding decode_loop decode_char
base64_decode text = (decode_loop empty text).out
