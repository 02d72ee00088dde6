-- ===== src/NixStore/Sha256.antt =====
-- `Sha256` and its `Compress` of pkgs/ji/jig/src/nix_store_mode.cc: 32-bit words are numbers, with their
-- wrap-around.
use corepkgs_v.Prelude.{
  ℕ, zero, suc, ◌+◌, ◌-◌, ◌*◌, ◌/◌, ◌%◌, ◌^◌, none, some, List, [], ◌∷◌, ◌++◌, leb, if◌then◌else◌,
  Bytes, length, take, drop, get_elem?, replicate,
}
use Prim.Native.Nat.{bit_and, bit_xor}

-- `kRoundConstants`
abbrev round_constants : List ℕ
round_constants =
    0x428a2f98 ∷ 0x71374491 ∷ 0xb5c0fbcf ∷ 0xe9b5dba5 ∷ 0x3956c25b ∷ 0x59f111f1 ∷ 0x923f82a4
    ∷ 0xab1c5ed5 ∷ 0xd807aa98 ∷ 0x12835b01 ∷ 0x243185be ∷ 0x550c7dc3 ∷ 0x72be5d74 ∷ 0x80deb1fe
    ∷ 0x9bdc06a7 ∷ 0xc19bf174 ∷ 0xe49b69c1 ∷ 0xefbe4786 ∷ 0x0fc19dc6 ∷ 0x240ca1cc ∷ 0x2de92c6f
    ∷ 0x4a7484aa ∷ 0x5cb0a9dc ∷ 0x76f988da ∷ 0x983e5152 ∷ 0xa831c66d ∷ 0xb00327c8 ∷ 0xbf597fc7
    ∷ 0xc6e00bf3 ∷ 0xd5a79147 ∷ 0x06ca6351 ∷ 0x14292967 ∷ 0x27b70a85 ∷ 0x2e1b2138 ∷ 0x4d2c6dfc
    ∷ 0x53380d13 ∷ 0x650a7354 ∷ 0x766a0abb ∷ 0x81c2c92e ∷ 0x92722c85 ∷ 0xa2bfe8a1 ∷ 0xa81a664b
    ∷ 0xc24b8b70 ∷ 0xc76c51a3 ∷ 0xd192e819 ∷ 0xd6990624 ∷ 0xf40e3585 ∷ 0x106aa070 ∷ 0x19a4c116
    ∷ 0x1e376c08 ∷ 0x2748774c ∷ 0x34b0bcb5 ∷ 0x391c0cb3 ∷ 0x4ed8aa4a ∷ 0x5b9cca4f ∷ 0x682e6ff3
    ∷ 0x748f82ee ∷ 0x78a5636f ∷ 0x84c87814 ∷ 0x8cc70208 ∷ 0x90befffa ∷ 0xa4506ceb ∷ 0xbef9a3f7
    ∷ 0xc67178f2 ∷ []

-- A state: the eight words of `state` and of `work`.
pub record Words : Type 0 where
  pub w0 : ℕ
  pub w1 : ℕ
  pub w2 : ℕ
  pub w3 : ℕ
  pub w4 : ℕ
  pub w5 : ℕ
  pub w6 : ℕ
  pub w7 : ℕ

-- `kInitialState`
abbrev initial_state : Words
initial_state = record {
  w0 = 0x6a09e667;
  w1 = 0xbb67ae85;
  w2 = 0x3c6ef372;
  w3 = 0xa54ff53a;
  w4 = 0x510e527f;
  w5 = 0x9b05688c;
  w6 = 0x1f83d9ab;
  w7 = 0x5be0cd19;
}

-- `kBlockBytes`
abbrev block_bytes : ℕ
block_bytes = 64

abbrev wrap : ℕ → ℕ
wrap n = n % 2 ^ 32

-- `std::rotr` on 32 bits
abbrev rotr : ℕ → ℕ → ℕ
rotr x n = x / 2 ^ n + x % 2 ^ n * 2 ^ (32 - n)

abbrev word_at : List ℕ → ℕ → ℕ
word_at words i = elim (get_elem? words i) [ none ↦ 0 | some w ↦ w ]

-- The first loop of `Compress`: words with the highest byte first.
unfoldable pub first_words : Bytes → List ℕ
first_words (a ∷ b ∷ c ∷ d ∷ block) = (a * 2 ^ 24 + b * 2 ^ 16 + c * 2 ^ 8 + d) ∷ first_words block
first_words [] = []
first_words (a ∷ []) = []
first_words (a ∷ b ∷ []) = []
first_words (a ∷ b ∷ c ∷ []) = []

-- The word of the schedule behind `schedule`, which has `i` words.
abbrev next_word : List ℕ → ℕ → ℕ
next_word schedule i =
    let x = word_at schedule (i - 15) in
    let y = word_at schedule (i - 2) in
    let s0 = bit_xor (bit_xor (rotr x 7) (rotr x 18)) (x / 2 ^ 3) in
    let s1 = bit_xor (bit_xor (rotr y 17) (rotr y 19)) (y / 2 ^ 10) in
    wrap (word_at schedule (i - 16) + s0 + word_at schedule (i - 7) + s1)

-- The second loop, with the rounds that are left.
unfoldable pub schedule_loop : ℕ → List ℕ → ℕ → List ℕ
schedule_loop zero schedule i = schedule
schedule_loop (suc n) schedule i = schedule_loop n (schedule ++ next_word schedule i ∷ []) (suc i)

-- A round, with its constant and its word.
unfoldable pub round : ℕ → ℕ → Words → Words
round constant word w =
    let s1 = bit_xor (bit_xor (rotr w.w4 6) (rotr w.w4 11)) (rotr w.w4 25) in
    let choose = bit_xor (bit_and w.w4 w.w5) (bit_and (2 ^ 32 - 1 - w.w4) w.w6) in
    let temp1 = wrap (w.w7 + s1 + choose + constant + word) in
    let s0 = bit_xor (bit_xor (rotr w.w0 2) (rotr w.w0 13)) (rotr w.w0 22) in
    let majority = bit_xor (bit_xor (bit_and w.w0 w.w1) (bit_and w.w0 w.w2)) (bit_and w.w1 w.w2) in
    let temp2 = wrap (s0 + majority) in
    record {
      w0 = wrap (temp1 + temp2);
      w1 = w.w0;
      w2 = w.w1;
      w3 = w.w2;
      w4 = wrap (w.w3 + temp1);
      w5 = w.w4;
      w6 = w.w5;
      w7 = w.w6;
    }

-- The loop of the rounds.
unfoldable pub rounds : List ℕ → List ℕ → Words → Words
rounds [] schedule w = w
rounds (constant ∷ constants) [] w = w
rounds (constant ∷ constants) (word ∷ schedule) w =
    rounds constants schedule (round constant word w)

-- The last loop.
abbrev add_words : Words → Words → Words
add_words a b = record {
  w0 = wrap (a.w0 + b.w0);
  w1 = wrap (a.w1 + b.w1);
  w2 = wrap (a.w2 + b.w2);
  w3 = wrap (a.w3 + b.w3);
  w4 = wrap (a.w4 + b.w4);
  w5 = wrap (a.w5 + b.w5);
  w6 = wrap (a.w6 + b.w6);
  w7 = wrap (a.w7 + b.w7);
}

-- `Compress`
unfoldable pub compress_block : Words → Bytes → Words
compress_block state block =
    add_words state (rounds round_constants (schedule_loop 48 (first_words block) 16) state)

-- The loops over blocks, with the number of blocks.
unfoldable pub compress_blocks : ℕ → Words → Bytes → Words
compress_blocks zero state bytes = state
compress_blocks (suc n) state bytes =
    compress_blocks n (compress_block state (take block_bytes bytes)) (drop block_bytes bytes)

-- Bytes of a number, the highest first.
unfoldable pub big_endian : ℕ → ℕ → Bytes
big_endian zero value = []
big_endian (suc n) value = value / 2 ^ (8 * n) % 256 ∷ big_endian n value

-- The tail: what is left, 0x80, zeros and the number of bits.
unfoldable pub tail_blocks : Bytes → ℕ → Bytes
tail_blocks rest size =
    let tail_len = if leb (length rest + 1 + 8) block_bytes then block_bytes else block_bytes * 2 in
    rest
    ++ (0x80 ∷ replicate (tail_len - (length rest + 1 + 8)) 0 ++ big_endian 8 (size * 8 % 2 ^ 64))

unfoldable pub spell_words : Words → Bytes
spell_words w =
    big_endian 4 w.w0
    ++ (big_endian 4 w.w1
        ++ (big_endian 4 w.w2
            ++ (big_endian 4 w.w3
                ++ (big_endian 4 w.w4
                    ++ (big_endian 4 w.w5 ++ (big_endian 4 w.w6 ++ big_endian 4 w.w7))))))

-- `Sha256`
unfoldable pub sha256 : Bytes → Bytes
sha256 bytes =
    let blocks = length bytes / block_bytes in
    let state = compress_blocks blocks initial_state bytes in
    let tail = tail_blocks (drop (blocks * block_bytes) bytes) (length bytes) in
    spell_words (compress_blocks (length tail / block_bytes) state tail)
