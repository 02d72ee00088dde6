-- ===== src/GoCache/RoundTrip.antt =====
-- `Base64Decode` reads back what `Base64Encode` writes.
use corepkgs_v.Prelude.{
  ℕ, zero, suc, ◌+◌, ◌-◌, ◌*◌, ◌/◌, ◌%◌, ◌^◌, ◌≤◌, ◌<◌, ◌≡◌, refl, sym, ap, ◌∙◌, Bool, true, false,
  inl, inr, Bool-cases, if◌then◌else◌, [], ◌∷◌, ◌++◌, append_assoc, append-nil, arith, ◌==◌, ==_iff,
  Bytes, IsBytes,
}
use corepkgs_v.GoCache.{
  decode_table, sextet_char, Bits, base64_encode, decode_char, decode_loop, base64_decode,
}
use corepkgs_v.GoCache.Base64.{ready, group, base64, base64_encode-base64}

holds_under : (ℕ → Bool) → ℕ → Bool
holds_under test zero = true
holds_under test (suc limit) = if test limit then holds_under test limit else false

-- A test that was run on every number under the limit holds of each of them.
at_each :
    (test : ℕ → Bool) (limit d : ℕ) → d < limit → holds_under test limit ≡ true → test d ≡ true
unfolding holds_under
at_each test zero d lt run = absurd (omega arith)
at_each test (suc limit) d lt run = elim (Bool-cases (test limit)) [
  | inr fails ↦ absurd (ground arith)
  | inl passes ↦ elim (Bool-cases (d == limit)) [
    | inl last ↦ ap test ((==_iff d limit).0 last) ∙ passes
    | inr other ↦ at_each test limit d (ground arith) (ground arith)
  ]
]

sextet_table : holds_under (λ d. decode_table (sextet_char d) == d) 64 ≡ true
unfolding holds_under decode_table sextet_char
sextet_table = refl

decode-sextet_char : (d : ℕ) → d < 64 → decode_table (sextet_char d) ≡ d
decode-sextet_char d h = (==_iff _ d).0 (at_each _ 64 d h sextet_table)

-- The decoder on a character of the alphabet, when no byte is complete yet and when one is.
decode_pending :
    (acc bits d : ℕ) (out : Bytes)
    → d < 64
    → bits < 2
    → decode_char (record { acc = acc; bits = bits; out = out }) (sextet_char d)
      ≡ record { acc = (acc * 64 + d) % 2 ^ (bits + 6); bits = bits + 6; out = out }
unfolding decode_char
decode_pending acc bits d out h lt = rw (decode-sextet_char d h) (ground arith)

decode_complete :
    (acc bits d : ℕ) (out : Bytes)
    → d < 64
    → 2 ≤ bits
    → decode_char (record { acc = acc; bits = bits; out = out }) (sextet_char d) ≡ record {
      acc = (acc * 64 + d) % 2 ^ (bits + 6 - 8);
      bits = bits + 6 - 8;
      out = out ++ ((acc * 64 + d) / 2 ^ (bits + 6 - 8) % 256) ∷ [];
    }
unfolding decode_char
decode_complete acc bits d out h le = rw (decode-sextet_char d h) (ground arith)

decode_pad : (b : Bits) → decode_char b b'=' ≡ b
unfolding decode_char decode_table
decode_pad b = refl

-- The decoder behind two, three and four characters of a group.
decode_two :
    (d e : ℕ) (s out : Bytes)
    → d < 64
    → e < 64
    → decode_loop (ready out) (sextet_char d ∷ sextet_char e ∷ s)
      ≡ decode_loop (record { acc = e % 16; bits = 4; out = out ++ (d * 4 + e / 16) ∷ [] }) s
unfolding decode_loop
decode_two d e s out hd he =
    rw
      (
        decode_pending 0 0 d out hd (omega arith),
        decode_complete ((0 * 64 + d) % 64) 6 e out he (omega arith),
      )
      (λ i. decode_loop (record { acc = kept i; bits = 4; out = out ++ (sent i) ∷ [] }) s)
  where
    kept : ((0 * 64 + d) % 64 * 64 + e) % 16 ≡ e % 16
    kept = omega arith

    sent : ((0 * 64 + d) % 64 * 64 + e) / 16 % 256 ≡ d * 4 + e / 16
    sent = omega arith

decode_third :
    (r d : ℕ) (s out : Bytes)
    → r < 16
    → d < 64
    → decode_loop (record { acc = r; bits = 4; out = out }) (sextet_char d ∷ s)
      ≡ decode_loop (record { acc = d % 4; bits = 2; out = out ++ (r * 16 + d / 4) ∷ [] }) s
unfolding decode_loop
decode_third r d s out hr hd =
    rw (decode_complete r 4 d out hd (omega arith))
      (λ i. decode_loop (record { acc = kept i; bits = 2; out = out ++ (sent i) ∷ [] }) s)
  where
    kept : (r * 64 + d) % 4 ≡ d % 4
    kept = omega arith

    sent : (r * 64 + d) / 4 % 256 ≡ r * 16 + d / 4
    sent = omega arith

decode_fourth :
    (r d : ℕ) (s out : Bytes)
    → r < 4
    → d < 64
    → decode_loop (record { acc = r; bits = 2; out = out }) (sextet_char d ∷ s)
      ≡ decode_loop (ready (out ++ (r * 64 + d) ∷ [])) s
unfolding decode_loop
decode_fourth r d s out hr hd =
    rw (decode_complete r 2 d out hd (omega arith))
      (λ i. decode_loop (record { acc = kept i; bits = 0; out = out ++ (sent i) ∷ [] }) s)
  where
    kept : (r * 64 + d) % 1 ≡ 0
    kept = omega arith

    sent : (r * 64 + d) / 1 % 256 ≡ r * 64 + d
    sent = omega arith

bytes_eq : (out : Bytes) (x y : ℕ) → x ≡ y → out ++ x ∷ [] ≡ out ++ y ∷ []
bytes_eq out x y e = ap (λ z. out ++ z ∷ []) e

decode_group :
    (a b c : ℕ) (s out : Bytes)
    → a < 256
    → b < 256
    → c < 256
    → decode_loop (ready out) (group a b c s) ≡ decode_loop (ready (out ++ a ∷ b ∷ c ∷ [])) s
decode_group a b c s out ha hb hc =
    decode_two (a / 4) (a % 4 * 16 + b / 16) _ out (omega arith) (omega arith)
    ∙ decode_third _ (b % 16 * 4 + c / 64) _ _ (omega arith) (omega arith)
    ∙ decode_fourth _ (c % 64) s _ (omega arith) (omega arith)
    ∙ (λ i. decode_loop (ready (((out ++ (first i) ∷ []) ++ (second i) ∷ []) ++ (third i) ∷ [])) s)
    ∙ ap (λ o. decode_loop (ready o) s) (simp append_assoc)
  where
    first : a / 4 * 4 + (a % 4 * 16 + b / 16) / 16 ≡ a
    first = omega arith

    second : (a % 4 * 16 + b / 16) % 16 * 16 + (b % 16 * 4 + c / 64) / 4 ≡ b
    second = omega arith

    third : (b % 16 * 4 + c / 64) % 4 * 64 + c % 64 ≡ c
    third = omega arith

decode_loop_pad : (b : Bits) (s : Bytes) → decode_loop b (b'=' ∷ s) ≡ decode_loop b s
unfolding decode_loop
decode_loop_pad b s = rw (decode_pad b)

decode_loop_end : (b : Bits) → decode_loop b [] ≡ b
unfolding decode_loop
decode_loop_end b = refl

decode_one :
    (a : ℕ) (out : Bytes)
    → a < 256
    → (decode_loop (ready out) (base64 (a ∷ []))).out ≡ out ++ a ∷ []
unfolding base64
decode_one a out h =
    ap (λ (b : Bits). b.out)
      (decode_two (a / 4) (a % 4 * 16) (b'=' ∷ b'=' ∷ []) out (omega arith) (omega arith)
        ∙ decode_loop_pad _ (b'=' ∷ [])
        ∙ decode_loop_pad _ []
        ∙ decode_loop_end _)
    ∙ bytes_eq out _ a (omega arith)

decode_pair :
    (a b : ℕ) (out : Bytes)
    → a < 256
    → b < 256
    → (decode_loop (ready out) (base64 (a ∷ b ∷ []))).out ≡ out ++ a ∷ b ∷ []
unfolding base64
decode_pair a b out ha hb =
    ap (λ (b : Bits). b.out)
      (decode_two (a / 4) (a % 4 * 16 + b / 16) _ out (omega arith) (omega arith)
        ∙ decode_third _ (b % 16 * 4) (b'=' ∷ []) _ (omega arith) (omega arith)
        ∙ decode_loop_pad _ []
        ∙ decode_loop_end _)
    ∙ (λ i. (out ++ (first i) ∷ []) ++ (second i) ∷ [])
    ∙ append_assoc out (a ∷ []) (b ∷ [])
  where
    first : a / 4 * 4 + (a % 4 * 16 + b / 16) / 16 ≡ a
    first = omega arith

    second : (a % 4 * 16 + b / 16) % 16 * 16 + b % 16 * 4 / 4 ≡ b
    second = omega arith

decode_loop-base64 :
    (s out : Bytes) → IsBytes s → (decode_loop (ready out) (base64 s)).out ≡ out ++ s
unfolding base64
decode_loop-base64 [] out h = unfold decode_loop in sym (append-nil out)
decode_loop-base64 (a ∷ []) out h = decode_one a out h.0
decode_loop-base64 (a ∷ b ∷ []) out h = decode_pair a b out h.0 h.1.0
decode_loop-base64 (a ∷ b ∷ c ∷ s) out h =
    ap (λ (b : Bits). b.out) (decode_group a b c (base64 s) out h.0 h.1.0 h.1.1.0)
    ∙ decode_loop-base64 s (out ++ a ∷ b ∷ c ∷ []) h.1.1.1
    ∙ append_assoc out (a ∷ b ∷ c ∷ []) s

-- `Base64Decode` of what `Base64Encode` makes of a string of bytes, each below 256, is that string.
pub base64_decode-base64_encode : (s : Bytes) → IsBytes s → base64_decode (base64_encode s) ≡ s
unfolding base64_decode
base64_decode-base64_encode s h = rw (base64_encode-base64 s h) (decode_loop-base64 s [] h)
