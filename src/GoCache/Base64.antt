-- ===== src/GoCache/Base64.antt =====
-- The base64 round trip.
use corepkgs_v.Prelude.{
  ℕ, zero, suc, ◌+◌, ◌*◌, ◌/◌, ◌%◌, ◌<◌, ◌≡◌, ◌≢◌, refl, sym, ap, ◌∙◌, [], ◌∷◌, ◌++◌, append_assoc,
  append-nil, arith, Bytes, IsBytes, length, length-append,
}
use corepkgs_v.GoCache.{
  sextet_char, Bits, encode_byte, encode_loop, pad, last_sextet, base64_encode,
}

abbrev pub ready : Bytes → Bits
ready out = record { acc = 0; bits = 0; out = out }

abbrev with_char : ℕ → Bytes → ℕ → ℕ → Bits
with_char bits out acc d = record { acc = acc; bits = bits; out = out ++ sextet_char d ∷ [] }

-- The three states of the encoder within a group.
encode_first :
    (a : ℕ) (out : Bytes) → a < 256 → encode_byte (ready out) a ≡ with_char 2 out (a % 4) (a / 4)
unfolding encode_byte
encode_first a out h = λ i. with_char 2 out (kept i) (sent i)
  where
    kept : (0 * 256 + a) % 4 ≡ a % 4
    kept = omega arith

    sent : (0 * 256 + a) / 4 % 64 ≡ a / 4
    sent = omega arith

encode_second :
    (r b : ℕ) (out : Bytes)
    → r < 4
    → b < 256
    → encode_byte (record { acc = r; bits = 2; out = out }) b
      ≡ with_char 4 out (b % 16) (r * 16 + b / 16)
unfolding encode_byte
encode_second r b out hr h = λ i. with_char 4 out (kept i) (sent i)
  where
    kept : (r * 256 + b) % 16 ≡ b % 16
    kept = omega arith

    sent : (r * 256 + b) / 16 % 64 ≡ r * 16 + b / 16
    sent = omega arith

encode_third :
    (r c : ℕ) (out : Bytes)
    → r < 16
    → c < 256
    → encode_byte (record { acc = r; bits = 4; out = out }) c
      ≡ ready ((out ++ sextet_char (r * 4 + c / 64) ∷ []) ++ sextet_char (c % 64) ∷ [])
unfolding encode_byte
encode_third r c out hr h = λ i. record {
  acc = zeroed i;
  bits = 0;
  out = (out ++ sextet_char (high i) ∷ []) ++ sextet_char (low i) ∷ [];
}
  where
    zeroed : (r * 256 + c) % 1 ≡ 0
    zeroed = omega arith

    high : (r * 256 + c) / 64 % 64 ≡ r * 4 + c / 64
    high = omega arith

    low : (r * 256 + c) / 1 % 64 ≡ c % 64
    low = omega arith

-- RFC 4648: three bytes as four characters.
abbrev pub group : ℕ → ℕ → ℕ → Bytes → Bytes
group a b c s =
    sextet_char (a / 4)
    ∷ sextet_char (a % 4 * 16 + b / 16)
    ∷ sextet_char (b % 16 * 4 + c / 64)
    ∷ sextet_char (c % 64)
    ∷ s

-- RFC 4648: the whole text, padded to a multiple of four characters.
unfoldable pub base64 : Bytes → Bytes
base64 [] = []
base64 (a ∷ []) = sextet_char (a / 4) ∷ sextet_char (a % 4 * 16) ∷ b'=' ∷ b'=' ∷ []
base64 (a ∷ b ∷ []) =
    sextet_char (a / 4) ∷ sextet_char (a % 4 * 16 + b / 16) ∷ sextet_char (b % 16 * 4) ∷ b'=' ∷ []
base64 (a ∷ b ∷ c ∷ s) = group a b c (base64 s)

-- The same without the padding.
unpadded : Bytes → Bytes
unpadded [] = []
unpadded (a ∷ []) = sextet_char (a / 4) ∷ sextet_char (a % 4 * 16) ∷ []
unpadded (a ∷ b ∷ []) =
    sextet_char (a / 4) ∷ sextet_char (a % 4 * 16 + b / 16) ∷ sextet_char (b % 16 * 4) ∷ []
unpadded (a ∷ b ∷ c ∷ s) = group a b c (unpadded s)

encode_group :
    (a b c : ℕ) (s out : Bytes)
    → a < 256
    → b < 256
    → c < 256
    → encode_loop (ready out) (a ∷ b ∷ c ∷ s) ≡ encode_loop (ready (out ++ group a b c [])) s
unfolding encode_loop
encode_group a b c s out ha hb hc =
    rw
      (
        encode_first a out ha,
        encode_second (a % 4) b _ (omega arith) hb,
        encode_third (b % 16) c _ (omega arith) hc,
      )
      (simp append_assoc)

encode_one :
    (a : ℕ) (out : Bytes)
    → a < 256
    → last_sextet (encode_loop (ready out) (a ∷ []))
      ≡ (out ++ sextet_char (a / 4) ∷ []) ++ sextet_char (a % 4 * 16 % 64) ∷ []
unfolding encode_loop
encode_one a out h = rw (encode_first a out h) refl

encode_two :
    (a b : ℕ) (out : Bytes)
    → a < 256
    → b < 256
    → last_sextet (encode_loop (ready out) (a ∷ b ∷ [])) ≡ out ++ unpadded (a ∷ b ∷ [])
unfolding encode_loop unpadded
encode_two a b out ha hb =
    rw (encode_first a out ha, encode_second (a % 4) b _ (omega arith) hb)
      (simp append_assoc (
        ap
          (λ d. out ++ sextet_char (a / 4) ∷ sextet_char (a % 4 * 16 + b / 16) ∷ sextet_char d ∷ [])
          (omega arith)))

encode_loop-unpadded :
    (s out : Bytes) → IsBytes s → last_sextet (encode_loop (ready out) s) ≡ out ++ unpadded s
unfolding unpadded
encode_loop-unpadded [] out h = unfold encode_loop in sym (append-nil out)
encode_loop-unpadded (a ∷ []) out h =
    encode_one a out h.0
    ∙ ap (λ d. (out ++ sextet_char (a / 4) ∷ []) ++ sextet_char d ∷ []) (omega arith)
    ∙ append_assoc out (sextet_char (a / 4) ∷ []) (sextet_char (a % 4 * 16) ∷ [])
encode_loop-unpadded (a ∷ b ∷ []) out h = encode_two a b out h.0 h.1.0
encode_loop-unpadded (a ∷ b ∷ c ∷ s) out h =
    ap last_sextet (encode_group a b c s out h.0 h.1.0 h.1.1.0)
    ∙ encode_loop-unpadded s (out ++ group a b c []) h.1.1.1
    ∙ append_assoc out (group a b c []) (unpadded s)

pad_more : (f : ℕ) (out : Bytes) → length out % 4 ≢ 0 → pad (suc f) out ≡ pad f (out ++ b'=' ∷ [])
unfolding pad
pad_more f out h = ground arith

pad_done : (f : ℕ) (out : Bytes) → length out % 4 ≡ 0 → pad f out ≡ out
unfolding pad
pad_done zero out h = refl
pad_done (suc f) out h = ground arith

pad-unpadded : (s out : Bytes) → length out % 4 ≡ 0 → pad 3 (out ++ unpadded s) ≡ out ++ base64 s
unfolding unpadded base64
pad-unpadded [] out h = rw append-nil (pad_done 3 out h)
pad-unpadded (a ∷ []) out h =
    let two = unpadded (a ∷ []) in
    let n = length-append out two in
    let n' = length-append (out ++ two) (b'=' ∷ []) in
    let n'' = length-append ((out ++ two) ++ b'=' ∷ []) (b'=' ∷ []) in
    pad_more 2 (out ++ two) (omega (arith, n))
    ∙ pad_more 1 ((out ++ two) ++ b'=' ∷ []) (omega (arith, n, n'))
    ∙ pad_done 1 (((out ++ two) ++ b'=' ∷ []) ++ b'=' ∷ []) (omega (arith, n, n', n''))
    ∙ simp append_assoc
pad-unpadded (a ∷ b ∷ []) out h =
    let three = unpadded (a ∷ b ∷ []) in
    let n = length-append out three in
    let n' = length-append (out ++ three) (b'=' ∷ []) in
    pad_more 2 (out ++ three) (omega (arith, n))
    ∙ pad_done 2 ((out ++ three) ++ b'=' ∷ []) (omega (arith, n, n'))
    ∙ simp append_assoc
pad-unpadded (a ∷ b ∷ c ∷ s) out h =
    ap (pad 3) (sym (append_assoc out (group a b c []) (unpadded s)))
    ∙ pad-unpadded s (out ++ group a b c []) (omega (arith, length-append out (group a b c [])))
    ∙ append_assoc out (group a b c []) (base64 s)

-- `Base64Encode` is RFC 4648 base64, for every string of bytes below 256: the code's accumulator of pending bits
-- computes the same text as the three-bytes-to-four-characters rule with its padding.
pub base64_encode-base64 : (s : Bytes) → IsBytes s → base64_encode s ≡ base64 s
unfolding base64_encode
base64_encode-base64 s h =
    ap (pad 3) (encode_loop-unpadded s [] h) ∙ pad-unpadded s [] (omega arith)
