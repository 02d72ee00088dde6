-- ===== src/Text/Tokens.antt =====
-- `TokenizeGnu` of pkgs/ji/jig/src/base.cc reads back words from any spelling of a response file.
use corepkgs_v.Prelude.{
  ℕ, ◌≡◌, refl, sym, ap, ◌∙◌, Bool, true, false, List, [], ◌∷◌, ◌++◌, map, append_assoc, append-nil,
  arith, ◌==◌, if◌then◌else◌, Bytes, All,
}
use corepkgs_v.Text.{Tokenizer, is_space, add_byte, end_word, token_byte, token_loop, tokenize_gnu}
use corepkgs_v.Text.Spelling.{
  is_quote, Letter, plain, escaped, byte_of, Piece, bare, quoted, letters, piece, meaning, pieces,
  word_of, IsInside, IsPiece, Spelled, IsGap, IsSpelled, text_of, words_of, last_word,
}

abbrev outside : List Bytes → Bytes → Bool → Tokenizer
outside out w b = record { out = out; word = w; in_word = b; quote = 0 }

abbrev inside : ℕ → List Bytes → Bytes → Tokenizer
inside q out w = record { out = out; word = w; in_word = true; quote = q }

token_loop-plain :
    (t : Tokenizer) (c : ℕ) (rest : Bytes)
    → (c == b'\\') ≡ false
    → token_loop t (c ∷ rest) ≡ token_loop (token_byte t c) rest
unfolding token_loop
token_loop-plain t c [] e = refl
token_loop-plain t c (d ∷ rest) e = rw (e, token_loop) refl

token_loop-escaped :
    (t : Tokenizer) (c : ℕ) (rest : Bytes)
    → token_loop t (b'\\' ∷ c ∷ rest) ≡ token_loop (add_byte t c) rest
unfolding token_loop
token_loop-escaped t c rest = refl

token_byte-bare :
    (out : List Bytes) (w : Bytes) (b : Bool) (c : ℕ)
    → is_space c ≡ false
    → is_quote c ≡ false
    → token_byte (outside out w b) c ≡ outside out (w ++ c ∷ []) true
unfolding token_byte
token_byte-bare out w b c s q = rw (q, s, token_byte) refl

token_byte-inside :
    (q : ℕ) (out : List Bytes) (w : Bytes) (c : ℕ)
    → is_quote q ≡ true
    → (c == q) ≡ false
    → token_byte (inside q out w) c ≡ inside q out (w ++ c ∷ [])
unfolding token_byte
token_byte-inside q out w c h e =
    let open_quote : (q == 0) ≡ false = ground arith in rw (open_quote, e, token_byte) refl

token_byte-opens :
    (q : ℕ) (out : List Bytes) (w : Bytes) (b : Bool)
    → is_quote q ≡ true
    → token_byte (outside out w b) q ≡ inside q out w
unfolding token_byte
token_byte-opens q out w b h = rw (h, token_byte) refl

token_byte-closes :
    (q : ℕ) (out : List Bytes) (w : Bytes)
    → is_quote q ≡ true
    → token_byte (inside q out w) q ≡ outside out w true
unfolding token_byte
token_byte-closes q out w h =
    let open_quote : (q == 0) ≡ false = ground arith in
    let same : (q == q) ≡ true = ground arith in rw (open_quote, same, token_byte) refl

token_loop-letters :
    (q : ℕ) (out : List Bytes) (w : Bytes) (ls : List Letter) (rest : Bytes)
    → is_quote q ≡ true
    → All (IsInside q) ls
    → token_loop (inside q out w) (letters ls ++ rest)
      ≡ token_loop (inside q out (w ++ map byte_of ls)) rest
token_loop-letters q out w [] rest h hs =
    ap (λ v. token_loop (inside q out v) rest) (sym (append-nil w))
token_loop-letters q out w (plain c ∷ ls) rest h hs =
    token_loop-plain (inside q out w) c (letters ls ++ rest) hs.0.1
    ∙ ap (λ t. token_loop t (letters ls ++ rest)) (token_byte-inside q out w c h hs.0.0)
    ∙ token_loop-letters q out (w ++ c ∷ []) ls rest h hs.1
    ∙ ap (λ v. token_loop (inside q out v) rest) (append_assoc w (c ∷ []) (map byte_of ls))
token_loop-letters q out w (escaped c ∷ ls) rest h hs =
    token_loop-escaped (inside q out w) c (letters ls ++ rest)
    ∙ token_loop-letters q out (w ++ c ∷ []) ls rest h hs.1
    ∙ ap (λ v. token_loop (inside q out v) rest) (append_assoc w (c ∷ []) (map byte_of ls))

token_loop-piece :
    (out : List Bytes) (w : Bytes) (b : Bool) (p : Piece) (rest : Bytes)
    → IsPiece p
    → token_loop (outside out w b) (piece p ++ rest)
      ≡ token_loop (outside out (w ++ meaning p) true) rest
token_loop-piece out w b (bare (plain c)) rest h =
    token_loop-plain (outside out w b) c rest h.2
    ∙ ap (λ t. token_loop t rest) (token_byte-bare out w b c h.0 h.1)
token_loop-piece out w b (bare (escaped c)) rest h = token_loop-escaped (outside out w b) c rest
token_loop-piece out w b (quoted q ls) rest h =
    let no_slash : (q == b'\\') ≡ false = quote_no_slash q h.0 in
    ap (λ s. token_loop (outside out w b) (q ∷ s)) (append_assoc (letters ls) (q ∷ []) rest)
    ∙ token_loop-plain (outside out w b) q (letters ls ++ (q ∷ rest)) no_slash
    ∙ ap (λ t. token_loop t (letters ls ++ (q ∷ rest))) (token_byte-opens q out w b h.0)
    ∙ token_loop-letters q out w ls (q ∷ rest) h.0 h.1
    ∙ token_loop-plain (inside q out (w ++ map byte_of ls)) q rest no_slash
    ∙ ap (λ t. token_loop t rest) (token_byte-closes q out (w ++ map byte_of ls) h.0)
  where
    quote_no_slash : (q : ℕ) → is_quote q ≡ true → (q == b'\\') ≡ false
    quote_no_slash q e = ground arith

token_loop-pieces :
    (out : List Bytes) (w : Bytes) (ps : List Piece) (rest : Bytes)
    → All IsPiece ps
    → token_loop (outside out w true) (pieces ps ++ rest)
      ≡ token_loop (outside out (w ++ word_of ps) true) rest
token_loop-pieces out w [] rest h =
    ap (λ v. token_loop (outside out v true) rest) (sym (append-nil w))
token_loop-pieces out w (p ∷ ps) rest h =
    ap (token_loop (outside out w true)) (append_assoc (piece p) (pieces ps) rest)
    ∙ token_loop-piece out w true p (pieces ps ++ rest) h.0
    ∙ token_loop-pieces out (w ++ meaning p) ps rest h.1
    ∙ ap (λ v. token_loop (outside out v true) rest) (append_assoc w (meaning p) (word_of ps))

-- A word, from its first part on.
token_loop-word :
    (out : List Bytes) (p : Piece) (ps : List Piece) (rest : Bytes)
    → All IsPiece (p ∷ ps)
    → token_loop (outside out [] false) (pieces (p ∷ ps) ++ rest)
      ≡ token_loop (outside out (word_of (p ∷ ps)) true) rest
token_loop-word out p ps rest h =
    ap (token_loop (outside out [] false)) (append_assoc (piece p) (pieces ps) rest)
    ∙ token_loop-piece out [] false p (pieces ps ++ rest) h.0
    ∙ token_loop-pieces out (meaning p) ps rest h.1

token_byte-blank :
    (t : Tokenizer) (c : ℕ) → t.quote ≡ 0 → is_space c ≡ true → token_byte t c ≡ end_word t
unfolding token_byte
token_byte-blank t c q s =
    let no_quote : is_quote c ≡ false = ground arith in
    let none_open : (t.quote == 0) ≡ true = ground arith in
    rw (none_open, no_quote, s, token_byte) refl

blank_plain : (c : ℕ) → is_space c ≡ true → (c == b'\\') ≡ false
blank_plain c s = ground arith

token_loop-gap :
    (out : List Bytes) (gap rest : Bytes)
    → IsGap gap
    → token_loop (outside out [] false) (gap ++ rest) ≡ token_loop (outside out [] false) rest
token_loop-gap out [] rest h = refl
token_loop-gap out (c ∷ gap) rest h =
    token_loop-plain (outside out [] false) c (gap ++ rest) (blank_plain c h.0)
    ∙ ap (λ t. token_loop t (gap ++ rest)) (token_byte-blank (outside out [] false) c refl h.0)
    ∙ token_loop-gap out gap rest h.1

token_loop-text_of :
    (ws : List Spelled) (out : List Bytes) (end : Bytes)
    → All IsSpelled ws
    → token_loop (outside out [] false) (text_of ws end)
      ≡ token_loop (outside (out ++ words_of ws) [] false) end
token_loop-text_of [] out end h =
    ap (λ o. token_loop (outside o [] false) end) (sym (append-nil out))
token_loop-text_of (w ∷ ws) out end h =
    let word = word_of (w.first ∷ w.others) in
    let behind = w.blanks ++ text_of ws end in
    token_loop-word out w.first w.others (w.blank ∷ behind) h.0.0
    ∙ token_loop-plain (outside out word true) w.blank behind (blank_plain w.blank h.0.1.0)
    ∙ ap (λ t. token_loop t behind) (token_byte-blank (outside out word true) w.blank refl h.0.1.0)
    ∙ token_loop-gap (out ++ word ∷ []) w.blanks (text_of ws end) h.0.1.1
    ∙ token_loop-text_of ws (out ++ word ∷ []) end h.1
    ∙ ap (λ o. token_loop (outside o [] false) end) (append_assoc out (word ∷ []) (words_of ws))

-- What is in the tokenizer at the end of the text.
abbrev finished : Tokenizer → List Bytes
finished t = if t.in_word then t.out ++ t.word ∷ [] else t.out

finished-last :
    (out : List Bytes) (last : List Piece)
    → All IsPiece last
    → finished (token_loop (outside out [] false) (pieces last)) ≡ out ++ last_word last
unfolding token_loop
finished-last out [] h = sym (append-nil out)
finished-last out (p ∷ ps) h =
    ap (λ s. finished (token_loop (outside out [] false) s)) (sym (append-nil (pieces (p ∷ ps))))
    ∙ ap finished (token_loop-word out p ps [] h)

-- A response file may begin with white space, has words with white space behind each, and may end with a
-- word that has none. A word is made of parts, one at least: bytes that are no white space, quote or
-- backslash, bytes behind a backslash, and texts in single or double quotes, which may be empty, and in which
-- a backslash stands before bytes at will, and before each quote of their kind and each backslash. The words
-- are read back, in order, each as the bytes that its parts stand for.
pub tokenize_gnu_lem :
    (lead : Bytes) (ws : List Spelled) (last : List Piece)
    → IsGap lead
    → All IsSpelled ws
    → All IsPiece last
    → tokenize_gnu (lead ++ text_of ws (pieces last)) ≡ words_of ws ++ last_word last
unfolding tokenize_gnu
tokenize_gnu_lem lead ws last hl hw he =
    ap finished (
      token_loop-gap [] lead (text_of ws (pieces last)) hl
      ∙ token_loop-text_of ws [] (pieces last) hw)
    ∙ finished-last (words_of ws) last he
