-- ===== src/Text/Spelling.antt =====
-- How a response file may spell words for `TokenizeGnu` of pkgs/ji/jig/src/base.cc: plain bytes, bytes behind a
-- backslash, and parts in single or double quotes, with white space between the words.
use corepkgs_v.Prelude.{ℕ, ◌≡◌, Bool, true, false, ◌||◌, List, [], ◌∷◌, ◌++◌, map, ◌==◌, Bytes, All}
use corepkgs_v.Text.{is_space}

abbrev pub is_quote : ℕ → Bool
is_quote c = c == b'\'' || c == b'"'

-- A byte as it is, or behind a backslash.
pub data Letter : Type 0 where
  plain escaped : ℕ → Letter

abbrev pub byte_of : Letter → ℕ
byte_of (plain c) = c
byte_of (escaped c) = c

abbrev pub letter : Letter → Bytes
letter (plain c) = c ∷ []
letter (escaped c) = b'\\' ∷ c ∷ []

-- A part of a word: a byte outside quotes, or a part in quotes of one kind.
pub data Piece : Type 0 where
  bare : Letter → Piece
  quoted : ℕ → List Letter → Piece

abbrev pub letters : List Letter → Bytes
letters [] = []
letters (l ∷ ls) = letter l ++ letters ls

abbrev pub piece : Piece → Bytes
piece (bare l) = letter l
piece (quoted q ls) = q ∷ (letters ls ++ q ∷ [])

-- What it stands for.
abbrev pub meaning : Piece → Bytes
meaning (bare l) = byte_of l ∷ []
meaning (quoted q ls) = map byte_of ls

abbrev pub pieces : List Piece → Bytes
pieces [] = []
pieces (p ∷ ps) = piece p ++ pieces ps

abbrev pub word_of : List Piece → Bytes
word_of [] = []
word_of (p ∷ ps) = meaning p ++ word_of ps

-- A byte may stand as it is outside quotes if it is neither white space nor a quote nor a backslash; inside,
-- if it is neither the quote that ends them nor a backslash.
abbrev pub IsBare : Letter → Type 0
IsBare (plain c) = (is_space c ≡ false) × (is_quote c ≡ false) × ((c == b'\\') ≡ false)
IsBare (escaped c) = Unit

abbrev pub IsInside : ℕ → Letter → Type 0
IsInside q (plain c) = ((c == q) ≡ false) × ((c == b'\\') ≡ false)
IsInside q (escaped c) = Unit

abbrev pub IsPiece : Piece → Type 0
IsPiece (bare l) = IsBare l
IsPiece (quoted q ls) = (is_quote q ≡ true) × All (IsInside q) ls

-- A word has a part at least, be it an empty one in quotes, and white space behind it.
pub record Spelled : Type 0 where
  pub first : Piece
  pub others : List Piece
  pub blank : ℕ
  pub blanks : Bytes

abbrev pub IsGap : Bytes → Type 0
IsGap = All (λ c. is_space c ≡ true)

abbrev pub IsSpelled : Spelled → Type 0
IsSpelled w = All IsPiece (w.first ∷ w.others) × IsGap (w.blank ∷ w.blanks)

abbrev pub text_of : List Spelled → Bytes → Bytes
text_of [] end = end
text_of (w ∷ ws) end = pieces (w.first ∷ w.others) ++ ((w.blank ∷ w.blanks) ++ text_of ws end)

abbrev pub words_of : List Spelled → List Bytes
words_of [] = []
words_of (w ∷ ws) = word_of (w.first ∷ w.others) ∷ words_of ws

-- The word at the end, if there is no white space behind it.
abbrev pub last_word : List Piece → List Bytes
last_word [] = []
last_word (p ∷ ps) = word_of (p ∷ ps) ∷ []
