-- ===== src/Text.antt =====
-- pkgs/ji/jig/src/base.cc: the string helpers that every mode shares. A string is a list of bytes;
-- a loop over positions is a recursion on the text from the position on.

pub mod Numbers
pub mod Split
pub mod Replace
pub mod Spelling
pub mod Tokens
pub mod Words
use corepkgs_v.Prelude.{
  ℕ, zero, suc, ◌+◌, ◌-◌, ◌*◌, ◌/◌, ◌%◌, ◌^◌, Bool, true, false, not, ◌&&◌, ◌||◌, Option, none,
  some, List, [], ◌∷◌, ◌++◌, ltb, leb, ◌==◌, if◌then◌else◌, Bytes, length, drop, find, starts_with,
}

-- ' ', '\t' and '\n', the separators of `SplitWhitespace`
abbrev pub is_white : ℕ → Bool
is_white c = c == b' ' || c == b'\t' || c == b'\n'

-- The inner loops: the text up to the first byte that fails the test, and from there on.
unfoldable pub span : (ℕ → Bool) → Bytes → Bytes × Bytes
span p [] = ([], [])
span p (c ∷ s) = let (a, b) = span p s in if p c then (c ∷ a, b) else ([], c ∷ s)

-- One round of the outer loop skips white space, takes a word and keeps it if it is not empty.
split_white : ℕ → Bytes → List Bytes
split_white zero s = []
split_white (suc f) [] = []
split_white (suc f) (c ∷ s) =
    let (_, text) = span is_white (c ∷ s) in
    let (word, after) = span (λ b. not (is_white b)) text in
    let rest = split_white f after in elim word [ [] ↦ rest | b ∷ bs ↦ (b ∷ bs) ∷ rest ]

-- `SplitWhitespace`: each round consumes a byte, so the length is fuel enough.
unfoldable pub split_whitespace : Bytes → List Bytes
unfolding split_white span
split_whitespace text = split_white (length text) text

-- `Split`: `start` is where `cur` begins; the loop makes a last round at the end of the text.
unfoldable pub split_loop : ℕ → Bool → Bytes → Bytes → List Bytes
split_loop sep keep_empty cur [] = elim cur [
  | [] ↦ if keep_empty then [] ∷ [] else []
  | c ∷ cs ↦ (c ∷ cs) ∷ []
]
split_loop sep keep_empty cur (c ∷ s) =
    let next = split_loop sep keep_empty [] s in
    let more = split_loop sep keep_empty (cur ++ c ∷ []) s in
    if c == sep
    then (elim cur [ [] ↦ (if keep_empty then [] ∷ next else next) | b ∷ bs ↦ (b ∷ bs) ∷ next ])
    else more

unfoldable pub split : Bytes → ℕ → Bool → List Bytes
unfolding split_loop
split text sep keep_empty = split_loop sep keep_empty [] text

-- `Join`: no separator while the output is empty.
unfoldable pub join_onto : Bytes → List Bytes → Bytes → Bytes
join_onto sep [] out = out
join_onto sep (p ∷ ps) out =
    join_onto sep ps (elim out [ [] ↦ p | c ∷ cs ↦ (c ∷ cs) ++ (sep ++ p) ])

unfoldable pub join : List Bytes → Bytes → Bytes
unfolding join_onto
join parts sep = join_onto sep parts []

-- `Trim`: ' ' and '\t' only
abbrev is_trimmed : ℕ → Bool
is_trimmed c = c == b' ' || c == b'\t'

trim_front : Bytes → Bytes
trim_front [] = []
trim_front (c ∷ s) = let rest = trim_front s in if is_trimmed c then rest else c ∷ s

-- Dropping blanks from the back: a blank goes if nothing stays behind it.
trim_back : Bytes → Bytes
trim_back [] = []
trim_back (c ∷ s) = elim (trim_back s) [
  | [] ↦ (if is_trimmed c then [] else c ∷ [])
  | b ∷ bs ↦ c ∷ b ∷ bs
]

unfoldable pub trim : Bytes → Bytes
unfolding trim_front trim_back
trim text = trim_back (trim_front text)

-- `ReplaceAll`: the text is `out` up to `pos` and `rest` from there on. An empty `from` is returned
-- at once; otherwise each round consumes a byte of `rest`.
unfoldable pub replace_loop : ℕ → Bytes → Bytes → Bytes → Bytes → Bytes
replace_loop zero from into out rest = out ++ rest
replace_loop (suc f) from into out rest = elim (find from rest) [
  | none ↦ out ++ rest
  | some (before, at) ↦ replace_loop f from into (out ++ (before ++ into)) (drop (length from) at)
]

unfoldable pub replace_all : Bytes → Bytes → Bytes → Bytes
unfolding replace_loop
replace_all text [] into = text
replace_all text (c ∷ from) into = replace_loop (suc (length text)) (c ∷ from) into [] text

-- The state of `TokenizeGnu`. `quote` is 0 outside quotes.
pub record Tokenizer : Type 0 where
  pub out : List Bytes
  pub word : Bytes
  pub in_word : Bool
  pub quote : ℕ

-- `std::isspace` in the C locale
abbrev pub is_space : ℕ → Bool
is_space c = c == b' ' || (leb 9 c && leb c 13)

-- The tail of the loop body: the byte belongs to the word.
abbrev pub add_byte : Tokenizer → ℕ → Tokenizer
add_byte t c = record t { word = t.word ++ c ∷ []; in_word = true }

abbrev pub end_word : Tokenizer → Tokenizer
end_word t =
    if t.in_word
    then record { out = t.out ++ t.word ∷ []; word = []; in_word = false; quote = t.quote }
    else t

-- The loop body for a byte that no backslash precedes.
pub token_byte : Tokenizer → ℕ → Tokenizer
token_byte t c =
    if not (t.quote == 0) && c == t.quote
    then record t { quote = 0 }
    else if t.quote == 0 && (c == b'\'' || c == b'"')
    then record t { quote = c; in_word = true }
    else if t.quote == 0 && is_space c
    then end_word t
    else add_byte t c

unfoldable pub token_loop : Tokenizer → Bytes → Tokenizer
unfolding token_byte
token_loop t [] = t
token_loop t (c ∷ []) = token_byte t c
token_loop t (c ∷ d ∷ s) =
    let escaped = token_loop (add_byte t d) s in
    let plain = token_loop (token_byte t c) (d ∷ s) in if c == b'\\' then escaped else plain

abbrev pub start : Tokenizer
start = record { out = []; word = []; in_word = false; quote = 0 }

unfoldable pub tokenize_gnu : Bytes → List Bytes
unfolding token_loop
tokenize_gnu text =
    let t = token_loop start text in if t.in_word then t.out ++ t.word ∷ [] else t.out

-- `ExpandResponseFiles`, given what `ReadFile` answers.
unfoldable pub expand_response_files : (Bytes → Option Bytes) → List Bytes → List Bytes
unfolding tokenize_gnu
expand_response_files read_file [] = []
expand_response_files read_file (arg ∷ args) =
    let body = if starts_with arg (b'@' ∷ []) then read_file (drop 1 arg) else none in
    elim body [ none ↦ arg ∷ [] | some text ↦ tokenize_gnu text ]
    ++ expand_response_files read_file args

-- The digit that a byte stands for, in bases up to 10.
digit : ℕ → ℕ → Option ℕ
digit base c = if leb b'0' c && ltb (c - b'0') base then some (c - b'0') else none

-- `std::from_chars` in bases up to 10 and `ptr == text.end()`: every byte is a digit and the value fits in 64 bits.
unfoldable pub scan_uint : ℕ → Bytes → ℕ → Option ℕ
unfolding digit
scan_uint base [] value = some value
scan_uint base (c ∷ s) value = elim (digit base c) [
  | none ↦ none
  | some d ↦
      let rest = scan_uint base s (value * base + d) in
      if ltb (value * base + d) (2 ^ 64) then rest else none
]

-- `ParseUint`: blanks around the number are dropped, no digit at all is an error.
unfoldable pub parse_uint : ℕ → Bytes → Option ℕ
unfolding scan_uint trim
parse_uint base text = elim (trim text) [ [] ↦ none | c ∷ s ↦ scan_uint base (c ∷ s) 0 ]

abbrev pub hex_digit : ℕ → ℕ
hex_digit d = if ltb d 10 then b'0' + d else b'a' + (d - 10)

-- `HexEncode`: `{:02x}` of each byte
unfoldable pub hex_encode : Bytes → Bytes
hex_encode [] = []
hex_encode (b ∷ bs) = hex_digit (b / 16) ∷ hex_digit (b % 16) ∷ hex_encode bs

-- `std::to_string` and `{:o}`: the digits of a number in a base from 2 to 10. Each round divides, so the number is
-- fuel enough.
print_loop : ℕ → ℕ → ℕ → Bytes → Bytes
print_loop zero base n out = out
print_loop (suc f) base n out =
    let more = print_loop f base (n / base) ((b'0' + n % base) ∷ out) in
    if ltb n base then (b'0' + n) ∷ out else more

unfoldable pub print_uint : ℕ → ℕ → Bytes
unfolding print_loop
print_uint base n = print_loop (suc n) base n []
