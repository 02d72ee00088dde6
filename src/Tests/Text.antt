-- ===== src/Tests/Text.antt =====
-- pkgs/ji/jig/src/base.cc
use corepkgs_v.Prelude.{◌≡◌, refl, List, arith, false, none, [], ◌∷◌, codes, starts_with, find}
use corepkgs_v.Text.{split, replace_all, tokenize_gnu, parse_uint, hex_encode}
use corepkgs_v.Text.Spelling.{plain, escaped, bare, quoted, Spelled, text_of}
use corepkgs_v.Text.Tokens.{tokenize_gnu_lem}

not_a_number : (parse_uint 10 (codes "12x") ≡ none) × (parse_uint 10 [] ≡ none)
unfolding parse_uint
not_a_number = (refl, refl)

hexadecimal : hex_encode (codes "AZ") ≡ codes "415a"
unfolding hex_encode
hexadecimal = refl

two_parts : split (codes "a,,b") b',' false ≡ codes "a" ∷ codes "b" ∷ []
unfolding split
two_parts = refl

leftmost : replace_all (codes "aaa") (codes "aa") (codes "b") ≡ codes "ba"
unfolding replace_all find starts_with
leftmost = refl

-- -I behind a blank, then an empty word, then a word in four ways of writing, with a tab behind it.
abbrev spellings : List Spelled
spellings =
    record { first = bare (plain b'-'); others = bare (plain b'I') ∷ []; blank = b' '; blanks = [] }
    ∷ record { first = quoted b'"' []; others = []; blank = b'\n'; blanks = b' ' ∷ [] }
    ∷ record {
      first = quoted b'\'' (plain b'a' ∷ plain b' ' ∷ plain b'"' ∷ []);
      others =
          quoted b'"' (escaped b'"' ∷ plain b'\'' ∷ [])
          ∷ bare (escaped b' ')
          ∷ bare (plain b'z')
          ∷ [];
      blank = b'\t';
      blanks = [];
    }
    ∷ []

spelling : text_of spellings [] ≡ codes "-I \"\"\n 'a \"'\"\\\"'\"\\ z\t"
spelling = refl

tokenize_gnu_lem_example :
    tokenize_gnu (b' ' ∷ text_of spellings (codes "x"))
    ≡ codes "-I" ∷ [] ∷ codes "a \"\"' z" ∷ codes "x" ∷ []
tokenize_gnu_lem_example =
    tokenize_gnu_lem (b' ' ∷ []) spellings (bare (plain b'x') ∷ []) (ground arith) (ground arith)
      (ground arith)
