-- ===== src/NixStore/RoundTrip.antt =====
-- What `WriteWord` and `WriteString` of pkgs/ji/jig/src/nix_store_mode.cc put on the wire is what `ReadWord` and
-- `ReadString` take off it.
use corepkgs_v.Prelude.{
  ℕ, ◌^◌, ◌≤◌, ◌<◌, ◌≡◌, refl, sym, ap, ◌∙◌, true, false, none, some, List, [], ◌∷◌, ◌++◌,
  append_assoc, arith, ltb, leb, Bytes, length, replicate, All, length-append, drop-append_length,
  take-append_length, length-replicate,
}
use corepkgs_v.NixStore.{
  Daemon, Step, ◌>>=◌, give, word_bytes, word, padding, wire_string, wire_strings, read_bytes,
  word_value, read_word, max_string, read_text, read_string, skip_loop, skip_strings,
}

-- The connection with this still to be read.
abbrev pub with_input : Daemon → Bytes → Daemon
with_input d input = record d { input = input }

-- A part of the protocol that takes `bytes` off the wire and answers `a`.
abbrev pub Takes : {A : Type 0} → Step A → Bytes → A → Type 0
Takes m bytes a =
    (d : Daemon) (rest : Bytes) → m (with_input d (bytes ++ rest)) ≡ (some a, with_input d rest)

pub Takes-bind :
    {A B : Type 0} (m : Step A) (f : A → Step B) (first second : Bytes) {a : A} {b : B}
    → Takes m first a
    → Takes (f a) second b
    → Takes (m >>= f) (first ++ second) b
Takes-bind m f first second hm hf d rest =
    ap (λ input. (m >>= f) (with_input d input)) (append_assoc first second rest)
    ∙ ap (λ r. elim r.0 [ none ↦ (none, r.1) | some x ↦ f x r.1 ]) (hm d (second ++ rest))
    ∙ hf d rest

-- A last step that takes nothing.
pub Takes-then :
    {A B : Type 0} (m : Step A) (g : A → B) (bytes : Bytes) {a : A}
    → Takes m bytes a
    → Takes (m >>= λ x. give (g x)) bytes (g a)
Takes-then m g bytes h d rest =
    ap (λ r. elim r.0 [ none ↦ (none, r.1) | some x ↦ (some (g x), r.1) ]) (h d rest)

word_value-word : (value : ℕ) → value < 2 ^ 64 → word_value (word value) ≡ value
unfolding word_value word_bytes
word_value-word value h = omega arith

pub read_bytes-Takes : (bytes : Bytes) → Takes (read_bytes (length bytes)) bytes bytes
unfolding read_bytes
read_bytes-Takes bytes d rest =
    let enough : leb (length bytes) (length (bytes ++ rest)) ≡ true =
      ground (arith, length-append bytes rest) in
    rw (enough, take-append_length bytes rest, drop-append_length bytes rest) refl

abbrev pub IsWord : ℕ → Type 0
IsWord value = value < 2 ^ 64

pub read_word-Takes : (value : ℕ) → IsWord value → Takes read_word (word value) value
unfolding read_word word_bytes
read_word-Takes value h d rest =
    ap (λ r. elim r.0 [ none ↦ (none, r.1) | some x ↦ (some (word_value x), r.1) ])
      (read_bytes-Takes (word value) d rest)
    ∙ ap (λ v. (some v, with_input d rest)) (word_value-word value h)

-- A string that the client accepts.
abbrev pub IsShort : Bytes → Type 0
IsShort text = length text ≤ max_string

read_padding-Takes :
    (size : ℕ)
    → Takes (read_bytes (padding size)) (replicate (padding size) 0) (replicate (padding size) 0)
read_padding-Takes size d rest =
    ap (λ n. read_bytes n (with_input d (replicate (padding size) 0 ++ rest)))
      (sym (length-replicate (padding size) 0))
    ∙ read_bytes-Takes (replicate (padding size) 0) d rest

read_text-Takes :
    (text : Bytes)
    → IsShort text
    → Takes (read_text (length text)) (text ++ replicate (padding (length text)) 0) text
unfolding read_text
read_text-Takes text h d rest =
    let small : ltb max_string (length text) ≡ false = ground arith in
    let zeros = replicate (padding (length text)) 0 in
    let padded =
      Takes-bind (read_bytes (length text))
        (λ t. read_bytes (padding (length text)) >>= λ z. give t) text zeros (read_bytes-Takes text)
        (λ d' rest'.
          ap (λ r. elim r.0 [ none ↦ (none, r.1) | some x ↦ (some text, r.1) ])
            (read_padding-Takes (length text) d' rest')) in
    rw (small, read_text) (padded d rest)

-- A string of up to 64 MiB that was written is read back, with its padding, and nothing behind it.
pub read_string-Takes : (text : Bytes) → IsShort text → Takes read_string (wire_string text) text
unfolding read_string
read_string-Takes text h =
    Takes-bind read_word read_text (word (length text))
      (text ++ replicate (padding (length text)) 0) (read_word-Takes (length text) (omega arith))
      (read_text-Takes text h)

skip_loop-Takes :
    (texts : List Bytes)
    → All IsShort texts
    → Takes (skip_loop (length texts)) (wire_strings texts) true
unfolding skip_loop wire_strings
skip_loop-Takes [] h = λ d rest. refl
skip_loop-Takes (text ∷ texts) h =
    Takes-bind read_string (λ t. skip_loop (length texts)) (wire_string text) (wire_strings texts)
      (read_string-Takes text h.0) (skip_loop-Takes texts h.1)

-- A list of strings, each of up to 64 MiB, behind its length.
pub skip_strings-Takes :
    (texts : List Bytes)
    → IsWord (length texts)
    → All IsShort texts
    → Takes skip_strings (word (length texts) ++ wire_strings texts) true
unfolding skip_strings
skip_strings-Takes texts few h =
    Takes-bind read_word skip_loop (word (length texts)) (wire_strings texts)
      (read_word-Takes (length texts) few) (skip_loop-Takes texts h)
