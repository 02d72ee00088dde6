-- ===== src/NixStore.antt =====
-- pkgs/ji/jig/src/nix_store_mode.cc: jig as a client of the nix daemon. This file is `DaemonConnection`: numbers and
-- strings on the wire, and the two operations. A socket is the bytes that the daemon sends and what each
-- `write` takes; a read that the daemon's bytes do not fill has failed.
pub mod Session
pub mod RoundTrip
pub mod Added
pub mod Sha256
pub mod Path
pub mod Drained
pub mod Named
pub mod Mode
pub mod Offline
pub mod Aterm
pub mod Reader
pub mod Quoted
pub mod Parts
pub mod Derived
use corepkgs_v.Prelude.{
  ℕ, zero, suc, ◌+◌, ◌-◌, ◌*◌, ◌/◌, ◌%◌, ◌^◌, ◌≤◌, ◌<◌, min, max, ◌≡◌, ◌≢◌, refl, sym, ap, ◌∙◌, ◌⊎◌,
  ◌↔◌, inl, inr, Bool, true, false, not, ◌&&◌, ◌||◌, Option, none, some, List, [], ◌∷◌, ◌++◌, map,
  append_assoc, append-nil, arith, ltb, leb, ◌==◌, if◌then◌else◌, ==_iff, Bool-cases, or_false,
  Option-cases, Bytes, codes, Lacks, IsBytes, equal, equal_iff, starts_with, starts_with-append,
  eq_of_starts_with, ends_with, find, find_byte, find_byte-first, find_byte-cases, first_unique,
  has, contains, find-append, length, take, drop, get_elem?, replicate, any, all, All, All-append,
  length-append, take-append-drop, take-append, drop-append, take_all, drop-append_length,
  take-append_length, length-take, length-drop, length-replicate,
}
use corepkgs_v.CacheClient.{send_loop}
use corepkgs_v.Rustc.Key.{sort}

-- The connection: what is still to be read, `out_`, what the calls of `write` to come take, what was
-- written and the lines that were printed.
pub record Daemon : Type 0 where
  pub input : Bytes
  pub out : Bytes
  pub accepts : List ℕ
  pub written : Bytes
  pub printed : List Bytes

-- A part of the protocol; none is a failure.
abbrev pub Step : Type 0 → Type 0
Step A = Daemon → Option A × Daemon

infixl 5 ◌>>=◌
abbrev pub ◌>>=◌ : {A B : Type 0} → Step A → (A → Step B) → Step B
◌>>=◌ m f d = let (result, d') = m d in elim result [ none ↦ (none, d') | some a ↦ f a d' ]

abbrev pub give : {A : Type 0} → A → Step A
give a d = (some a, d)

abbrev pub fail : {A : Type 0} → Step A
fail d = (none, d)

-- A call whose failure the code does not look at.
abbrev pub attempt : {A : Type 0} → Step A → Step (Option A)
attempt m d = let (result, d') = m d in (some result, d')

-- A call whose answer the code does not look at either.
abbrev pub ignore : {A : Type 0} → Step A → Step Bool
ignore m d = (some true, (m d).1)

-- Parts one behind the other, up to one that fails.
unfoldable pub drop_all : List (Step Bool) → Step Bool
drop_all [] = give true
drop_all (part ∷ parts) = part >>= λ done. drop_all parts

abbrev pub print : Bytes → Step Bool
print line d = (some true, record d { printed = d.printed ++ line ∷ [] })

-- The eight bytes of `WriteWord`, the lowest first.
unfoldable pub word_bytes : ℕ → ℕ → Bytes
word_bytes zero value = []
word_bytes (suc n) value = value % 256 ∷ word_bytes n (value / 256)

abbrev pub word : ℕ → Bytes
word value = word_bytes 8 value

-- The zeros behind a string.
abbrev pub padding : ℕ → ℕ
padding size = (8 - size % 8) % 8

abbrev pub wire_string : Bytes → Bytes
wire_string text = word (length text) ++ (text ++ replicate (padding (length text)) 0)

unfoldable pub wire_strings : List Bytes → Bytes
wire_strings [] = []
wire_strings (text ∷ texts) = wire_string text ++ wire_strings texts

-- `WriteWord`, `WriteString` and the plain append to `out_`
abbrev pub write : Bytes → Step Bool
write bytes d = (some true, record d { out = d.out ++ bytes })

-- `Flush`
unfoldable pub flush : Step Bool
flush d =
    let (all_sent, (accepts, written)) = send_loop d.accepts d.out d.written in
    if all_sent
    then (some true, record d { out = []; accepts = accepts; written = written })
    else (none, record d { accepts = accepts; written = written })

-- `ReadBytes`
unfoldable pub read_bytes : ℕ → Step Bytes
read_bytes count d =
    if leb count (length d.input)
    then (some (take count d.input), record d { input = drop count d.input })
    else (none, record d { input = [] })

unfoldable pub word_value : Bytes → ℕ
word_value [] = 0
word_value (b ∷ bytes) = b + 256 * word_value bytes

-- `ReadWord`
unfoldable pub read_word : Step ℕ
read_word = read_bytes 8 >>= λ bytes. give (word_value bytes)

-- `kMaxString`
abbrev pub max_string : ℕ
max_string = 64 * 2 ^ 20

abbrev pub read_padded : ℕ → Step Bytes
read_padded size = read_bytes size >>= λ text. read_bytes (padding size) >>= λ zeros. give text

-- A string behind its size.
unfoldable pub read_text : ℕ → Step Bytes
read_text size = if ltb max_string size then fail else read_padded size

-- `ReadString`
unfoldable pub read_string : Step Bytes
read_string = read_word >>= read_text

-- The loop of `SkipStrings`.
unfoldable pub skip_loop : ℕ → Step Bool
skip_loop zero = give true
skip_loop (suc n) = read_string >>= λ text. skip_loop n

-- `SkipStrings`
unfoldable pub skip_strings : Step Bool
skip_strings = read_word >>= skip_loop

abbrev pub or_zero : Option ℕ → ℕ
or_zero none = 0
or_zero (some n) = n

-- The value of a field: a string or a number.
unfoldable pub skip_field : Step Bool
skip_field =
    attempt read_word >>= λ kind. if or_zero kind == 1 then ignore read_string else ignore read_word

unfoldable pub skip_fields_loop : ℕ → Step Bool
skip_fields_loop zero = give true
skip_fields_loop (suc n) = skip_field >>= λ done. skip_fields_loop n

-- `SkipFields`
unfoldable pub skip_fields : Step Bool
skip_fields = attempt read_word >>= λ count. skip_fields_loop (or_zero count)

-- The messages of the daemon's log.
abbrev pub stderr_next : ℕ
stderr_next = 0x6f6c6d67

abbrev pub stderr_last : ℕ
stderr_last = 0x616c7473

abbrev pub stderr_error : ℕ
stderr_error = 0x63787470

abbrev pub stderr_start_activity : ℕ
stderr_start_activity = 0x53545254

abbrev pub stderr_stop_activity : ℕ
stderr_stop_activity = 0x53544f50

abbrev pub stderr_result : ℕ
stderr_result = 0x52534c54

abbrev pub or_text : Bytes → Option Bytes → Bytes
or_text fallback none = fallback
or_text fallback (some text) = text
