-- ===== src/NixStore/Drained.antt =====
-- The loop of `DrainStderr` of pkgs/ji/jig/src/nix_store_mode.cc ends: each message takes a word off the wire.
use corepkgs_v.Prelude.{
  ℕ, zero, suc, ◌≤◌, ◌<◌, ◌≡◌, refl, inl, inr, Bool, true, false, Option, none, some, List, [], ◌∷◌,
  arith, ltb, leb, ◌==◌, if◌then◌else◌, Bool-cases, Bytes, length, All, length-drop,
}
use corepkgs_v.NixStore.{
  ignore, drop_all, Daemon, Step, ◌>>=◌, give, fail, attempt, print, word_value, read_bytes,
  read_word, max_string, padding, read_padded, read_text, read_string, skip_field, skip_fields_loop,
  skip_fields, or_zero, or_text, stderr_next, stderr_last, stderr_error, stderr_start_activity,
  stderr_stop_activity, stderr_result,
}
use corepkgs_v.NixStore.Session.{
  log_line, log_result, refuse_message, start_activity, print_error, log_message, drain_loop,
}

-- A part of the protocol that leaves no more to read than there was.
record Shrinks {A : Type 0} (m : Step A) : Type 0 where
  less_left : (d : Daemon) → length (m d).1.input ≤ length d.input

give-Shrinks : {A : Type 0} (a : A) → Shrinks (give a)
give-Shrinks a = record { less_left = λ d. omega arith }

fail-Shrinks : (A : Type 0) → Shrinks (fail {A = A})
fail-Shrinks A = record { less_left = λ d. omega arith }

print-Shrinks : (line : Bytes) → Shrinks (print line)
print-Shrinks line = record { less_left = λ d. omega arith }

attempt-Shrinks : {A : Type 0} (m : Step A) → Shrinks m → Shrinks (attempt m)
attempt-Shrinks m h = record { less_left = h.less_left }

ignore-Shrinks : {A : Type 0} (m : Step A) → Shrinks m → Shrinks (ignore m)
ignore-Shrinks m h = record { less_left = h.less_left }

-- The second part, on what the first gives.
abbrev continue : {A B : Type 0} → (A → Step B) → Option A × Daemon → Option B × Daemon
continue f r = elim r.0 [ none ↦ (none, r.1) | some a ↦ f a r.1 ]

continue-Shrinks :
    {A B : Type 0} (f : A → Step B)
    → ((a : A) → Shrinks (f a))
    → (r : Option A × Daemon) → length (continue f r).1.input ≤ length r.1.input
continue-Shrinks f h (none, d) = omega arith
continue-Shrinks f h (some a, d) = (h a).less_left d

bind-Shrinks :
    {A B : Type 0} (m : Step A) (f : A → Step B)
    → Shrinks m
    → ((a : A) → Shrinks (f a))
    → Shrinks (m >>= f)
bind-Shrinks m f hm hf = record {
  less_left = λ d. omega (arith, hm.less_left d, continue-Shrinks f hf (m d));
}

if-Shrinks :
    {A : Type 0} (b : Bool) (m n : Step A) → Shrinks m → Shrinks n → Shrinks (if b then m else n)
if-Shrinks true m n hm hn = hm
if-Shrinks false m n hm hn = hn

read_bytes-Shrinks : (count : ℕ) → Shrinks (read_bytes count)
unfolding read_bytes
read_bytes-Shrinks count = record { less_left = λ d. ground (arith, length-drop count d.input) }

read_word-Shrinks : Shrinks read_word
unfolding read_word
read_word-Shrinks =
    bind-Shrinks (read_bytes 8) (λ bytes. give (word_value bytes)) (read_bytes-Shrinks 8)
      (λ bytes. give-Shrinks (word_value bytes))

read_padded-Shrinks : (size : ℕ) → Shrinks (read_padded size)
read_padded-Shrinks size =
    bind-Shrinks (read_bytes size) (λ text. read_bytes (padding size) >>= λ zeros. give text)
      (read_bytes-Shrinks size)
      (λ text.
        bind-Shrinks (read_bytes (padding size)) (λ zeros. give text)
          (read_bytes-Shrinks (padding size)) (λ zeros. give-Shrinks text))

read_string-Shrinks : Shrinks read_string
unfolding read_string read_text
read_string-Shrinks = bind-Shrinks read_word read_text read_word-Shrinks (λ size.
    if-Shrinks (ltb max_string size) fail (read_padded size) (fail-Shrinks Bytes)
      (read_padded-Shrinks size))

word_ignored : Shrinks (ignore read_word)
word_ignored = ignore-Shrinks read_word read_word-Shrinks

string_ignored : Shrinks (ignore read_string)
string_ignored = ignore-Shrinks read_string read_string-Shrinks

skip_field-Shrinks : Shrinks skip_field
unfolding skip_field
skip_field-Shrinks =
    bind-Shrinks (attempt read_word)
      (λ kind. if or_zero kind == 1 then ignore read_string else ignore read_word)
      (attempt-Shrinks read_word read_word-Shrinks)
      (λ kind.
        if-Shrinks (or_zero kind == 1) (ignore read_string) (ignore read_word) string_ignored
          word_ignored)

skip_fields_loop-Shrinks : (n : ℕ) → Shrinks (skip_fields_loop n)
unfolding skip_fields_loop
skip_fields_loop-Shrinks zero = give-Shrinks true
skip_fields_loop-Shrinks (suc n) =
    bind-Shrinks skip_field (λ done. skip_fields_loop n) skip_field-Shrinks
      (λ done. skip_fields_loop-Shrinks n)

skip_fields-Shrinks : Shrinks skip_fields
unfolding skip_fields
skip_fields-Shrinks =
    bind-Shrinks (attempt read_word) (λ count. skip_fields_loop (or_zero count))
      (attempt-Shrinks read_word read_word-Shrinks)
      (λ count. skip_fields_loop-Shrinks (or_zero count))

drop_all-Shrinks : (parts : List (Step Bool)) → All Shrinks parts → Shrinks (drop_all parts)
unfolding drop_all
drop_all-Shrinks [] h = give-Shrinks true
drop_all-Shrinks (part ∷ parts) h =
    bind-Shrinks part (λ done. drop_all parts) h.0 (λ done. drop_all-Shrinks parts h.1)

start_activity-Shrinks : Shrinks start_activity
unfolding start_activity
start_activity-Shrinks = drop_all-Shrinks _ (
  word_ignored,
  (word_ignored, (word_ignored, (string_ignored, (skip_fields-Shrinks, (word_ignored, tt))))),
)

log_line-Shrinks : Shrinks log_line
log_line-Shrinks =
    bind-Shrinks (attempt read_string) (λ text. print (or_text [] text))
      (attempt-Shrinks read_string read_string-Shrinks) (λ text. print-Shrinks (or_text [] text))

log_result-Shrinks : Shrinks log_result
unfolding log_result
log_result-Shrinks = drop_all-Shrinks _ (word_ignored, (word_ignored, (skip_fields-Shrinks, tt)))

refuse_message-Shrinks : (msg : ℕ) → Shrinks (refuse_message msg)
unfolding refuse_message
refuse_message-Shrinks msg = record { less_left = λ d. omega arith }

log_message-Shrinks : (msg : ℕ) → Shrinks (log_message msg)
unfolding log_message
log_message-Shrinks msg = if-Shrinks (msg == stderr_next) _ _ log_line-Shrinks (
    if-Shrinks (msg == stderr_start_activity) _ _ start_activity-Shrinks (
      if-Shrinks (msg == stderr_stop_activity) _ _ word_ignored
        (if-Shrinks (msg == stderr_result) _ _ log_result-Shrinks (refuse_message-Shrinks msg))))

-- A word that is read is taken off the input.
read_word_eats :
    (d : Daemon) (msg : ℕ)
    → (read_word d).0 ≡ some msg
    → length (read_word d).1.input < length d.input
unfolding read_word read_bytes
read_word_eats d msg e = elim (Bool-cases (leb 8 (length d.input))) [
  | inl enough ↦ ground (arith, length-drop 8 d.input)
  | inr short ↦ ground arith
]

continue_same :
    {A B : Type 0} (f g : A → Step B) (r : Option A × Daemon)
    → ((a : A) → r.0 ≡ some a → f a r.1 ≡ g a r.1)
    → continue f r ≡ continue g r
continue_same f g (none, d) h = refl
continue_same f g (some a, d) h = h a refl

if_same :
    {A : Type 0} (b : Bool) (x y z : Step A) (d : Daemon)
    → y d ≡ z d
    → (if b then x else y) d ≡ (if b then x else z) d
if_same true x y z d h = refl
if_same false x y z d h = h

-- The rounds behind a message of the log, behind one that is not the last, and behind any word.
abbrev behind_log : ℕ → ℕ → Step Bool
behind_log f msg = log_message msg >>= λ done. drain_loop f

abbrev behind : ℕ → ℕ → Step Bool
behind f msg = if msg == stderr_error then print_error else behind_log f msg

abbrev after_word : ℕ → ℕ → Step Bool
after_word f msg = if msg == stderr_last then give true else behind f msg

-- Each message of the log takes a word off the wire, so the loop of `DrainStderr` ends: fuel beyond the
-- length of what the daemon sends changes nothing.
pub drain_loop_enough :
    (f g : ℕ) (d : Daemon)
    → length d.input < f
    → length d.input < g
    → drain_loop f d ≡ drain_loop g d
unfolding drain_loop
drain_loop_enough zero g d hf hg = absurd (omega arith)
drain_loop_enough (suc f) zero d hf hg = absurd (omega arith)
drain_loop_enough (suc f) (suc g) d hf hg =
    continue_same (after_word f) (after_word g) (read_word d) (λ msg e.
      let d' = (read_word d).1 in
      let eaten = read_word_eats d msg e in
      let left = (log_message-Shrinks msg).less_left d' in
      if_same (msg == stderr_last) (give true) (behind f msg) (behind g msg) d' (
        if_same (msg == stderr_error) print_error (behind_log f msg) (behind_log g msg) d' (
          continue_same (λ done. drain_loop f) (λ done. drain_loop g) (log_message msg d')
            (λ done e'.
              drain_loop_enough f g (log_message msg d').1 (omega (arith, eaten, left, hf))
                (omega (arith, eaten, left, hg))))))
