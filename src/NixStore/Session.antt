-- ===== src/NixStore/Session.antt =====
-- `DaemonConnection` of pkgs/ji/jig/src/nix_store_mode.cc, on top of its words and strings: the log, the handshake,
-- `AddToStore` and `SubmitOutput`.
use corepkgs_v.Prelude.{
  ℕ, zero, suc, ◌+◌, ◌/◌, ◌%◌, ◌^◌, min, Bool, true, none, some, List, [], ◌∷◌, ◌++◌, ltb, ◌==◌,
  if◌then◌else◌, Bytes, codes, length,
}
use corepkgs_v.Text.{print_uint, hex_digit}
use corepkgs_v.Rustc.Key.{sort}
use corepkgs_v.NixStore.{
  ignore, drop_all, Step, ◌>>=◌, give, fail, attempt, print, word, wire_string, wire_strings, write,
  flush, read_word, read_string, skip_strings, skip_fields, stderr_next, stderr_last, stderr_error,
  stderr_start_activity, stderr_stop_activity, stderr_result, or_text,
}

-- The protocol's numbers.
abbrev pub worker_magic_1 : ℕ
worker_magic_1 = 0x6e697863

abbrev pub worker_magic_2 : ℕ
worker_magic_2 = 0x6478696f

abbrev pub protocol_version : ℕ
protocol_version = 2 ^ 8 + 38

abbrev pub op_add_to_store : ℕ
op_add_to_store = 7

abbrev pub op_submit_output : ℕ
op_submit_output = 1000

-- An activity's fields.
unfoldable pub start_activity : Step Bool
start_activity = drop_all (
    ignore read_word
    ∷ ignore read_word
    ∷ ignore read_word
    ∷ ignore read_string
    ∷ skip_fields
    ∷ ignore read_word
    ∷ [])

unfoldable pub print_error : Step Bool
print_error = attempt read_string >>= λ a. attempt read_word >>= λ b. attempt read_string >>= λ c.
    attempt read_string >>= λ text.
    print (codes "nix-daemon: " ++ or_text (codes "?") text) >>= λ e. fail

-- `{:x}` of a word, which has 16 digits at most.
print_hex : ℕ → ℕ → Bytes
print_hex zero n = []
print_hex (suc f) n =
    let front = print_hex f (n / 16) in
    if ltb n 16 then hex_digit n ∷ [] else front ++ hex_digit (n % 16) ∷ []

abbrev pub log_line : Step Bool
log_line = attempt read_string >>= λ text. print (or_text [] text)

unfoldable pub log_result : Step Bool
log_result = drop_all (ignore read_word ∷ ignore read_word ∷ skip_fields ∷ [])

unfoldable pub refuse_message : ℕ → Step Bool
unfolding print_hex
refuse_message msg =
    print (codes "jig nix-store: unexpected daemon message 0x" ++ print_hex 16 msg) >>= λ e. fail

-- What the loop of `DrainStderr` does with a message of the log; the others end it.
unfoldable pub log_message : ℕ → Step Bool
log_message msg =
    if msg == stderr_next
    then log_line
    else if msg == stderr_start_activity
    then start_activity
    else if msg == stderr_stop_activity
    then ignore read_word
    else if msg == stderr_result
    then log_result
    else refuse_message msg

-- The loop of `DrainStderr`. Each round reads a word, so the length of the input is fuel enough.
unfoldable pub drain_loop : ℕ → Step Bool
drain_loop zero = fail
drain_loop (suc f) = read_word >>= λ msg.
    if msg == stderr_last
    then give true
    else if msg == stderr_error
    then print_error
    else (log_message msg >>= λ e. drain_loop f)

-- `DrainStderr`
unfoldable pub drain_stderr : Step Bool
drain_stderr d = drain_loop (suc (length d.input)) d

-- The features of the client.
abbrev pub features : List Bytes
features =
    codes "realisation-with-path-not-hash"
    ∷ codes "disable-set-options"
    ∷ codes "add-to-store-scanning"
    ∷ codes "submit-output"
    ∷ []

-- `Handshake`
unfoldable pub handshake : Step Bool
handshake = write (word worker_magic_1 ++ word protocol_version) >>= λ a.
    attempt (flush >>= λ b. read_word) >>= λ magic. elim magic [
      | none ↦ print (codes "jig nix-store: bad daemon magic") >>= λ e. fail
      | some m ↦
          if m == worker_magic_2
          then greet
          else (print (codes "jig nix-store: bad daemon magic") >>= λ e. fail)
    ]
  where
    after_features : Step Bool
    after_features = write (word (length features) ++ wire_strings features) >>= λ a. flush >>= λ b.
        skip_strings >>= λ c. write (word 0 ++ word 0) >>= λ e.
        flush >>= λ f. read_string >>= λ text. read_word >>= λ trust. drain_stderr

    too_old : ℕ → Step Bool
    too_old v =
        print (codes "jig nix-store: daemon protocol " ++ (print_uint 10 v ++ codes " too old"))
        >>= λ e. fail

    greet : Step Bool
    greet = attempt read_word >>= λ version. elim version [
      | none ↦ too_old 0
      | some v ↦ if ltb (min v protocol_version) protocol_version then too_old v else after_features
    ]

-- What `AddToStore` sends.
unfoldable pub add_request : Bytes → Bytes → List Bytes → Bytes → Bytes
add_request name method references contents =
    let refs = sort references in
    word op_add_to_store
    ++ (wire_string name
        ++ (wire_string method
            ++ (word (length refs)
                ++ (wire_strings refs
                    ++ (word 0 ++ (word (length contents) ++ (contents ++ word 0)))))))

-- Parts of an answer that are read and dropped.
abbrev pub drop_text : Step Bool
drop_text = read_string >>= λ text. give true

abbrev pub drop_word : Step Bool
drop_word = read_word >>= λ value. give true

-- `ValidPathInfo` behind the path: deriver, hash, references, time, size, ultimate, signatures, ca.
unfoldable pub skip_path_info : Step Bool
skip_path_info = drop_all (
    drop_text ∷ drop_text ∷ skip_strings ∷ drop_word ∷ drop_word ∷ drop_word ∷ skip_strings
    ∷ drop_text ∷ [])

-- The path in the answer.
abbrev pub read_path : Step Bytes
read_path = read_string >>= λ path. skip_path_info >>= λ done. give path

-- The answer to `AddToStore`.
unfoldable pub read_reply : Step Bytes
read_reply = drain_stderr >>= λ done. read_path

-- `AddToStore`
unfoldable pub add_to_store : Bytes → Bytes → List Bytes → Bytes → Step Bytes
add_to_store name method references contents =
    write (add_request name method references contents) >>= λ a. flush >>= λ b. read_reply

-- `SubmitOutput`
unfoldable pub submit_output : Bytes → Bytes → Step Bool
submit_output path output =
    write (word op_submit_output ++ (word 0 ++ (wire_string path ++ wire_string output))) >>= λ a.
    flush >>= λ b. drain_stderr >>= λ c. read_word >>= λ e. give true
