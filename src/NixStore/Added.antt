-- ===== src/NixStore/Added.antt =====
-- `AddToStore` of pkgs/ji/jig/src/nix_store_mode.cc with a daemon that answers.
use corepkgs_v.Prelude.{
  ℕ, ◌≤◌, ◌<◌, ◌≡◌, refl, ap, ◌∙◌, Bool, true, none, some, List, [], ◌∷◌, ◌++◌, arith, ◌==◌,
  if◌then◌else◌, Bytes, length, all, All,
}
use corepkgs_v.CacheClient.{send_loop}
use corepkgs_v.CacheClient.Stream.{joined}
use corepkgs_v.CacheClient.Sends.{send_loop_lem}
use corepkgs_v.NixStore.{
  drop_all, Daemon, Step, ◌>>=◌, give, word, wire_string, wire_strings, flush, read_word,
  read_string, stderr_last, stderr_error,
}
use corepkgs_v.NixStore.RoundTrip.{
  with_input, Takes, Takes-bind, Takes-then, IsWord, IsShort, read_word-Takes, read_string-Takes,
  skip_strings-Takes,
}
use corepkgs_v.NixStore.Session.{
  print_error, log_message, drain_loop, drain_stderr, drop_text, drop_word, read_path, add_request,
  skip_path_info, read_reply, add_to_store,
}

-- What the daemon tells of a path, with the fields of `ValidPathInfo`.
pub record PathInfo : Type 0 where
  pub path : Bytes
  pub deriver : Bytes
  pub hash : Bytes
  pub references : List Bytes
  pub time : ℕ
  pub size : ℕ
  pub ultimate : ℕ
  pub signatures : List Bytes
  pub ca : Bytes

pub record IsInfo (i : PathInfo) : Type 0 where
  pub path : IsShort i.path
  pub deriver : IsShort i.deriver
  pub hash : IsShort i.hash
  pub references : IsWord (length i.references) × All IsShort i.references
  pub time : IsWord i.time
  pub size : IsWord i.size
  pub ultimate : IsWord i.ultimate
  pub signatures : IsWord (length i.signatures) × All IsShort i.signatures
  pub ca : IsShort i.ca

abbrev strings : List Bytes → Bytes
strings texts = word (length texts) ++ wire_strings texts

-- What the protocol says behind the path.
abbrev info_parts : PathInfo → List Bytes
info_parts i =
    wire_string i.deriver
    ∷ wire_string i.hash
    ∷ strings i.references
    ∷ word i.time
    ∷ word i.size
    ∷ word i.ultimate
    ∷ strings i.signatures
    ∷ wire_string i.ca
    ∷ []

-- The answer to `AddToStore`, with an empty log.
abbrev pub answer : PathInfo → Bytes
answer i = word stderr_last ++ (wire_string i.path ++ joined (info_parts i))

last_word : Takes read_word (word stderr_last) stderr_last
last_word = read_word-Takes stderr_last (omega arith)

drain_stderr-Takes : Takes drain_stderr (word stderr_last) true
unfolding drain_stderr drain_loop
drain_stderr-Takes d rest =
    ap
      (λ r. elim r.0 [
        | none ↦ (none, r.1)
        | some msg ↦
            (if msg == stderr_last
                then give true
                else if msg == stderr_error
                then print_error
                else (log_message msg >>= λ e. drain_loop (length (word stderr_last ++ rest))))
              r.1
      ])
      (last_word d rest)

drop_word-Takes : (value : ℕ) → IsWord value → Takes drop_word (word value) true
drop_word-Takes value h = Takes-then read_word (λ x. true) (word value) (read_word-Takes value h)

drop_text-Takes : (text : Bytes) → IsShort text → Takes drop_text (wire_string text) true
drop_text-Takes text h =
    Takes-then read_string (λ x. true) (wire_string text) (read_string-Takes text h)

-- Each part of an answer stands at its place.
abbrev AllTake : List (Step Bool) → List Bytes → Type 0
AllTake [] [] = Unit
AllTake [] (bytes ∷ rest) = ⊥
AllTake (m ∷ ms) [] = ⊥
AllTake (m ∷ ms) (bytes ∷ rest) = Takes m bytes true × AllTake ms rest

drop_all-Takes :
    (ms : List (Step Bool)) (parts : List Bytes)
    → AllTake ms parts
    → Takes (drop_all ms) (joined parts) true
unfolding drop_all joined
drop_all-Takes [] [] h = λ d rest. refl
drop_all-Takes [] (bytes ∷ parts) h = elim h [ ]
drop_all-Takes (m ∷ ms) [] h = elim h [ ]
drop_all-Takes (m ∷ ms) (bytes ∷ parts) h =
    Takes-bind m (λ done. drop_all ms) bytes (joined parts) h.0 (drop_all-Takes ms parts h.1)

flush_lem :
    (d : Daemon)
    → All (λ n. 0 < n) d.accepts
    → length d.out ≤ length d.accepts
    → (accepts : List ℕ) × (flush d
        ≡ (some true, record d { out = []; accepts = accepts; written = d.written ++ d.out }))
unfolding flush
flush_lem d takes enough =
    let (done, all) = send_loop_lem d.accepts d.out d.written takes enough in
    let accepts = (send_loop d.accepts d.out d.written).1.0 in
    (
      accepts,
      rw (done, flush)
          (ap (λ w. (some true, record d { out = []; accepts = accepts; written = w })) all),
    )

module _ (i : PathInfo) (h : IsInfo i) where
  skip_path_info-Takes : Takes skip_path_info (joined (info_parts i)) true
  unfolding skip_path_info
  skip_path_info-Takes = drop_all-Takes _ (info_parts i) (
    drop_text-Takes i.deriver h.deriver,
    (
      drop_text-Takes i.hash h.hash,
      (
        skip_strings-Takes i.references h.references.0 h.references.1,
        (
          drop_word-Takes i.time h.time,
          (
            drop_word-Takes i.size h.size,
            (
              drop_word-Takes i.ultimate h.ultimate,
              (
                skip_strings-Takes i.signatures h.signatures.0 h.signatures.1,
                (drop_text-Takes i.ca h.ca, tt),
              ),
            ),
          ),
        ),
      ),
    ),
  )

  read_path-Takes : Takes read_path (wire_string i.path ++ joined (info_parts i)) i.path
  read_path-Takes =
      Takes-bind read_string (λ path. skip_path_info >>= λ done. give path) (wire_string i.path)
        (joined (info_parts i)) (read_string-Takes i.path h.path)
        (Takes-then skip_path_info (λ done. i.path) (joined (info_parts i)) skip_path_info-Takes)

  read_reply-Takes : Takes read_reply (answer i) i.path
  unfolding read_reply
  read_reply-Takes =
      Takes-bind drain_stderr (λ done. read_path) (word stderr_last)
        (wire_string i.path ++ joined (info_parts i)) drain_stderr-Takes read_path-Takes

  -- `AddToStore` puts one request on the wire behind what waits there, whatever part of it each write
  -- takes, and gives the path of the daemon's answer, reading that and no more. Each write takes a byte at
  -- least; the answer has an empty log, strings of up to 64 MiB and numbers of 64 bits.
  pub add_to_store_lem :
      (name method contents : Bytes) (references : List Bytes) (d : Daemon) (rest : Bytes)
      → All (λ n. 0 < n) d.accepts
      → length (d.out ++ add_request name method references contents) ≤ length d.accepts
      → d.input ≡ answer i ++ rest
      → let (path, after) = add_to_store name method references contents d in
        (path ≡ some i.path)
        × (after.written ≡ d.written ++ (d.out ++ add_request name method references contents))
        × (after.input ≡ rest)
        × (after.out ≡ [])
  unfolding add_to_store
  add_to_store_lem name method contents references d rest takes enough answers =
      let asked : Daemon = record d {
        out = d.out ++ add_request name method references contents;
      } in
      let (accepts, sent) = flush_lem asked takes enough in
      let after : Daemon = record asked {
        out = [];
        accepts = accepts;
        written = asked.written ++ asked.out;
      } in
      let whole : add_to_store name method references contents d
          ≡ (some i.path, with_input after rest) =
        ap (λ r. elim r.0 [ none ↦ (none, r.1) | some x ↦ read_reply r.1 ]) sent
        ∙ ap (λ input. read_reply (with_input after input)) answers
        ∙ read_reply-Takes after rest in
      (
        ap (λ r. r.0) whole,
        ap (λ r. r.1.written) whole,
        ap (λ r. r.1.input) whole,
        ap (λ r. r.1.out) whole,
      )
