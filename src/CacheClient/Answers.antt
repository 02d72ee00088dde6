-- ===== src/CacheClient/Answers.antt =====
-- What `CacheClient` of pkgs/ji/jig/src/cache_client.cc makes of the answers of a daemon.
use corepkgs_v.Prelude.{
  ℕ, ◌^◌, ◌≤◌, ◌<◌, ◌≡◌, ◌≢◌, refl, ap, ◌∙◌, inl, true, false, Option, none, some, List, [], ◌∷◌,
  ◌++◌, map, append_assoc, arith, ltb, Bytes, codes, Lacks, starts_with, length, All, All-append,
}
use mathlib.Core.Path.{subst}
use corepkgs_v.Text.{print_uint}
use corepkgs_v.Text.Numbers.{print_uint-Lacks, parse_uint-print_uint}
use corepkgs_v.Daemon.{CacheServer}
use corepkgs_v.CacheClient.{Client, send_all, recv_line}
use corepkgs_v.CacheClient.Codec.{Zstd, compress, decompress, decompress-compress}
use corepkgs_v.CacheClient.Stream.{AllRead, stream, Behind, recv_line-stream, recv_exactly-stream}
use corepkgs_v.CacheClient.Requests.{
  max_object_size, value_length, get_request, all_requests, recv_body, recv_value, get, recv_values,
  get_many,
}

-- What the daemon answers to a GET, as the comment in cache_client.h says.
abbrev pub reply : Option Bytes → Bytes
reply none = codes "MISS" ++ b'\n' ∷ []
reply (some wire) = (codes "OK " ++ print_uint 10 (length wire)) ++ (b'\n' ∷ wire)

unfoldable pub replies : (Bytes → Option Bytes) → List Bytes → Bytes
replies answer [] = []
replies answer (key ∷ keys) = reply (answer key) ++ replies answer keys

-- The client takes objects up to a size.
abbrev pub Fits : Option Bytes → Type 0
Fits answer = (wire : Bytes) → answer ≡ some wire → length wire ≤ max_object_size

some-inj : {a b : Bytes} → some a ≡ some b → a ≡ b
some-inj e = ground arith

module _ (zstd : Zstd) where
  abbrev pub decoded : Option Bytes → Option Bytes
  decoded none = none
  decoded (some wire) = decompress zstd wire

  value_length-print_uint :
      (len : ℕ) → len ≤ max_object_size → value_length (codes "OK " ++ print_uint 10 len) ≡ some len
  unfolding value_length
  value_length-print_uint len h =
      let small : ltb max_object_size len ≡ false = ground arith in
      rw
        (
          parse_uint-print_uint 10 len (omega arith) (omega arith) (omega arith),
          value_length,
          small,
        )
        refl

  recv_body-stream :
      (client : Client) (wire rest : Bytes)
      → AllRead client.chunks
      → stream client ≡ wire ++ rest
      → ((recv_body zstd client (length wire)).0 ≡ decompress zstd wire)
        × Behind client (recv_body zstd client (length wire)).1 rest
  unfolding recv_body
  recv_body-stream client wire rest reads same =
      let (value, behind) = recv_exactly-stream client wire rest reads same in
      (rw (value, recv_body) refl, behind)

  no_newline : (len : ℕ) → Lacks b'\n' (codes "OK " ++ print_uint 10 len)
  no_newline len =
      All-append (λ c. c ≢ b'\n') (codes "OK ") (print_uint 10 len) (omega arith)
        (print_uint-Lacks 10 (omega arith) (omega arith) b'\n' len (inl (omega arith)))

  recv_value-reply :
      (client : Client) (answer : Option Bytes) (rest : Bytes)
      → AllRead client.chunks
      → Fits answer
      → stream client ≡ reply answer ++ rest
      → ((recv_value zstd client).0 ≡ decoded answer)
        × Behind client (recv_value zstd client).1 rest
  unfolding recv_value starts_with
  recv_value-reply client none rest reads fits same =
      let (line, behind) = recv_line-stream client (codes "MISS") rest reads (omega arith) same in
      rw (line, recv_value) (refl, behind)
  recv_value-reply client (some wire) rest reads fits same =
      let text = codes "OK " ++ print_uint 10 (length wire) in
      let (line, behind) =
        recv_line-stream client text (wire ++ rest) reads (no_newline (length wire))
          (same ∙ append_assoc text (b'\n' ∷ wire) rest) in
      let len = value_length-print_uint (length wire) (fits wire refl) in
      let (value, last) =
        recv_body-stream (recv_line client).1 wire rest behind.reads behind.left in
      rw (line, recv_value, len)
        (
          value,
          record {
            left = last.left;
            reads = last.reads;
            same_valid = last.same_valid ∙ behind.same_valid;
          },
        )

  recv_values-replies :
      (answer : Bytes → Option Bytes) (keys : List Bytes) (client : Client) (rest : Bytes)
      → AllRead client.chunks
      → All (λ key. Fits (answer key)) keys
      → stream client ≡ replies answer keys ++ rest
      → ((recv_values zstd client keys).0 ≡ map (λ key. decoded (answer key)) keys)
        × Behind client (recv_values zstd client keys).1 rest
  unfolding recv_values replies
  recv_values-replies answer [] client rest reads fits same =
      (refl, record { left = same; reads = reads; same_valid = refl })
  recv_values-replies answer (key ∷ keys) client rest reads fits same =
      let (value, behind) =
        recv_value-reply client (answer key) (replies answer keys ++ rest) reads fits.0
          (same ∙ append_assoc (reply (answer key)) (replies answer keys) rest) in
      let (values, last) =
        recv_values-replies answer keys (recv_value zstd client).1 rest behind.reads fits.1
          behind.left in
      (
        rw (value, values) refl,
        record {
          left = last.left;
          reads = last.reads;
          same_valid = last.same_valid ∙ behind.same_valid;
        },
      )

  -- Sending leaves what is to be received.
  sent-Behind :
      (client : Client) (bytes : Bytes)
      → AllRead client.chunks
      → Behind client (send_all client bytes).1 (stream client)
  unfolding send_all
  sent-Behind client bytes reads = record { left = refl; reads = reads; same_valid = refl }

  module _ {S : Type 0} (server : CacheServer S) (st : S) (client : Client) (rest : Bytes)
      (valid : client.valid ≡ true) (reads : AllRead client.chunks) where
    -- Whichever way the daemon's answers to a number of GETs are cut into reads, `GetMany` gives the
    -- value of each key in order, decompressed, or none for a miss, and leaves the stream behind the
    -- answers. The client is connected and the requests go out; no read fails, and no object is larger
    -- than the client takes.
    pub get_many-replies :
        (keys : List Bytes)
        → (send_all client (all_requests get_request keys)).0 ≡ true
        → All (λ key. Fits (server.get st key)) keys
        → stream client ≡ replies (server.get st) keys ++ rest
        → let (values, after) = get_many zstd client keys in
          (values ≡ map (λ key. decoded (server.get st key)) keys) × (stream after ≡ rest)
    unfolding get_many
    get_many-replies [] sent fits same = (refl, unfold replies in same)
    get_many-replies (key ∷ keys) sent fits same =
        let after = (send_all client (all_requests get_request (key ∷ keys))).1 in
        let ready = sent-Behind client (all_requests get_request (key ∷ keys)) reads in
        let (values, behind) =
          recv_values-replies (server.get st) (key ∷ keys) after rest ready.reads fits
            (ready.left ∙ same) in
        simp (get_many, valid, sent) (values, behind.left)

    -- What `Put` compresses of a value is what `Get` gives of it, however the daemon's answer is cut into
    -- reads, if the daemon keeps it. The client is connected and the request goes out; no read fails; zstd
    -- can compress the value, and the object is no larger than the client takes.
    pub get-put :
        (key value : Bytes)
        → (send_all client (get_request key)).0 ≡ true
        → zstd.compress value ≢ none
        → length value < 2 ^ 32
        → length (compress zstd value) ≤ max_object_size
        → stream client ≡ reply (server.get (server.put st key (compress zstd value)) key) ++ rest
        → let (found, after) = get zstd client key in (found ≡ some value) × (stream after ≡ rest)
    unfolding get
    get-put key value sent works small fits same =
        let after = (send_all client (get_request key)).1 in
        let ready = sent-Behind client (get_request key) reads in
        let kept = server.get_put st key (compress zstd value) in
        let answered : stream after ≡ reply (some (compress zstd value)) ++ rest =
          ready.left ∙ same ∙ ap (λ a. reply a ++ rest) kept in
        let fits' : Fits (some (compress zstd value)) =
          λ wire e. subst (λ w. length w ≤ max_object_size) (some-inj e) fits in
        let (found, behind) =
          recv_value-reply after (some (compress zstd value)) rest ready.reads fits' answered in
        simp (get, valid, sent) (found ∙ decompress-compress zstd value works small, behind.left)
