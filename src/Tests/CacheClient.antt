-- ===== src/Tests/CacheClient.antt =====
-- pkgs/ji/jig/src/cache_client.cc
use corepkgs_v.Prelude.{
  ℕ, ◌*◌, ◌^◌, ◌≤◌, ◌≡◌, refl, ap, inl, inr, true, false, none, some, List, [], ◌∷◌, ◌++◌, map,
  arith, Bool-cases, Bytes, codes, equal, starts_with, length, drop,
}
use corepkgs_v.CacheClient.{Client, send_all, connect, recv_line, recv_exactly}
use corepkgs_v.CacheClient.Codec.{Zstd, compress, decompress}
use corepkgs_v.CacheClient.Stream.{stream}
use corepkgs_v.CacheClient.Sends.{send_all_lem}
use corepkgs_v.CacheClient.Requests.{get, get_many, put_many, identities, has_many, acquire_slot}
use corepkgs_v.CacheClient.Answers.{reply, decoded, get_many-replies, get-put}
use corepkgs_v.Tests.Cached.{Entries, server}

restores :
    (bytes frame : Bytes) (capacity : ℕ)
    → some (7 ∷ bytes) ≡ some frame
    → length bytes ≤ capacity
    → some (drop 1 frame) ≡ some bytes
restores bytes frame capacity e h =
    let same : frame ≡ 7 ∷ bytes = ground arith in ap (λ f. some (drop 1 f)) same

-- A frame is the bytes behind a 7.
abbrev seven : Zstd
seven = record {
  compress = λ bytes. some (7 ∷ bytes);
  decompress = λ frame capacity. some (drop 1 frame);
  restores = restores;
}

abbrev entries : Entries
entries = (codes "o/1", 2 ∷ 0 ∷ 0 ∷ 0 ∷ 7 ∷ b'h' ∷ b'i' ∷ []) ∷ []

abbrev ready : Client
ready = record {
  valid = true;
  pending = [];
  chunks =
      codes "MI"
      ∷ (codes "SS" ++ (b'\n' ∷ codes "OK 7"))
      ∷ (b'\n' ∷ 2 ∷ 0 ∷ [])
      ∷ (0 ∷ 0 ∷ 7 ∷ b'h' ∷ [])
      ∷ (b'i' ∷ codes "1" ++ b'\n' ∷ [])
      ∷ [];
  accepts = 1 ∷ 2 ∷ 300 ∷ [];
  sent = [];
}

abbrev keys : List Bytes
keys = codes "m/1" ∷ codes "o/1" ∷ []

fits : (key : Bytes) (wire : Bytes) → server.get entries key ≡ some wire → length wire ≤ 2 * 2 ^ 30
unfolding corepkgs_v.Store.lookup
fits key wire h = elim (Bool-cases (equal (codes "o/1") key)) [
  | inl e ↦ ground arith
  | inr e ↦ ground arith
]

get_many-replies_example :
    let (values, after) = get_many seven ready keys in
    (values ≡ map (λ key. decoded seven (server.get entries key)) keys)
    × (stream after ≡ codes "1" ++ b'\n' ∷ [])
unfolding send_all corepkgs_v.CacheClient.Requests.all_requests
    corepkgs_v.CacheClient.Answers.replies corepkgs_v.CacheClient.Stream.joined
    corepkgs_v.Store.lookup equal corepkgs_v.Text.print_uint
get_many-replies_example =
    get_many-replies seven server entries ready (codes "1" ++ b'\n' ∷ []) refl
      (λ e. cc e, (λ e. cc e, (λ e. cc e, (λ e. cc e, (λ e. cc e, tt))))) keys refl
      (fits (codes "m/1"), (fits (codes "o/1"), tt)) refl

values_there : (get_many seven ready keys).0 ≡ none ∷ some (codes "hi") ∷ []
unfolding get_many send_all corepkgs_v.CacheClient.Requests.all_requests
    corepkgs_v.CacheClient.Requests.recv_values corepkgs_v.CacheClient.Requests.recv_value recv_line
    starts_with corepkgs_v.CacheClient.Requests.value_length corepkgs_v.Text.parse_uint
    corepkgs_v.CacheClient.Requests.recv_body recv_exactly decompress
    corepkgs_v.CacheClient.Codec.read_header
values_there = refl

requests_there :
    (get_many seven ready keys).1.sent
    ≡ codes "GET m/1" ++ (b'\n' ∷ (codes "GET o/1" ++ b'\n' ∷ []))
unfolding get_many send_all corepkgs_v.CacheClient.Requests.all_requests
    corepkgs_v.CacheClient.Requests.recv_values corepkgs_v.CacheClient.Requests.recv_value recv_line
    starts_with corepkgs_v.CacheClient.Requests.value_length corepkgs_v.Text.parse_uint
    corepkgs_v.CacheClient.Requests.recv_body recv_exactly
requests_there = refl

abbrev one_object : Client
one_object = record ready { chunks = codes "OK 7" ∷ (b'\n' ∷ 2 ∷ 0 ∷ 0 ∷ 0 ∷ 7 ∷ codes "hi") ∷ [] }

get-put_example :
    let (found, after) = get seven one_object (codes "o/2") in
    (found ≡ some (codes "hi")) × (stream after ≡ [])
unfolding send_all compress corepkgs_v.CacheClient.Codec.header_of corepkgs_v.Store.lookup
    corepkgs_v.CacheClient.Stream.joined equal corepkgs_v.Text.print_uint
get-put_example =
    get-put seven server entries one_object [] refl (λ e. cc e, (λ e. cc e, tt)) (codes "o/2")
      (codes "hi") refl (λ e. cc e) (omega arith) (omega arith) refl

send_all_lem_example :
    let (all_sent, after) = send_all ready (codes "DON") in
    (all_sent ≡ true) × (after.sent ≡ codes "DON")
send_all_lem_example =
    send_all_lem ready (codes "DON") (omega arith, (omega arith, (omega arith, tt))) (omega arith)

-- A send that fails, and an answer that breaks off.
broken : (get_many seven (record ready { accepts = 3 ∷ 0 ∷ [] }) keys).0 ≡ none ∷ none ∷ []
unfolding get_many send_all corepkgs_v.CacheClient.Requests.all_requests
broken = refl

cut_off : (get seven (record one_object { chunks = codes "OK 7" ∷ [] }) (codes "o/2")).0 ≡ none
unfolding get send_all corepkgs_v.CacheClient.Requests.recv_value recv_line
cut_off = refl

-- A confused server's length closes the connection.
too_large :
    let (found, after) =
      get seven
        (record one_object { chunks = (codes "OK 2147483649" ++ b'\n' ∷ []) ∷ [] })
        (codes "k") in
    (found ≡ none) × (after.valid ≡ false)
unfolding get send_all corepkgs_v.CacheClient.Requests.recv_value recv_line starts_with
    corepkgs_v.CacheClient.Requests.value_length corepkgs_v.Text.parse_uint
    corepkgs_v.CacheClient.close_client
too_large = (refl, refl)

ids_there :
    (identities (record ready { chunks = (codes "C:1" ++ (b'\n' ∷ b'\n' ∷ [])) ∷ [] }) keys).0
    ≡ codes "C:1" ∷ [] ∷ []
unfolding identities send_all corepkgs_v.Text.print_uint
    corepkgs_v.CacheClient.Requests.all_requests corepkgs_v.CacheClient.Requests.recv_ids recv_line
ids_there = refl

flags_there :
    (has_many (record ready { chunks = (b'1' ∷ b'\n' ∷ b'0' ∷ b'\n' ∷ []) ∷ [] }) keys).0
    ≡ true ∷ false ∷ []
unfolding has_many send_all corepkgs_v.CacheClient.Requests.all_requests
    corepkgs_v.CacheClient.Requests.recv_flags recv_line equal
flags_there = refl

slot_there :
    (acquire_slot (record ready { chunks = (codes "OK" ++ b'\n' ∷ []) ∷ [] }) (codes "b")).0 ≡ true
unfolding acquire_slot send_all recv_line equal
slot_there = refl

short_path : (connect (map (λ n. b'/') (codes "0123456789")) true [] [] ready).0 ≡ true
unfolding connect
short_path = refl

two_puts :
    (put_many seven
      (record ready { accepts = 100 ∷ 100 ∷ 100 ∷ 100 ∷ []; chunks = codes "OK" ∷ [] })
      ((codes "a", codes "x") ∷ (codes "b", []) ∷ [])).sent
    ≡ codes "PUT a 6"
      ++ (b'\n' ∷ 1 ∷ 0 ∷ 0 ∷ 0 ∷ 7 ∷ b'x' ∷ codes "PUT b 5")
      ++ (b'\n' ∷ 0 ∷ 0 ∷ 0 ∷ 0 ∷ 7 ∷ [])
unfolding put_many corepkgs_v.CacheClient.Requests.recv_lines
    corepkgs_v.CacheClient.Requests.put_items corepkgs_v.CacheClient.Requests.put_item compress
    corepkgs_v.CacheClient.Codec.header_of send_all corepkgs_v.Text.print_uint recv_line
two_puts = refl
