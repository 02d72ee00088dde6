-- ===== src/CacheClient.antt =====
-- pkgs/ji/jig/src/cache_client.cc: the client of the cache daemon. A socket is what its calls answer: the bytes
-- that each `send` takes and the chunks that each `read` gives.
pub mod Codec
pub mod Requests
pub mod Stream
pub mod Answers
pub mod Sends
use corepkgs_v.Prelude.{
  ℕ, zero, suc, ◌+◌, ◌-◌, ◌*◌, ◌/◌, ◌%◌, ◌^◌, ◌≤◌, ◌<◌, min, max, ◌≡◌, ◌≢◌, refl, sym, ap, ◌∙◌, ◌⊎◌,
  ◌↔◌, inl, inr, Bool, true, false, not, ◌&&◌, ◌||◌, Option, none, some, List, [], ◌∷◌, ◌++◌, map,
  append_assoc, append-nil, arith, ltb, leb, ◌==◌, if◌then◌else◌, ==_iff, Bool-cases, or_false,
  Option-cases, Bytes, codes, Lacks, IsBytes, equal, equal_iff, starts_with, starts_with-append,
  eq_of_starts_with, ends_with, find, find_byte, find_byte-first, has, contains, find-append,
  length, take, drop, get_elem?, replicate, any, all, All, All-append, length-append,
  take-append-drop, drop-append_length, take-append_length, length-take, length-drop,
  length-replicate,
}

-- The client between two calls: whether the descriptor is valid, `pending_`, what the calls of `read` and
-- `send` still to come answer, and all that was sent. A `send` that answers 0 has failed.
pub record Client : Type 0 where
  pub valid : Bool
  pub pending : Bytes
  pub chunks : List Bytes
  pub accepts : List ℕ
  pub sent : Bytes

-- The loop of `SendAll`: whether all went out, the answers left and what was sent.
unfoldable pub send_loop : List ℕ → Bytes → Bytes → Bool × (List ℕ × Bytes)
send_loop accepts [] sent = (true, (accepts, sent))
send_loop [] (c ∷ bytes) sent = (false, ([], sent))
send_loop (zero ∷ accepts) (c ∷ bytes) sent = (false, (accepts, sent))
send_loop (suc n ∷ accepts) (c ∷ bytes) sent =
    send_loop accepts (drop n bytes) (sent ++ (c ∷ take n bytes))

-- `SendAll`
unfoldable pub send_all : Client → Bytes → Bool × Client
unfolding send_loop
send_all client bytes =
    let (all_sent, (accepts, sent)) = send_loop client.accepts bytes client.sent in
    (all_sent, record client { accepts = accepts; sent = sent })

-- What receiving comes to: the result, `pending_` and the chunks not read.
abbrev pub Received : Type 0
Received = Option Bytes × (Bytes × List Bytes)

-- The loop of `RecvLine`; each round but the last reads a chunk (`Fill`), an empty one being the end.
unfoldable pub recv_line_loop : List Bytes → Bytes → Bytes → Received
unfolding find_byte
recv_line_loop [] pending line = elim (find_byte b'\n' pending) [
  | some (front, at) ↦ (some (line ++ front), (drop 1 at, []))
  | none ↦ (none, (pending, []))
]
recv_line_loop (chunk ∷ chunks) pending line =
    let more = recv_line_loop chunks chunk (line ++ pending) in
    elim (find_byte b'\n' pending) [
      | some (front, at) ↦ (some (line ++ front), (drop 1 at, chunk ∷ chunks))
      | none ↦ elim chunk [ [] ↦ (none, (pending, chunks)) | c ∷ s ↦ more ]
    ]

-- The loop of `RecvExactly` with `count` bytes to go: what is pending, and a chunk when that is used up.
unfoldable pub recv_exactly_loop : List Bytes → Bytes → ℕ → Bytes → Received
recv_exactly_loop [] pending count out =
    if leb count (length pending)
    then (some (out ++ take count pending), (drop count pending, []))
    else (none, ([], []))
recv_exactly_loop (chunk ∷ chunks) pending count out =
    let more = recv_exactly_loop chunks chunk (count - length pending) (out ++ pending) in
    if leb count (length pending)
    then (some (out ++ take count pending), (drop count pending, chunk ∷ chunks))
    else elim chunk [ [] ↦ (none, ([], chunks)) | c ∷ s ↦ more ]

abbrev pub received : Client → Received → Option Bytes × Client
received client (result, (pending, chunks)) =
    (result, record client { pending = pending; chunks = chunks })

-- `RecvLine`
unfoldable pub recv_line : Client → Option Bytes × Client
unfolding recv_line_loop
recv_line client = received client (recv_line_loop client.chunks client.pending [])

-- `RecvExactly`
unfoldable pub recv_exactly : Client → ℕ → Option Bytes × Client
unfolding recv_exactly_loop
recv_exactly client count =
    received client (recv_exactly_loop client.chunks client.pending count [])

-- `fd_ = UniqueFd()`: from here on `read` and `send` fail.
unfoldable pub close_client : Client → Client
close_client client = record client { valid = false; chunks = []; accepts = [] }

-- `sizeof(sockaddr_un::sun_path)`
abbrev pub path_size : ℕ
path_size = 108

-- `Connect`; `opens` tells if `socket` and `connect` succeed, and the socket is the rest.
unfoldable pub connect : Bytes → Bool → List Bytes → List ℕ → Client → Bool × Client
connect socket_path opens chunks accepts client =
    if leb path_size (length socket_path) || not opens
    then (false, client)
    else (true, record client { valid = true; chunks = chunks; accepts = accepts })
