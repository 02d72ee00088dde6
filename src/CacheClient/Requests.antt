-- ===== src/CacheClient/Requests.antt =====
-- The requests of `CacheClient` in pkgs/ji/jig/src/cache_client.cc.
use corepkgs_v.Prelude.{
  ℕ, zero, suc, ◌+◌, ◌*◌, ◌^◌, Bool, false, not, Option, none, some, List, [], ◌∷◌, ◌++◌, map, ltb,
  if◌then◌else◌, Bytes, codes, equal, starts_with, length, drop,
}
use corepkgs_v.Text.{print_uint, parse_uint}
use corepkgs_v.CacheClient.{Client, send_all, recv_line, recv_exactly, close_client}
use corepkgs_v.CacheClient.Codec.{Zstd, compress, decompress}

-- `kMaxObjectSize`
abbrev pub max_object_size : ℕ
max_object_size = 2 * 2 ^ 30

-- The length that a line "OK <len>" gives; a confused server gives none, or too large a one.
unfoldable pub value_length : Bytes → Option ℕ
value_length line = elim (parse_uint 10 (drop 3 line)) [
  | none ↦ none
  | some len ↦ if ltb max_object_size len then none else some len
]

abbrev pub request_line : Bytes → Bytes → Bytes
request_line verb rest = verb ++ (b' ' ∷ (rest ++ b'\n' ∷ []))

abbrev pub get_request : Bytes → Bytes
get_request key = request_line (codes "GET") key

abbrev pub put_request : Bytes → Bytes → Bytes
put_request key wire = request_line (codes "PUT") (key ++ (b' ' ∷ print_uint 10 (length wire)))

unfoldable pub all_requests : (Bytes → Bytes) → List Bytes → Bytes
all_requests request [] = []
all_requests request (key ∷ keys) = request key ++ all_requests request keys

-- Whether an answer line is the given word.
abbrev pub line_is : Bytes → Option Bytes → Bool
line_is word none = false
line_is word (some line) = equal line word

module _ (zstd : Zstd) where
  -- The body behind its line.
  unfoldable pub recv_body : Client → ℕ → Option Bytes × Client
  recv_body client len =
      let (wire, after) = recv_exactly client len in
      (elim wire [ none ↦ none | some bytes ↦ decompress zstd bytes ], after)

  -- `RecvValue`
  unfoldable pub recv_value : Client → Option Bytes × Client
  recv_value client =
      let (line, after) = recv_line client in
      elim line [
        | none ↦ (none, after)
        | some text ↦
            let body : Option Bytes × Client = elim (value_length text) [
              | none ↦ (none, close_client after)
              | some len ↦ recv_body after len
            ] in
            if starts_with text (codes "OK ") then body else (none, after)
      ]

  -- `Get`
  unfoldable pub get : Client → Bytes → Option Bytes × Client
  get client key =
      let (sent, after) = send_all client (get_request key) in
      if not client.valid then (none, client) else if sent then recv_value after else (none, after)

  -- The answers of a number of requests, in order.
  unfoldable pub recv_values : Client → List Bytes → List (Option Bytes) × Client
  recv_values client [] = ([], client)
  recv_values client (key ∷ keys) =
      let (value, after) = recv_value client in
      let (values, last) = recv_values after keys in (value ∷ values, last)

  abbrev pub misses : List Bytes → List (Option Bytes)
  misses keys = map (λ key. none) keys

  -- `GetMany`
  unfoldable pub get_many : Client → List Bytes → List (Option Bytes) × Client
  get_many client [] = ([], client)
  get_many client (key ∷ keys) =
      let (sent, after) = send_all client (all_requests get_request (key ∷ keys)) in
      if not client.valid
      then (misses (key ∷ keys), client)
      else if sent
      then recv_values after (key ∷ keys)
      else (misses (key ∷ keys), after)

  -- The sends of one item: whether all of it went out.
  unfoldable pub put_item : Client → Bytes → Bytes → Bool × Client
  unfolding equal
  put_item client key value =
      let wire = compress zstd value in
      let (head_sent, headed) = send_all client (put_request key wire) in
      let (body_sent, bodied) = send_all headed wire in
      if equal wire []
      then (false, client)
      else if head_sent
      then (body_sent, bodied)
      else (false, headed)

  -- `Put`
  unfoldable pub put : Client → Bytes → Bytes → Client
  put client key value =
      let (sent, after) = put_item client key value in
      if not client.valid then client else if sent then (recv_line after).1 else after

  -- The first loop of `PutMany`, to the first item that cannot be sent: how many were.
  unfoldable pub put_items : Client → List (Bytes × Bytes) → ℕ × Client
  put_items client [] = (0, client)
  put_items client ((key, value) ∷ items) =
      let (sent, after) = put_item client key value in
      let (count, last) = put_items after items in if sent then (count + 1, last) else (0, after)

  -- The second loop: a line is read for each item sent.
  unfoldable pub recv_lines : ℕ → Client → Client
  recv_lines zero client = client
  recv_lines (suc n) client = recv_lines n (recv_line client).1

  -- `PutMany`
  unfoldable pub put_many : Client → List (Bytes × Bytes) → Client
  put_many client items =
      let (count, after) = put_items client items in
      if client.valid then recv_lines count after else client

-- The lines of a number of answers; none if one is missing.
unfoldable pub recv_ids : Client → List Bytes → Option (List Bytes) × Client
recv_ids client [] = (some [], client)
recv_ids client (path ∷ paths) =
    let (line, after) = recv_line client in
    let (ids, last) = recv_ids after paths in
    elim line [
      | none ↦ (none, after)
      | some id ↦ (elim ids [ none ↦ none | some rest ↦ some (id ∷ rest) ], last)
    ]

abbrev pub or_no_ids : Option (List Bytes) → List Bytes
or_no_ids none = []
or_no_ids (some ids) = ids

-- `Identities`
unfoldable pub identities : Client → List Bytes → List Bytes × Client
identities client [] = ([], client)
identities client (path ∷ paths) =
    let count = request_line (codes "IDS") (print_uint 10 (length (path ∷ paths))) in
    let (sent, after) =
      send_all client (count ++ all_requests (λ p. p ++ b'\n' ∷ []) (path ∷ paths)) in
    let (ids, last) = recv_ids after (path ∷ paths) in
    if not client.valid then ([], client) else if sent then (or_no_ids ids, last) else ([], after)

-- The answers of `HasMany`.
unfoldable pub recv_flags : Client → List Bytes → List Bool × Client
recv_flags client [] = ([], client)
recv_flags client (key ∷ keys) =
    let (line, after) = recv_line client in
    let (flags, last) = recv_flags after keys in (line_is (codes "1") line ∷ flags, last)

-- `HasMany`
unfoldable pub has_many : Client → List Bytes → List Bool × Client
has_many client [] = ([], client)
has_many client (key ∷ keys) =
    let (sent, after) = send_all client (all_requests (request_line (codes "HAS")) (key ∷ keys)) in
    let none_there = map (λ k. false) (key ∷ keys) in
    if not client.valid
    then (none_there, client)
    else if sent
    then recv_flags after (key ∷ keys)
    else (none_there, after)

-- `AcquireSlot`
unfoldable pub acquire_slot : Client → Bytes → Bool × Client
acquire_slot client build =
    let (sent, after) = send_all client (request_line (codes "SLOT") build) in
    let (line, last) = recv_line after in
    if not client.valid
    then (false, client)
    else if sent
    then (line_is (codes "OK") line, last)
    else (false, after)

-- `ReleaseSlot`
unfoldable pub release_slot : Client → Bytes → Client
release_slot client build =
    let (sent, after) = send_all client (request_line (codes "DONE") build) in
    if not client.valid then client else if sent then (recv_line after).1 else after
