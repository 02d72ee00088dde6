-- ===== src/CacheClient/Stream.antt =====
-- `RecvLine` and `RecvExactly` of pkgs/ji/jig/src/cache_client.cc read a stream of bytes: how it is cut into chunks
-- does not matter.
use corepkgs_v.Prelude.{
  ℕ, ◌-◌, ◌≤◌, ◌≡◌, ◌≢◌, refl, sym, ap, ◌∙◌, inl, inr, true, false, none, some, List, [], ◌∷◌, ◌++◌,
  append_assoc, append-nil, arith, leb, Bool-cases, Bytes, Lacks, find_byte, find_byte-cases,
  first_unique, length, take, drop, All, All-append, length-append, take-append, drop-append,
  take_all, drop-append_length, take-append_length,
}
use mathlib.Core.Path.{subst}
use corepkgs_v.CacheClient.{
  Client, recv_line_loop, recv_exactly_loop, Received, recv_line, recv_exactly,
}

unfoldable pub joined : List Bytes → Bytes
joined [] = []
joined (chunk ∷ chunks) = chunk ++ joined chunks

-- No call of `read` to come fails.
abbrev pub AllRead : List Bytes → Type 0
AllRead = All (λ chunk. chunk ≢ [])

abbrev left_of : Received → Bytes
left_of (result, (pending, chunks)) = pending ++ joined chunks

-- What a receive gives, and that it leaves the stream behind that.
record Got (r : Received) (result rest : Bytes) : Type 0 where
  value : r.0 ≡ some result
  left : left_of r ≡ rest
  reads : AllRead r.1.1

line_pending :
    (chunks : List Bytes) (pending line f at : Bytes)
    → find_byte b'\n' pending ≡ some (f, b'\n' ∷ at)
    → recv_line_loop chunks pending line ≡ (some (line ++ f), (at, chunks))
unfolding recv_line_loop
line_pending [] pending line f at e = rw (e, recv_line_loop) refl
line_pending (chunk ∷ chunks) pending line f at e = rw (e, recv_line_loop) refl

line_read :
    (chunk : Bytes) (chunks : List Bytes) (pending line : Bytes)
    → chunk ≢ []
    → find_byte b'\n' pending ≡ none
    → recv_line_loop (chunk ∷ chunks) pending line ≡ recv_line_loop chunks chunk (line ++ pending)
unfolding recv_line_loop
line_read [] chunks pending line h e = absurd (h refl)
line_read (c ∷ s) chunks pending line h e = rw (e, recv_line_loop) refl

no_byte : (b : ℕ) (front rest : Bytes) → Lacks b (front ++ (b ∷ rest)) → ⊥
no_byte b [] rest h = h.0 refl
no_byte b (c ∷ front) rest h = no_byte b front rest h.1

Got-pending :
    (chunks : List Bytes) (pending line front rest f at : Bytes)
    → AllRead chunks
    → Lacks b'\n' front
    → pending ++ joined chunks ≡ front ++ (b'\n' ∷ rest)
    → find_byte b'\n' pending ≡ some (f, b'\n' ∷ at)
    → pending ≡ f ++ (b'\n' ∷ at)
    → Lacks b'\n' f
    → Got (recv_line_loop chunks pending line) (line ++ front) rest
Got-pending chunks pending line front rest f at reads h same e whole lacks =
    let cut : f ++ (b'\n' ∷ (at ++ joined chunks)) ≡ front ++ (b'\n' ∷ rest) =
      sym (append_assoc f (b'\n' ∷ at) (joined chunks))
      ∙ ap (λ s. s ++ joined chunks) (sym whole)
      ∙ same in
    let (one_front, one_rest) = first_unique b'\n' f front (at ++ joined chunks) rest lacks h cut in
    rw (line_pending chunks pending line f at e)
      (record { value = ap (λ x. some (line ++ x)) one_front; left = one_rest; reads = reads })

-- A line of the stream is received, however it is cut.
recv_line_loop-Got :
    (chunks : List Bytes) (pending line front rest : Bytes)
    → AllRead chunks
    → Lacks b'\n' front
    → pending ++ joined chunks ≡ front ++ (b'\n' ∷ rest)
    → Got (recv_line_loop chunks pending line) (line ++ front) rest
recv_line_loop-Got [] pending line front rest reads h same = elim (find_byte-cases b'\n' pending) [
  | inr (f, at, e, whole, lacks) ↦
      Got-pending [] pending line front rest f at reads h same e whole lacks
  | inl (e, lacks) ↦
      let whole : pending ≡ front ++ (b'\n' ∷ rest) =
        sym (append-nil pending) ∙ (unfold joined in same) in
      absurd (no_byte b'\n' front rest (subst (Lacks b'\n') whole lacks))
]
recv_line_loop-Got (chunk ∷ chunks) pending line front rest reads h same =
    elim (find_byte-cases b'\n' pending) [
      | inr (f, at, e, whole, lacks) ↦
          Got-pending (chunk ∷ chunks) pending line front rest f at reads h same e whole lacks
      | inl (e, lacks) ↦ elim (find_byte-cases b'\n' (joined (chunk ∷ chunks))) [
        | inl (e', lacks') ↦ absurd (
            no_byte b'\n' front rest (
              subst (Lacks b'\n') same
                (All-append (λ c. c ≢ b'\n') pending (joined (chunk ∷ chunks)) lacks lacks')))
        | inr (f, at, e', whole, lacks') ↦
            let cut : (pending ++ f) ++ (b'\n' ∷ at) ≡ front ++ (b'\n' ∷ rest) =
              append_assoc pending f (b'\n' ∷ at) ∙ ap (λ s. pending ++ s) (sym whole) ∙ same in
            let (one_front, one_rest) =
              first_unique b'\n' (pending ++ f) front at rest
                (All-append (λ c. c ≢ b'\n') pending f lacks lacks') h cut in
            rw (line_read chunk chunks pending line reads.0 e) (
              subst (λ x. Got (recv_line_loop chunks chunk (line ++ pending)) x rest)
                (append_assoc line pending f ∙ ap (λ s. line ++ s) one_front)
                (recv_line_loop-Got chunks chunk (line ++ pending) f rest reads.1 lacks'
                  (unfold joined in whole ∙ ap (λ s. f ++ (b'\n' ∷ s)) one_rest)))
      ]
    ]

module _ (pending rest : Bytes) (count : ℕ) where
  cut_pending :
      count ≤ length pending
      → (take count (pending ++ rest) ≡ take count pending)
        × (drop count (pending ++ rest) ≡ drop count pending ++ rest)
  cut_pending h =
      let none_more : count - length pending ≡ 0 = omega arith in
      (
        take-append count pending rest
            ∙ ap (λ k. take count pending ++ take k rest) none_more
            ∙ append-nil (take count pending),
        drop-append count pending rest ∙ ap (λ k. drop count pending ++ drop k rest) none_more,
      )

  cut_rest :
      length pending ≤ count
      → (take count (pending ++ rest) ≡ pending ++ take (count - length pending) rest)
        × (drop count (pending ++ rest) ≡ drop (count - length pending) rest)
  cut_rest h =
      let (all_taken, all_dropped) = take_all count pending h in
      (
        take-append count pending rest
            ∙ ap (λ s. s ++ take (count - length pending) rest) all_taken,
        drop-append count pending rest
            ∙ ap (λ s. s ++ drop (count - length pending) rest) all_dropped,
      )

exactly_pending :
    (chunks : List Bytes) (pending : Bytes) (count : ℕ) (out : Bytes)
    → leb count (length pending) ≡ true
    → recv_exactly_loop chunks pending count out
      ≡ (some (out ++ take count pending), (drop count pending, chunks))
unfolding recv_exactly_loop
exactly_pending [] pending count out e = rw (e, recv_exactly_loop) refl
exactly_pending (chunk ∷ chunks) pending count out e = rw (e, recv_exactly_loop) refl

exactly_read :
    (chunk : Bytes) (chunks : List Bytes) (pending : Bytes) (count : ℕ) (out : Bytes)
    → chunk ≢ []
    → leb count (length pending) ≡ false
    → recv_exactly_loop (chunk ∷ chunks) pending count out
      ≡ recv_exactly_loop chunks chunk (count - length pending) (out ++ pending)
unfolding recv_exactly_loop
exactly_read [] chunks pending count out h e = absurd (h refl)
exactly_read (c ∷ s) chunks pending count out h e = rw (e, recv_exactly_loop) refl

exactly_enough :
    (chunks : List Bytes) (pending : Bytes) (count : ℕ) (out : Bytes)
    → AllRead chunks
    → leb count (length pending) ≡ true
    → Got
        (recv_exactly_loop chunks pending count out)
        (out ++ take count (pending ++ joined chunks))
        (drop count (pending ++ joined chunks))
exactly_enough chunks pending count out reads e =
    let (taken, dropped) = cut_pending pending (joined chunks) count (ground arith) in
    rw (exactly_pending chunks pending count out e)
      (record { value = ap (λ s. some (out ++ s)) (sym taken); left = sym dropped; reads = reads })

-- A number of bytes of the stream are received, however it is cut.
recv_exactly_loop-Got :
    (chunks : List Bytes) (pending : Bytes) (count : ℕ) (out : Bytes)
    → AllRead chunks
    → count ≤ length (pending ++ joined chunks)
    → Got
        (recv_exactly_loop chunks pending count out)
        (out ++ take count (pending ++ joined chunks))
        (drop count (pending ++ joined chunks))
recv_exactly_loop-Got [] pending count out reads h =
    let all_there : length (pending ++ joined []) ≡ length pending =
      unfold joined in ap length (append-nil pending) in
    let enough : leb count (length pending) ≡ true = ground (arith, all_there, h) in
    exactly_enough [] pending count out reads enough
recv_exactly_loop-Got (chunk ∷ chunks) pending count out reads h =
    elim (Bool-cases (leb count (length pending))) [
      | inl e ↦ exactly_enough (chunk ∷ chunks) pending count out reads e
      | inr e ↦
          let more = joined (chunk ∷ chunks) in
          let (taken, dropped) = cut_rest pending more count (ground arith) in
          let fits : count - length pending ≤ length (chunk ++ joined chunks) =
            unfold joined in omega (arith, h, length-append pending (chunk ++ joined chunks)) in
          let got =
            recv_exactly_loop-Got chunks chunk (count - length pending) (out ++ pending) reads.1
              fits in
          rw (exactly_read chunk chunks pending count out reads.0 e) (record {
            value =
                got.value
                ∙ ap some (
                    append_assoc out pending _ ∙ ap (λ s. out ++ s) (sym (unfold joined in taken)));
            left = got.left ∙ sym (unfold joined in dropped);
            reads = got.reads;
          })
    ]

-- The bytes that are still to be received.
abbrev pub stream : Client → Bytes
stream client = client.pending ++ joined client.chunks

-- A client behind a receive, with the stream that is left.
pub record Behind (client after : Client) (rest : Bytes) : Type 0 where
  pub left : stream after ≡ rest
  pub reads : AllRead after.chunks
  pub same_valid : after.valid ≡ client.valid

pub recv_line-stream :
    (client : Client) (line rest : Bytes)
    → AllRead client.chunks
    → Lacks b'\n' line
    → stream client ≡ line ++ (b'\n' ∷ rest)
    → ((recv_line client).0 ≡ some line) × Behind client (recv_line client).1 rest
unfolding recv_line
recv_line-stream client line rest reads h same =
    let got = recv_line_loop-Got client.chunks client.pending [] line rest reads h same in
    (got.value, record { left = got.left; reads = got.reads; same_valid = refl })

pub recv_exactly-stream :
    (client : Client) (bytes rest : Bytes)
    → AllRead client.chunks
    → stream client ≡ bytes ++ rest
    → ((recv_exactly client (length bytes)).0 ≡ some bytes)
      × Behind client (recv_exactly client (length bytes)).1 rest
unfolding recv_exactly
recv_exactly-stream client bytes rest reads same =
    let fits : length bytes ≤ length (stream client) =
      rw same (omega (arith, length-append bytes rest)) in
    let got = recv_exactly_loop-Got client.chunks client.pending (length bytes) [] reads fits in
    (
      got.value
          ∙ ap (λ s. some (take (length bytes) s)) same
          ∙ ap some (take-append_length bytes rest),
      record {
        left = got.left ∙ ap (λ s. drop (length bytes) s) same ∙ drop-append_length bytes rest;
        reads = got.reads;
        same_valid = refl;
      },
    )
