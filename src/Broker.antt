-- ===== src/Broker.antt =====
-- pkgs/js/jsem/src/broker.cc: the broker between ghc's semaphore and the daemon's slots. A slot is
-- a number; the semaphore is its count. `sem_trywait` and `sem_post` are the atomic steps.
pub mod Safety
pub mod Tick
pub mod Served
use corepkgs_v.Prelude.{
  ℕ, zero, suc, ◌+◌, ◌-◌, ◌*◌, ◌/◌, ◌%◌, ◌^◌, ◌≤◌, ◌<◌, min, max, ◌≡◌, ◌≢◌, refl, sym, ap, ◌∙◌, ◌⊎◌,
  ◌↔◌, inl, inr, Bool, true, false, not, ◌&&◌, ◌||◌, Option, none, some, List, [], ◌∷◌, ◌++◌, map,
  append_assoc, append-nil, arith, ltb, leb, ◌==◌, if◌then◌else◌, ==_iff, Bool-cases, Option-cases,
  Bytes, codes, Lacks, IsBytes, equal, equal_iff, starts_with, starts_with-append,
  eq_of_starts_with, ends_with, find, find_byte, has, contains, find-append, length, take, drop,
  get_elem?, replicate, any, all, All, All-append, length-append, take-append-drop,
  drop-append_length, take-append_length, length-take, length-drop, length-replicate,
}

-- `Sem::TryWait`: the count afterwards, and whether a token was taken.
unfoldable pub try_wait : ℕ → ℕ × Bool
try_wait zero = (0, false)
try_wait (suc sem) = (sem, true)

-- `Sem::Post`
abbrev pub post : ℕ → ℕ
post sem = sem + 1

-- A `Token` that the source hands out; none is a null pointer.
abbrev pub Token : Type 0
Token = ℕ

-- `Broker::held_`
abbrev pub Held : Type 0
Held = List Token

-- What `Tick` does between its loop and its `Post`, with what the source answers to `want`: the
-- slots held, and whether to post.
unfoldable pub settle : ℕ → Held → (Bool → Option Token) → Held × Bool
settle idle held source =
    let in_use = length held - min (length held) idle in
    let kept = take (min (length held) (in_use + 1)) held in
    let spare = length kept == in_use + 1 in
    let held' : Held = elim (source (not spare)) [
      | none ↦ kept
      | some token ↦ kept ++ token ∷ []
    ] in
    (held', ltb in_use (length held'))

-- `while (sem_->TryWait()) ++idle;` with nobody else at the semaphore: the count and `idle`.
unfoldable pub drain : ℕ → ℕ → ℕ × ℕ
drain zero idle = (0, idle)
drain (suc sem) idle = drain sem (idle + 1)

-- The code behind the loop.
unfoldable pub after_drain : (Bool → Option Token) → Held → ℕ × ℕ → ℕ × Held
after_drain source held (sem, idle) =
    let (held', posts) = settle idle held source in (if posts then post sem else sem, held')

-- `Broker::Tick`, with nobody else at the semaphore.
unfoldable pub tick : (Bool → Option Token) → ℕ × Held → ℕ × Held
unfolding drain after_drain
tick source (sem, held) = after_drain source held (drain sem 0)

-- `~Broker`: a token is taken back for each slot held, until there is none; the slots are dropped.
unfoldable pub take_back : ℕ → ℕ → ℕ
take_back zero sem = sem
take_back (suc n) zero = 0
take_back (suc n) (suc sem) = take_back n sem

unfoldable pub close_broker : ℕ × Held → ℕ × Held
unfolding take_back
close_broker (sem, held) = (take_back (length held) sem, [])

-- What the daemon's side of a call of the source does: whether the connection opens, the order is
-- sent, an answer is there to read, and is "OK".
pub record Answers : Type 0 where
  pub opens : Bool
  pub sends : Bool
  pub readable : Bool
  pub accepts : Bool
  pub token : Token

-- The closure of `DaemonSource`: `pending` tells if an order is in flight.
unfoldable pub daemon_source : Answers → Bool → Bool → Option Token × Bool
daemon_source a pending false = (none, false)
daemon_source a pending true =
    if not pending && not (a.opens && a.sends)
    then (none, false)
    else if not a.readable
    then (none, true)
    else (if a.accepts then some a.token else none, false)

-- The broker, between two of its steps.
pub data Phase : Type 0 where
  resting posting : Phase
  draining : ℕ → Phase

-- One broker, the ghc that it serves and the semaphore.
pub record System : Type 0 where
  pub sem : ℕ
  pub ghc : ℕ
  pub held : Held
  pub phase : Phase

-- The atomic steps: ghc takes and gives back tokens at any time; the broker goes through `Tick`.
-- `drained` is the `sem_trywait` that fails, with the code behind it up to the `Post`.
pub data Step : System → System → Type 0 where
  ghc_takes : (s : System) (n : ℕ) → s.sem ≡ suc n → Step s (record s { sem = n; ghc = s.ghc + 1 })
  ghc_gives : (s : System) (n : ℕ) → s.ghc ≡ suc n → Step s (record s { sem = s.sem + 1; ghc = n })
  starts : (s : System) → s.phase ≡ resting → Step s (record s { phase = draining 0 })
  drains :
      (s : System) (n idle : ℕ)
      → s.phase ≡ draining idle
      → s.sem ≡ suc n
      → Step s (record s { sem = n; phase = draining (idle + 1) })
  drained :
      (s : System) (idle : ℕ) (source : Bool → Option Token)
      → s.phase ≡ draining idle
      → s.sem ≡ 0
      → Step s (record s {
        held = (settle idle s.held source).0;
        phase = if (settle idle s.held source).1 then posting else resting;
      })
  posts : (s : System) → s.phase ≡ posting → Step s (record s { sem = post s.sem; phase = resting })

pub data Reach (s : System) : System → Type 0 where
  here : Reach s s
  next : {t u : System} → Reach s t → Step t u → Reach s u
