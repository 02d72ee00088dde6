-- ===== src/Broker/Tick.antt =====
-- `Tick` of pkgs/js/jsem/src/broker.cc run without interruption leaves one spare at most.
use corepkgs_v.Prelude.{
  ℕ, zero, suc, ◌+◌, ◌-◌, ◌≤◌, min, ◌≡◌, ◌≢◌, refl, ap, ◌∙◌, inl, inr, Bool, true, false, Option,
  none, arith, if◌then◌else◌, length,
}
use corepkgs_v.Broker.{Token, Held, settle, drain, after_drain, tick, post, Answers, daemon_source}
use corepkgs_v.Broker.Safety.{length-kept, length-settle, settle_posts, posted}

drain_lem : (sem idle : ℕ) → drain sem idle ≡ (0, idle + sem)
unfolding drain
drain_lem zero idle = λ i. (0, e i)
  where
    e : idle ≡ idle + 0
    e = omega arith
drain_lem (suc sem) idle = drain_lem sem (idle + 1) ∙ (λ i. (0, e i))
  where
    e : idle + 1 + sem ≡ idle + suc sem
    e = omega arith

pub tick_lem :
    (source : Bool → Option Token) (sem : ℕ) (held : Held)
    → tick source (sem, held) ≡ (posted (settle sem held source).1, (settle sem held source).0)
unfolding tick after_drain
tick_lem source sem held =
    ap (after_drain source held) (drain_lem sem 0)
    ∙ (λ i. (count i, (settle (idle i) held source).0))
  where
    idle : 0 + sem ≡ sem
    idle = omega arith

    count :
        (if (settle (0 + sem) held source).1 then post 0 else 0) ≡ posted (settle sem held source).1
    count = ap (λ n. posted (settle n held source).1) idle

-- A `Tick` with nobody else at the semaphore, whose source hands out nothing when nothing is
-- wanted, leaves the slots that ghc holds tokens of and one for the token on offer, if there is one: never
-- more than one spare.
pub tick_spare :
    (source : Bool → Option Token) (sem : ℕ) (held : Held)
    → source false ≡ none
    → let (sem', held') = tick source (sem, held) in
      (length held' ≡ length held - min (length held) sem + sem') × (sem' ≤ 1)
tick_spare source sem held quiet = rw tick_lem (
    rw settle_posts (elim (length-settle sem held source) [
      | inl (e, n) ↦ ground (arith, n, length-kept sem held)
      | inr (token, e, n) ↦ ground (arith, n, length-kept sem held)
    ]))

-- The source that talks to the daemon hands out nothing, and drops its order, when nothing is wanted.
-- It hands out a token only for an order that was answered "OK", and no order is in flight then.
pub daemon_source_lem :
    (a : Answers) (pending want : Bool)
    → let (token, pending') = daemon_source a pending want in
      (want ≡ false → (token ≡ none) × (pending' ≡ false))
      × (token ≢ none → (a.readable ≡ true) × (a.accepts ≡ true) × (pending' ≡ false))
unfolding daemon_source
daemon_source_lem a pending false = (λ _. (refl, refl), λ h. absurd (h refl))
daemon_source_lem a pending true = (λ h. cc, λ h. ground arith)
