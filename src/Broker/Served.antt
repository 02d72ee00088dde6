-- ===== src/Broker/Served.antt =====
-- `Broker::Tick` of pkgs/js/jsem/src/broker.cc with a ghc that takes each token at once.
use corepkgs_v.Prelude.{
  ℕ, ◌+◌, ◌-◌, min, ◌≡◌, refl, sym, ap, ◌∙◌, Bool, true, false, Option, none, some, List, [], ◌∷◌,
  ◌++◌, append_assoc, append-nil, arith, ltb, ◌==◌, if◌then◌else◌, length, take, length-append,
  take_all,
}
use corepkgs_v.Broker.{Token, Held, try_wait, settle, tick}
use corepkgs_v.Broker.Safety.{posted}
use corepkgs_v.Broker.Tick.{tick_lem}

-- A daemon that has the slot `token` free when one is wanted.
abbrev pub offers : Token → Bool → Option Token
offers token want = if want then some token else none

-- One tick for each slot that the daemon has free, ghc taking a token behind it: how many tokens ghc got,
-- and the semaphore and the slots afterwards.
unfoldable pub serve : List Token → ℕ × Held → ℕ × (ℕ × Held)
serve [] s = (0, s)
serve (token ∷ tokens) s =
    let (sem, held) = tick (offers token) s in
    let (sem', taken) = try_wait sem in
    let (granted, after) = serve tokens (sem', held) in ((if taken then 1 else 0) + granted, after)

settle_wanting :
    (token : Token) (held : Held) → settle 0 held (offers token) ≡ (held ++ token ∷ [], true)
unfolding settle
settle_wanting token held =
    let in_use : length held - min (length held) 0 ≡ length held = omega arith in
    let count : min (length held) (length held - min (length held) 0 + 1) ≡ length held =
      omega arith in
    let (kept, none_behind) = take_all (length held) held (omega arith) in
    let front = ap (λ n. take n held) count ∙ kept in
    let spare : (length held == length held + 1) ≡ false = ground arith in
    let more : ltb (length held) (length (held ++ token ∷ [])) ≡ true =
      ground (arith, length-append held (token ∷ [])) in
    rw (front, in_use, spare, front, more) refl

tick_wanting :
    (token : Token) (held : Held) → tick (offers token) (0, held) ≡ (1, held ++ token ∷ [])
tick_wanting token held =
    tick_lem (offers token) 0 held ∙ ap (λ r. (posted r.1, r.0)) (settle_wanting token held)

-- While every token is in use, each tick for which the daemon has a slot leaves one token that ghc can
-- take, with the slot behind those that are held: ghc gets a token for each slot, however many there are,
-- and none is left over.
pub serve_lem :
    (tokens : List Token) (held : Held)
    → serve tokens (0, held) ≡ (length tokens, (0, held ++ tokens))
unfolding serve try_wait
serve_lem [] held = ap (λ h. (0, (0, h))) (sym (append-nil held))
serve_lem (token ∷ tokens) held =
    let one_more : 1 + length tokens ≡ length (token ∷ tokens) = omega arith in
    ap
      (λ r.
        let (sem, taken) = try_wait r.0 in
        let (granted, after) = serve tokens (sem, r.1) in
        ((if taken then 1 else 0) + granted, after))
      (tick_wanting token held)
    ∙ ap (λ r. (1 + r.0, r.1)) (serve_lem tokens (held ++ token ∷ []))
    ∙ ap (λ h. (1 + length tokens, (0, h))) (append_assoc held (token ∷ []) tokens)
    ∙ ap (λ n. (n, (0, held ++ token ∷ tokens))) one_more
