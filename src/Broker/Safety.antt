-- ===== src/Broker/Safety.antt =====
-- Every capability in use or on offer is backed, in every interleaving of ghc with the broker.
use corepkgs_v.Prelude.{
  ℕ, ◌+◌, ◌-◌, ◌≤◌, min, ◌≡◌, refl, ap, ◌⊎◌, inl, inr, Bool, true, false, not, Option, none, some,
  [], ◌∷◌, arith, ltb, ◌==◌, if◌then◌else◌, Option-cases, length, take, length-append, length-take,
}
use corepkgs_v.Broker.{
  Token, Held, settle, Phase, resting, posting, draining, System, Step, ghc_takes, ghc_gives,
  starts, drains, drained, posts, Reach, here, next,
}

-- The tokens that the broker has taken and may yet put back.
abbrev pub in_hand : Phase → ℕ
in_hand resting = 0
in_hand posting = 1
in_hand (draining idle) = idle

-- The tokens in use, on offer or in the broker's hand are backed by the `created` tokens that the
-- semaphore began with or by slots held.
abbrev pub IsBacked : ℕ → System → Type 0
IsBacked created s = s.ghc + s.sem + in_hand s.phase ≤ created + length s.held

-- The slots that `settle` keeps, before it asks the source.
pub kept : ℕ → Held → Held
kept idle held =
    let in_use = length held - min (length held) idle in take (min (length held) (in_use + 1)) held

pub length-kept :
    (idle : ℕ) (held : Held)
    → length (kept idle held) ≡ min (length held) (length held - min (length held) idle + 1)
unfolding kept
length-kept idle held =
    omega (arith, length-take (min (length held) (length held - min (length held) idle + 1)) held)

-- The length of what is held afterwards, by the source's answer.
pub length-settle :
    (idle : ℕ) (held : Held) (source : Bool → Option Token)
    → let in_use = length held - min (length held) idle in
      let want = not (length (kept idle held) == in_use + 1) in
      ((source want ≡ none) × (length (settle idle held source).0 ≡ length (kept idle held)))
      ⊎ ((token : Token) × (source want ≡ some token)
          × (length (settle idle held source).0 ≡ length (kept idle held) + 1))
unfolding settle kept
length-settle idle held source =
    elim (Option-cases
      (source (not (length (kept idle held) == length held - min (length held) idle + 1)))) [
        | inl e ↦ inl (e, rw (e, settle) refl)
        | inr (token, e) ↦
            inr (
              token,
              e,
              rw (e, settle) (omega (arith, length-append (kept idle held) (token ∷ []))),
            )
      ]

pub settle_posts :
    (idle : ℕ) (held : Held) (source : Bool → Option Token)
    → (settle idle held source).1
      ≡ ltb (length held - min (length held) idle) (length (settle idle held source).0)
unfolding settle
settle_posts idle held source = refl

abbrev pub posted : Bool → ℕ
posted b = if b then 1 else 0

settle_backed :
    (created ghc idle : ℕ) (held : Held) (source : Bool → Option Token)
    → ghc + idle ≤ created + length held
    → ghc + posted (settle idle held source).1 ≤ created + length (settle idle held source).0
settle_backed created ghc idle held source h =
    rw settle_posts (elim (length-settle idle held source) [
      | inl (e, n) ↦ ground (arith, n, length-kept idle held)
      | inr (token, e, n) ↦ ground (arith, n, length-kept idle held)
    ])

in_hand_if : (b : Bool) → in_hand (if b then posting else resting) ≡ posted b
in_hand_if true = refl
in_hand_if false = refl

-- Each step of ghc or of the broker keeps the tokens backed.
pub Step-IsBacked :
    (created : ℕ) {s t : System} → Step s t → IsBacked created s → IsBacked created t
Step-IsBacked created (ghc_takes s n e) h = omega arith
Step-IsBacked created (ghc_gives s n e) h = omega arith
Step-IsBacked created (starts s p) h = omega (arith, ap in_hand p)
Step-IsBacked created (drains s n idle p e) h = omega (arith, ap in_hand p)
Step-IsBacked created (drained s idle source p e) h = omega (
  arith,
  settle_backed created s.ghc idle s.held source (omega (arith, ap in_hand p)),
  in_hand_if (settle idle s.held source).1,
)
Step-IsBacked created (posts s p) h = omega (arith, ap in_hand p)

-- A semaphore that was created with some tokens, a broker that holds no slot and an idle ghc.
abbrev pub initial : ℕ → System
initial created = record { sem = created; ghc = 0; held = []; phase = resting }

Reach-IsBacked : (created : ℕ) {s t : System} → IsBacked created s → Reach s t → IsBacked created t
Reach-IsBacked created h here = h
Reach-IsBacked created h (next r st) = Step-IsBacked created st (Reach-IsBacked created h r)

-- In every interleaving of ghc's waits and posts with the broker's, whatever the daemon answers,
-- the capabilities in use and the tokens on offer together never exceed the tokens that the
-- semaphore was created with and the slots that the broker holds.
pub Reach_safe :
    (created : ℕ) {s : System} → Reach (initial created) s → s.ghc + s.sem ≤ created + length s.held
Reach_safe created r = omega (arith, Reach-IsBacked created {s = initial created} (omega arith) r)
