-- ===== src/Tests/Broker.antt =====
-- pkgs/js/jsem/src/broker.cc
use corepkgs_v.Prelude.{
  ◌+◌, ◌-◌, ◌≤◌, min, ◌≡◌, refl, Bool, true, false, Option, none, some, [], ◌∷◌, length,
}
use corepkgs_v.Broker.{Token, tick, resting, System, ghc_takes, here, next}
use corepkgs_v.Broker.Safety.{initial, Reach_safe}
use corepkgs_v.Broker.Served.{serve, serve_lem}
use corepkgs_v.Broker.Tick.{tick_spare}

-- A source that hands out the slot 7 when one is wanted.
abbrev source : Bool → Option Token
source true = some 7
source false = none

abbrev first : System
first = initial 1

abbrev taken : System
taken = record { sem = 0; ghc = 1; held = []; phase = resting }

Reach_safe_example : 1 + 0 ≤ 1 + 0
Reach_safe_example = Reach_safe 1 {s = taken} (next here (ghc_takes first 0 refl))

tick_spare_example :
    let (sem', held') = tick source (1, 3 ∷ 4 ∷ []) in
    (length held' ≡ 2 - min 2 1 + sem') × (sem' ≤ 1)
tick_spare_example = tick_spare source 1 (3 ∷ 4 ∷ []) refl

serve_lem_example : serve (7 ∷ 8 ∷ []) (0, 3 ∷ []) ≡ (2, (0, 3 ∷ 7 ∷ 8 ∷ []))
serve_lem_example = serve_lem (7 ∷ 8 ∷ []) (3 ∷ [])
