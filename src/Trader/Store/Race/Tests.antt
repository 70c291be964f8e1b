-- ===== src/Trader/Store/Race/Tests.antt =====
-- Examples for the run lock under several runs: three runs, with and without a stale lock.
use infra_lab.Base.{ℕ, ◌≡◌, refl, true, arith, none, some, [], ◌∷◌}
use infra_lab.Trader.Store.Race.{
  Lock, idle, holding, finished, System, owned_by, next_phase, turn, turns, Reach, begin, turned,
}
use infra_lab.Trader.Store.Race.Exclusion.{Reach-exclusive, turns-stale, turns-fresh, turns-alone}

abbrev empty : System
empty = record { bucket = none; now = 1000; phases = λ run. idle }

abbrev stale_lock : Lock
stale_lock = record { owner = 7; expires = 900 }

abbrev stale : System
stale = record { bucket = some stale_lock; now = 1000; phases = λ run. idle }

reached : Reach empty (turn 0 (turn 0 empty))
unfolding turn next_phase
reached = turned 0 (turned 0 begin refl) refl

Reach-exclusive_example : ◌≡◌ {A = ℕ} 0 0
unfolding turn next_phase
Reach-exclusive_example =
    Reach-exclusive empty (turn 0 (turn 0 empty)) 0 0 (λ run. refl) reached refl refl

turns-stale_example :
    let t = turns (0 ∷ 0 ∷ 0 ∷ 0 ∷ 1 ∷ 1 ∷ 1 ∷ 1 ∷ 0 ∷ 0 ∷ 1 ∷ 1 ∷ []) stale in
    (t.phases 0 ≡ holding) × (t.phases 1 ≡ holding)
turns-stale_example = turns-stale stale 0 1 stale_lock (omega arith) refl refl refl (omega arith)

turns-fresh_example :
    let t = turns (0 ∷ 0 ∷ 1 ∷ 1 ∷ 0 ∷ 0 ∷ 1 ∷ 1 ∷ 2 ∷ 2 ∷ 1 ∷ 1 ∷ []) empty in
    (t.phases 1 ≡ holding) × (t.phases 2 ≡ holding) × (t.now ≡ 1000)
turns-fresh_example =
    turns-fresh empty 0 1 2 (omega arith) (omega arith) (omega arith) refl refl refl refl

turns-alone_example :
    let t = turns (0 ∷ 0 ∷ 0 ∷ 0 ∷ 0 ∷ 0 ∷ []) stale in
    let u = turns (0 ∷ 0 ∷ []) t in
    (t.phases 0 ≡ holding)
    × (owned_by 0 t.bucket ≡ true)
    × (u.phases 0 ≡ finished)
    × (u.bucket ≡ none)
turns-alone_example = turns-alone stale 0 stale_lock refl refl (omega arith)
