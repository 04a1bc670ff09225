-- ===== src/Simulator/Tests.antt =====
-- Runs of the simulator on a warehouse with one shipment.
use sentinel_chain.Base.Runtime.{StdError}
use sentinel_chain.Base.Result.{Result, ok}
use sentinel_chain.Base.{◌+◌, ◌≡◌, refl, true, false, [], ◌∷◌, arith, ◌<◌, ◌≤◌}
use sentinel_chain.Base.Int.{ℤ, pos, ltb_ℤ}
use sentinel_chain.Base.Exec.Hoare.{Holds}
use sentinel_chain.Samples.Warehouse.{lowest, lowest_laws, world, last_leg, before_tick, plain_ids}
use sentinel_chain.Simulator.Decisions.{consume_inventory}
use sentinel_chain.Simulator.Decisions.Lifecycle.{advances, steps_left, advances-steps_left}
use sentinel_chain.Simulator.Decisions.Stock.{consume_inventory_floor}
use sentinel_chain.Simulator.Tick.{tick, sample_size}
use sentinel_chain.Simulator.Seed.{seed_database}
use sentinel_chain.Simulator.Seed.Tables.{keys_of}
use sentinel_chain.Simulator.Seed.Idempotent.{
  IsSeeded, seed_database-IsSeeded, seed_database-seed_database,
}
use sentinel_chain.Simulator.Tick.Rows.{sample_size-bounds, has_arrived}
use sentinel_chain.Simulator.Main.{tick_round, sleep, none_yet, ticked}
use sentinel_chain.Simulator.Main.Lifetime.{IsKept, Ticks-IsKept}
use sentinel_chain.Simulator.Tick.Invariant.{IsTicked}
use sentinel_chain.Simulator.Tick.Whole.{tick-IsTicked}

advances-steps_left_example :
    (advances lowest (pos 300000) 2 "customs" 0).1
      + steps_left (advances lowest (pos 300000) 2 "customs" 0).0
    ≡ 2
unfolding steps_left
advances-steps_left_example = advances-steps_left lowest (pos 300000) 2 "customs" 0

asymmetric : (a b : ℤ) → ltb_ℤ a b ≡ true → ltb_ℤ b a ≡ false
asymmetric a b h = ground arith

consume_inventory_floor_example :
    ltb_ℤ (consume_inventory lowest (pos 1000000) (pos 86400000000) (pos 2000000) 0).0 (pos 0)
    ≡ false
consume_inventory_floor_example =
    consume_inventory_floor lowest asymmetric (pos 1000000) (pos 86400000000) (pos 2000000) 0

tick-IsTicked_example :
    Holds
      (IsTicked world before_tick)
      (λ s. s.committed ≡ before_tick.committed)
      (tick world before_tick)
unfolding has_arrived
tick-IsTicked_example = tick-IsTicked world lowest_laws before_tick (refl, tt)

seed_database-IsSeeded_example :
    Holds
      (λ seed s. IsSeeded world plain_ids before_tick s)
      (λ s. ⊥)
      (seed_database world plain_ids before_tick)
seed_database-IsSeeded_example = seed_database-IsSeeded world plain_ids (λ db env. refl) before_tick

seed_database-seed_database_example :
    keys_of (seed_database world plain_ids (seed_database world plain_ids before_tick).1).1.rows
    ≡ keys_of (seed_database world plain_ids before_tick).1.rows
seed_database-seed_database_example =
    seed_database-seed_database world plain_ids (λ db env. refl) before_tick

-- A sleep that returns.
abbrev awake : world.Env → Result StdError (Unit {0}) × world.Env
awake n = (ok tt, n)

Ticks-IsKept_example :
    IsKept world lowest_laws before_tick (sleep world awake (tick_round world before_tick)).1
unfolding has_arrived
Ticks-IsKept_example =
    Ticks-IsKept world lowest_laws before_tick (sleep world awake (tick_round world before_tick)).1
      (refl, tt) (ticked awake none_yet refl)

sample_size-bounds_example :
    (0 < sample_size (last_leg ∷ last_leg ∷ last_leg ∷ []))
    × (sample_size (last_leg ∷ last_leg ∷ last_leg ∷ []) ≤ 3)
sample_size-bounds_example = sample_size-bounds (last_leg ∷ last_leg ∷ last_leg ∷ []) omega arith
