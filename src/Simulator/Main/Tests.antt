-- ===== src/Simulator/Main/Tests.antt =====
-- The simulator's process from a database with one shipment: it seeds, ticks once and is stopped.
use sentinel_chain.Base.{String, ◌≡◌, refl, All}
use sentinel_chain.Base.Result.{Result, ok, err}
use sentinel_chain.Base.Runtime.{StdError, value_error}
use sentinel_chain.Common.Settings.{SimulatorSettings, simulator_defaults}
use sentinel_chain.Samples.{micro}
use sentinel_chain.Samples.Warehouse.{world, lowest_laws, before_tick, plain_ids}
use sentinel_chain.Base.Exec.{◌>>=◌, for_each}
use sentinel_chain.Simulator.Tick.{SimState, on_env, commit}
use sentinel_chain.Simulator.Tick.Rows.{HasArrived, has_arrived}
use sentinel_chain.Simulator.Seed.{seed_database, has_row, merge_row}
use sentinel_chain.Simulator.Seed.Tables.{seed_keys}
use sentinel_chain.Simulator.Seed.Shipments.{find_shipment, Restarted}
use sentinel_chain.Simulator.Seed.Restart.{seed_database-Restarted}
use sentinel_chain.Simulator.Main.{
  SimProcess, MainFault, sleeping, launched, tick_round, sleep, none_yet, ticked, prepared,
  sleep_failed,
}
use sentinel_chain.Simulator.Main.Whole.{raises, Main-HaveArrived}

abbrev settings : SimulatorSettings micro
settings = simulator_defaults micro

abbrev after_seed : SimState world
after_seed = (prepared world plain_ids settings before_tick).1

-- The sleep of a second, and one of a negative interval.
abbrev second : world.Env → Result StdError (Unit {0}) × world.Env
second n = (ok tt, n)

abbrev negative : world.Env → Result StdError (Unit {0}) × world.Env
negative n = (err value_error, n)

abbrev after_tick : SimState world
after_tick = (sleep world second (tick_round world after_seed)).1

abbrev at_end : SimProcess world
at_end = launched world (sleep world negative (tick_round world after_tick)).1

seeded : prepared world plain_ids settings before_tick ≡ (ok tt, after_seed)
unfolding prepared seed_database ◌>>=◌ on_env has_row merge_row for_each commit
seeded = refl

-- The second sleep raises.
Main-HaveArrived_example :
    All HasArrived at_end.sim.committed.shipments
    × (at_end.up ≡ raises {E = MainFault String} {A = Unit {0}} (err (sleeping value_error)))
unfolding has_arrived
Main-HaveArrived_example =
    Main-HaveArrived world lowest_laws plain_ids settings before_tick (err (sleeping value_error))
      at_end (refl, tt) (sleep_failed negative seeded refl (ticked second none_yet refl) refl)

seed_database-Restarted_example :
    All
      (λ id.
        Restarted
          (find_shipment id (seed_database world plain_ids before_tick).1.committed.shipments))
      (seed_keys plain_ids).shipments
seed_database-Restarted_example =
    seed_database-Restarted world plain_ids (λ db env. refl) before_tick
