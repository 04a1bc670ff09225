-- ===== src/Simulator/Main.antt =====
-- services/supply-chain-simulator/src/supply_chain_simulator/main.py
pub mod Lifetime
pub mod Whole
mod Tests
use sentinel_chain.Base.{ℕ, Bool, true, false, if◌then◌else◌, ◌≡◌}
use sentinel_chain.Base.Result.{Result, ok, err}
use sentinel_chain.Base.Runtime.{Runtime, StdError}
use sentinel_chain.Common.Settings.{SimulatorSettings}
use sentinel_chain.Simulator.Tick.{World, Fault, SimState, tick}
use sentinel_chain.Simulator.Seed.{seed_database}
use sentinel_chain.Simulator.Seed.Data.{SeedIds, SeedData}

-- What leaves `main`.
pub data MainFault (X : Type 0) : Type 0 where
  seeding : Fault X → MainFault X
  sleeping : StdError → MainFault X

-- The process: the simulator's state, and the gauge `sim_up`.
pub record SimProcess {R : Runtime} {X : Type 0} (w : World R X) : Type 0 where
  pub sim : SimState w
  pub up : Bool

module _ {R : Runtime} {X : Type 0} (w : World R X) where
  -- `_UP.set(1)`, which stands before the seeding
  abbrev pub launched : SimState w → SimProcess w
  launched s = record { sim = s; up = true }

  -- `_UP.set(0)`
  abbrev pub set_down : SimProcess w → SimProcess w
  set_down p = record p { up = false }

  -- A new session sees the committed rows, and its changes are gone once it is closed without a
  -- commit.
  abbrev pub open_session : SimState w → SimState w
  open_session s = record s { rows = s.committed }

  -- The body of the loop: an exception of the tick is logged and dropped.
  unfoldable pub tick_round : SimState w → SimState w
  tick_round s = open_session (tick w (open_session s)).1

  -- `time.sleep`, which leaves another environment, and raises for an interval that is negative,
  -- say
  abbrev pub sleep :
      (w.Env → Result StdError (Unit {0}) × w.Env)
      → SimState w
      → Result StdError (Unit {0}) × SimState w
  sleep pass s = let (r, env) = pass s.env in (r, record s { env = env })

  -- The states at the head of the loop: any number of ticks may pass before the stop flag is set,
  -- while the sleeps return.
  pub data Ticks (start : SimState w) : SimState w → Type 0 where
    none_yet : Ticks start start
    ticked :
        {s : SimState w} (pass : w.Env → Result StdError (Unit {0}) × w.Env)
        → Ticks start s
        → (sleep pass (tick_round s)).0 ≡ ok tt
        → Ticks start (sleep pass (tick_round s)).1

  abbrev pub closed :
      Result (Fault X) (SeedData R) × SimState w → Result (Fault X) (Unit {0}) × SimState w
  closed (ok data_of, s) = (ok tt, open_session s)
  closed (err e, s) = (err e, open_session s)

  module _ (ids : SeedIds R) (settings : SimulatorSettings R) where
    -- the seeding at the start, in a session of its own
    unfoldable pub prepared : SimState w → Result (Fault X) (Unit {0}) × SimState w
    prepared s =
        if settings.simulator_seed_on_start
        then closed (seed_database w ids (open_session s))
        else (ok tt, s)

    -- How a run of `main` ends, what it raises, and the process that it leaves. An exception of the
    -- seeding or of a sleep leaves `main` at once; without the loop it returns after the seeding;
    -- with it, once the stop flag is set.
    pub data Main (start : SimState w)
        : Result (MainFault X) (Unit {0}) → SimProcess w → Type 0 where
      seeding_failed :
          {e : Fault X} {s : SimState w}
          → prepared start ≡ (err e, s)
          → Main start (err (seeding e)) (launched s)
      seeded_only :
          {s : SimState w}
          → prepared start ≡ (ok tt, s)
          → settings.simulator_run_loop ≡ false
          → Main start (ok tt) (set_down (launched s))
      sleep_failed :
          {s t : SimState w} {e : StdError} (pass : w.Env → Result StdError (Unit {0}) × w.Env)
          → prepared start ≡ (ok tt, s)
          → settings.simulator_run_loop ≡ true
          → Ticks s t
          → (sleep pass (tick_round t)).0 ≡ err e
          → Main start (err (sleeping e)) (launched (sleep pass (tick_round t)).1)
      interrupted :
          {s t : SimState w}
          → prepared start ≡ (ok tt, s)
          → settings.simulator_run_loop ≡ true
          → Ticks s t
          → Main start (ok tt) (set_down (launched t))
