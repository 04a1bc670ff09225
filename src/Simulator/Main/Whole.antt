-- ===== src/Simulator/Main/Whole.antt =====
-- What holds of the committed rows when `main` ends.
use sentinel_chain.Base.{◌≡◌, refl, sym, ap, inl, inr, All, Bool, Bool-cases, true, false}
use mathlib.Core.Path.{subst}
use sentinel_chain.Base.Result.{Result, ok, err}
use sentinel_chain.Base.Exec.Hoare.{Holds}
use sentinel_chain.Base.Runtime.{Runtime}
use sentinel_chain.Common.Settings.{SimulatorSettings}
use sentinel_chain.Simulator.Models.{Database}
use sentinel_chain.Simulator.Tick.{World, Fault, SimState}
use sentinel_chain.Simulator.Tick.Rows.{HasArrived}
use sentinel_chain.Simulator.Tick.Invariant.{SampleLaws}
use sentinel_chain.Simulator.Seed.{seed_database}
use sentinel_chain.Simulator.Seed.Data.{SeedIds, SeedData}
use sentinel_chain.Simulator.Seed.Arrivals.{HasSeeded, seed_database-HasSeeded}
use sentinel_chain.Simulator.Main.{
  open_session, closed, prepared, Ticks, MainFault, SimProcess, Main, seeding_failed, seeded_only,
  sleep_failed, interrupted,
}
use sentinel_chain.Simulator.Main.Lifetime.{tick_round-IsKept, Ticks-IsKept}

-- Whether a call raised.
abbrev pub raises : {E A : Type 0} → Result E A → Bool
raises (ok a) = false
raises (err e) = true

module _ {R : Runtime} {X : Type 0} (w : World R X) (laws : SampleLaws w.random) (ids : SeedIds R)
    (settings : SimulatorSettings R) (start : SimState w) where
  abbrev HaveArrived : SimState w → Type 0
  HaveArrived s = All HasArrived s.committed.shipments

  prepared-HaveArrived : HaveArrived start → HaveArrived (prepared w ids settings start).1
  unfolding prepared
  prepared-HaveArrived h = elim (Bool-cases settings.simulator_seed_on_start) [
    | inr off ↦ rw off h
    | inl on ↦ rw on (
        go (seed_database w ids (open_session w start)) (
          (seed_database-HasSeeded w (open_session w start) ids).at (open_session w start)
            (record { arrived = h; uncommitted = refl })))
  ]
    where
      go :
          (r : Result (Fault X) (SeedData R) × SimState w)
          → Holds
              (λ data_of. HasSeeded w (open_session w start))
              (λ s. s.committed ≡ start.committed)
              r
          → HaveArrived (closed w r).1
      go (ok data_of, s) k =
          subst (λ (db : Database R). All HasArrived db.shipments) (sym k.committed) k.arrived
      go (err e, s) k = subst (λ (db : Database R). All HasArrived db.shipments) (sym k) h

  Ticks-HaveArrived :
      (s t : SimState w)
      → HaveArrived start
      → prepared w ids settings start ≡ (ok tt, s)
      → Ticks w s t
      → HaveArrived t
  Ticks-HaveArrived s t h p runs =
      (Ticks-IsKept w laws s t (subst HaveArrived (ap (λ r. r.1) p) (prepared-HaveArrived h))
        runs).arrived

  -- However `main` ends, by returning or by an exception of the seeding or of a sleep, from
  -- committed rows in which each delivered shipment has an arrival time: they have it still,
  -- whether it seeded or not and through any number of ticks; and the gauge `sim_up` is still at 1
  -- if `main` raised, and back at 0 if it returned.
  pub Main-HaveArrived :
      (r : Result (MainFault X) (Unit {0})) (p : SimProcess w)
      → HaveArrived start
      → Main w ids settings start r p
      → HaveArrived p.sim × (p.up ≡ raises r)
  Main-HaveArrived _ _ h (seeding_failed p) =
      (subst HaveArrived (ap (λ r. r.1) p) (prepared-HaveArrived h), refl)
  Main-HaveArrived _ _ h (seeded_only p off) =
      (subst HaveArrived (ap (λ r. r.1) p) (prepared-HaveArrived h), refl)
  Main-HaveArrived _ _ h (sleep_failed {s} {t} pass p on runs failed) =
      let kept = Ticks-HaveArrived s t h p runs in
      ((tick_round-IsKept w laws t t (record { arrived = kept; same_ids = refl })).arrived, refl)
  Main-HaveArrived _ _ h (interrupted {s} {t} p on runs) = (Ticks-HaveArrived s t h p runs, refl)
