-- ===== src/Simulator/Seed/Restart.antt =====
-- What seeding does to shipments that have moved on since.
use sentinel_chain.Base.{◌≡◌, refl, ap, ◌∙◌, inl, inr, List, [], ◌∷◌, All, String, map}
use sentinel_chain.Base.Result.{ok}
use sentinel_chain.Base.Runtime.{Runtime}
use sentinel_chain.Simulator.Models.{Database}
use sentinel_chain.Simulator.Tick.{World, SimState}
use sentinel_chain.Simulator.Seed.{seed_database}
use sentinel_chain.Simulator.Seed.Data.{SeedIds, shipment_numbers, seed_shipment, build_seed_data}
use sentinel_chain.Simulator.Seed.Tables.{seed_keys}
use sentinel_chain.Simulator.Seed.Shipments.{
  put_shipments, find_shipment, IsUnderWay, IsAmong, Restarted, put_shipments-Restarted,
}
use sentinel_chain.Simulator.Seed.Idempotent.{seeded, seed_database-IsSeeded}

module _ {R : Runtime} {X : Type 0} (w : World R X) (ids : SeedIds R) where
  seed_shipment-IsUnderWay :
      (now : R.Datetime) (number : String) → IsUnderWay (seed_shipment ids now number)
  seed_shipment-IsUnderWay now number = record { in_transit = refl; not_arrived = refl }

  under_way :
      (now : R.Datetime) (numbers : List String)
      → All IsUnderWay (map (seed_shipment ids now) numbers)
  under_way now [] = tt
  under_way now (n ∷ numbers) = (seed_shipment-IsUnderWay now n, under_way now numbers)

  -- Where a commit does not fail: after seeding, each of the five demo shipments is in transit and
  -- has no arrival time in the committed rows, whatever it was before: seeding a database again
  -- undoes the progress of its shipments.
  pub seed_database-Restarted :
      ((db : Database R) (env : w.Env) → (w.try_commit db env).0 ≡ ok tt)
      → (s : SimState w)
      → All
          (λ id. Restarted (find_shipment id (seed_database w ids s).1.committed.shipments))
          (seed_keys ids).shipments
  seed_database-Restarted commits s =
      let done = seeded w ids s (seed_database w ids s) (seed_database-IsSeeded w ids commits s) in
      let rows = (build_seed_data ids (w.utcnow s.env).0).shipments in
      let same : (seed_database w ids s).1.committed.shipments
          ≡ put_shipments rows s.rows.shipments =
        ap (λ (db : Database R). db.shipments) done.committed ∙ done.shipments in
      let found : (id : String)
          → IsAmong id rows
          → Restarted (find_shipment id (put_shipments rows s.rows.shipments)) =
        λ id among.
          put_shipments-Restarted id rows s.rows.shipments
            (under_way (w.utcnow s.env).0 (shipment_numbers ids)) (inl among) in
      rw same (
        found _ (inl refl),
        (
          found _ (inr (inl refl)),
          (
            found _ (inr (inr (inl refl))),
            (
              found _ (inr (inr (inr (inl refl)))),
              (found _ (inr (inr (inr (inr (inl refl))))), tt),
            ),
          ),
        ),
      )
