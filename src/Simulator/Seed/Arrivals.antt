-- ===== src/Simulator/Seed/Arrivals.antt =====
-- Seeding keeps an arrival time for each delivered shipment, however it ends.
use sentinel_chain.Base.{◌≡◌, refl, List, [], ◌∷◌, All, Bool, Bool-cases, inl, inr}
use sentinel_chain.Base.Result.{Result-cases}
use sentinel_chain.Base.Exec.{for_each}
use sentinel_chain.Base.Exec.Hoare.{Triple, Triple-bind, Triple-pure}
use sentinel_chain.Base.Runtime.{Runtime}
use sentinel_chain.Simulator.Models.{Database, Shipment, SupplierAlias}
use sentinel_chain.Simulator.Tick.{World, SimState, Sim, on_env, commit}
use sentinel_chain.Simulator.Tick.Rows.{HasArrived, has_arrived}
use sentinel_chain.Simulator.Seed.{merge, merge_checked, merge_shipment, merge_alias, seed_database}
use sentinel_chain.Simulator.Seed.Data.{SeedIds}
use sentinel_chain.Simulator.Seed.Shipments.{merge_row-All}

module _ {R : Runtime} {X : Type 0} (w : World R X) (start : SimState w) where
  -- while seeding, and after it
  pub record IsSeeding (s : SimState w) : Type 0 where
    pub arrived : All HasArrived s.rows.shipments
    pub uncommitted : s.committed ≡ start.committed

  pub record HasSeeded (s : SimState w) : Type 0 where
    pub arrived : All HasArrived s.rows.shipments
    pub committed : s.committed ≡ s.rows

  abbrev Unchanged : SimState w → Type 0
  Unchanged s = s.committed ≡ start.committed

  abbrev Seeds : {A : Type 0} → Sim w A → Type 0
  Seeds m = Triple IsSeeding m (λ a. IsSeeding) Unchanged

  merge-Seeds :
      (change : Database R → Database R)
      → ((db : Database R) → All HasArrived db.shipments → All HasArrived (change db).shipments)
      → Seeds (merge w change)
  merge-Seeds change keeps = record {
    at = λ s h. record { arrived = keeps s.rows h.arrived; uncommitted = h.uncommitted };
  }

  merge_checked-Seeds :
      (holds : Database R → Bool) (change : Database R → Database R)
      → ((db : Database R) → All HasArrived db.shipments → All HasArrived (change db).shipments)
      → Seeds (merge_checked w holds change)
  merge_checked-Seeds holds change keeps = record {
    at = λ s h. elim (Bool-cases (holds s.rows)) [
      | inl e ↦ rw e (record { arrived = keeps s.rows h.arrived; uncommitted = h.uncommitted })
      | inr e ↦ rw e h.uncommitted
    ];
  }

  merge_shipment-Seeds : (row : Shipment R) → HasArrived row → Seeds (merge_shipment w row)
  merge_shipment-Seeds row h =
      merge-Seeds _ (λ db hs. merge_row-All HasArrived _ row db.shipments h hs)

  -- the loop over shipments that have not been delivered
  shipments-Seeds :
      (rows : List (Shipment R))
      → All HasArrived rows
      → Seeds (for_each (λ shipment u. merge_shipment w shipment) rows tt)
  unfolding for_each
  shipments-Seeds [] hs = Triple-pure tt (λ s h. h)
  shipments-Seeds (row ∷ rows) hs =
      Triple-bind _ _ (merge_shipment-Seeds row hs.0) (λ u. shipments-Seeds rows hs.1)

  aliases-Seeds :
      (rows : List (SupplierAlias R)) → Seeds (for_each (λ alias u. merge_alias w alias) rows tt)
  unfolding for_each
  aliases-Seeds [] = Triple-pure tt (λ s h. h)
  aliases-Seeds (row ∷ rows) =
      Triple-bind _ _ (merge_checked-Seeds _ _ (λ db hs. hs)) (λ u. aliases-Seeds rows)

  env-Seeds : {A : Type 0} (m : w.Env → A × w.Env) → Seeds (on_env w m)
  unfolding on_env
  env-Seeds m = record { at = λ s h. record { arrived = h.arrived; uncommitted = h.uncommitted } }

  commit-Seeds : Triple IsSeeding (commit w) (λ u. HasSeeded) Unchanged
  unfolding commit
  commit-Seeds = record {
    at = λ s h. elim (Result-cases (w.try_commit s.rows s.env).0) [
      | inl (u, e) ↦ rw e (record { arrived = h.arrived; committed = refl })
      | inr (x, e) ↦ rw e h.uncommitted
    ];
  }

  pub seed_database-HasSeeded :
      (ids : SeedIds R) → Triple IsSeeding (seed_database w ids) (λ data_of. HasSeeded) Unchanged
  unfolding seed_database has_arrived
  seed_database-HasSeeded ids = Triple-bind _ _ (env-Seeds w.utcnow) (λ now.
      Triple-bind _ _ (merge-Seeds _ (λ db hs. hs)) (λ u1.
        Triple-bind _ _ (merge-Seeds _ (λ db hs. hs)) (λ u2.
          Triple-bind _ _ (merge-Seeds _ (λ db hs. hs)) (λ u3.
            Triple-bind _ _ (merge_checked-Seeds _ _ (λ db hs. hs)) (λ u4.
              Triple-bind _ _ (merge_checked-Seeds _ _ (λ db hs. hs)) (λ u5.
                Triple-bind _ _ (shipments-Seeds _ (refl, (refl, (refl, (refl, (refl, tt))))))
                  (λ u6. Triple-bind _ _ (merge-Seeds _ (λ db hs. hs)) (λ u7.
                    Triple-bind _ _ (aliases-Seeds _)
                      (λ u8. Triple-bind _ _ commit-Seeds (λ u9. Triple-pure _ (λ s h. h)))))))))))
