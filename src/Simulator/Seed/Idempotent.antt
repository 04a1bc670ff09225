-- ===== src/Simulator/Seed/Idempotent.antt =====
-- What seeding writes, once and twice.
use sentinel_chain.Base.{str_eq, ◌≡◌, refl, ap, sym, ◌∙◌, true, ◌&&◌, List, [], ◌∷◌}
use sentinel_chain.Base.Result.{Result, ok, err}
use sentinel_chain.Base.Exec.{◌>>=◌, for_each}
use sentinel_chain.Base.Exec.Hoare.{Holds}
use sentinel_chain.Base.Runtime.{Runtime}
use sentinel_chain.Simulator.Models.{
  Database, Supplier, Facility, Product, Warehouse, PurchaseOrder, Inventory, Shipment,
  SupplierAlias,
}
use sentinel_chain.Simulator.Tick.{World, Fault, SimState, Sim, on_env, commit}
use sentinel_chain.Simulator.Seed.{
  merge_row, has_row, has_supplier, has_product, merge_facility, merge_purchase_order,
  merge_shipment, merge_alias, seed_database,
}
use sentinel_chain.Simulator.Seed.Data.{SeedIds, SeedData, seed_alias, build_seed_data}
use sentinel_chain.Simulator.Seed.Shipments.{put_shipments, keys-put_shipments}
use sentinel_chain.Simulator.Seed.Keys.{
  text_keys, pair_keys, add_keys, keys-merge_row, has_row-merge_row,
}
use sentinel_chain.Simulator.Seed.Tables.{join, join-join, keys_of, seed_keys}

module _ {R : Runtime} {X : Type 0} (w : World R X) (ids : SeedIds R) where
  -- After seeding from `start`.
  pub record IsSeeded (start s : SimState w) : Type 0 where
    pub keys : keys_of s.rows ≡ join (seed_keys ids) (keys_of start.rows)
    pub committed : s.committed ≡ s.rows
    pub shipments :
        s.rows.shipments
        ≡ put_shipments (build_seed_data ids (w.utcnow start.env).0).shipments start.rows.shipments

  -- A first step that returns.
  step :
      {A B : Type 0} {s t : SimState w} {a : A} (Q : B → SimState w → Type 0)
      (Z : SimState w → Type 0) (m : Sim w A) (f : A → Sim w B)
      → m s ≡ (ok a, t)
      → Holds Q Z (f a t)
      → Holds Q Z ((m >>= f) s)
  unfolding ◌>>=◌
  step Q Z m f e h = rw e h

  facility_merged :
      (row : Facility R) (s : SimState w)
      → has_supplier w row.supplier_id s.rows ≡ true
      → merge_facility w row s ≡ (
        ok tt,
        record s {
          rows = record s.rows {
            facilities =
                merge_row
                  (λ (a b : Facility R). str_eq a.facility_id b.facility_id)
                  row
                  s.rows.facilities;
          };
        },
      )
  facility_merged row s h = rw h

  order_merged :
      (row : PurchaseOrder R) (s : SimState w)
      → has_supplier w row.supplier_id s.rows ≡ true
      → has_product w row.product_id s.rows ≡ true
      → merge_purchase_order w row s ≡ (
        ok tt,
        record s {
          rows = record s.rows {
            purchase_orders =
                merge_row
                  (λ (a b : PurchaseOrder R). str_eq a.purchase_order_id b.purchase_order_id)
                  row
                  s.rows.purchase_orders;
          };
        },
      )
  order_merged row s h k = rw (h, k)

  committed_all :
      ((db : Database R) (env : w.Env) → (w.try_commit db env).0 ≡ ok tt)
      → (s : SimState w)
      → commit w s ≡ (ok tt, record s { committed = s.rows; env = (w.try_commit s.rows s.env).1 })
  unfolding commit
  committed_all commits s = rw (commits s.rows s.env)

  merge_one_alias :
      (row : SupplierAlias R) (s : SimState w)
      → has_row (λ (r : Supplier R). str_eq r.supplier_id row.supplier_id) s.rows.suppliers ≡ true
      → for_each (λ alias u. merge_alias w alias) (row ∷ []) tt s ≡ (
        ok tt,
        record s {
          rows = record s.rows {
            supplier_aliases =
                merge_row
                  (λ (a b : SupplierAlias R).
                    str_eq a.alias b.alias && str_eq a.supplier_id b.supplier_id)
                  row
                  s.rows.supplier_aliases;
          };
        },
      )
  unfolding for_each ◌>>=◌
  merge_one_alias row s h = rw h

  merge_shipments :
      (rs : List (Shipment R)) (s : SimState w)
      → for_each (λ shipment u. merge_shipment w shipment) rs tt s ≡ (
        ok tt,
        record s { rows = record s.rows { shipments = put_shipments rs s.rows.shipments } },
      )
  unfolding for_each ◌>>=◌ put_shipments
  merge_shipments [] s = refl
  merge_shipments (r ∷ rs) s = merge_shipments rs _

  -- Where a commit does not fail: seeding raises nothing, from any database, so no merge violates a
  -- foreign key; it commits its rows; the keys of each table are those before, and those of the
  -- demo scenario; and the shipments are those before, with those of the scenario merged in.
  pub seed_database-IsSeeded :
      ((db : Database R) (env : w.Env) → (w.try_commit db env).0 ≡ ok tt)
      → (s : SimState w) → Holds (λ data_of t. IsSeeded s t) (λ t. ⊥) (seed_database w ids s)
  unfolding seed_database on_env keys_of join add_keys
  seed_database-IsSeeded commits s =
      let data_of = build_seed_data ids (w.utcnow s.env).0 in
      let supplier_there =
        has_row-merge_row text_keys (λ (r : Supplier R). r.supplier_id) data_of.supplier
          s.rows.suppliers in
      let product_there =
        has_row-merge_row text_keys (λ (r : Product R). r.product_id) data_of.product
          s.rows.products in
      step _ _ _ _ refl (
        step _ _ _ _ refl (
          step _ _ _ _ refl (
            step _ _ _ _ refl (
              step _ _ _ _ (facility_merged data_of.facility _ supplier_there) (
                step _ _ _ _ (order_merged data_of.purchase_order _ supplier_there product_there) (
                  step _ _ _ _ (merge_shipments data_of.shipments _) (
                    step _ _ _ _ refl (
                      step _ _ _ _ (merge_one_alias _ _ supplier_there) (
                        step (λ x. IsSeeded s) (λ x. ⊥) _ _ (committed_all commits _)
                          (record {
                            keys = λ i. record {
                              suppliers =
                                  keys-merge_row text_keys (λ (r : Supplier R). r.supplier_id)
                                    data_of.supplier s.rows.suppliers i;
                              products =
                                  keys-merge_row text_keys (λ (r : Product R). r.product_id)
                                    data_of.product s.rows.products i;
                              warehouses =
                                  keys-merge_row text_keys (λ (r : Warehouse R). r.warehouse_id)
                                    data_of.warehouse s.rows.warehouses i;
                              facilities =
                                  keys-merge_row text_keys (λ (r : Facility R). r.facility_id)
                                    data_of.facility s.rows.facilities i;
                              purchase_orders =
                                  keys-merge_row text_keys
                                    (λ (r : PurchaseOrder R). r.purchase_order_id)
                                    data_of.purchase_order s.rows.purchase_orders i;
                              shipments = keys-put_shipments data_of.shipments s.rows.shipments i;
                              inventory =
                                  keys-merge_row pair_keys
                                    (λ (r : Inventory R). (r.warehouse_id, r.product_id))
                                    data_of.inventory s.rows.inventory i;
                              supplier_aliases =
                                  keys-merge_row pair_keys
                                    (λ (r : SupplierAlias R). (r.alias, r.supplier_id))
                                    (seed_alias ids) s.rows.supplier_aliases i;
                            };
                            committed = refl;
                            shipments = refl;
                          }))))))))))

  pub seeded :
      (start : SimState w) (r : Result (Fault X) (SeedData R) × SimState w)
      → Holds (λ data_of t. IsSeeded start t) (λ t. ⊥) r
      → IsSeeded start r.1
  seeded start (ok data_of, t) h = h
  seeded start (err e, t) h = absurd h

  -- Where a commit does not fail: seeding again, at whatever time, from the state that seeding left,
  -- changes no table's keys: it adds no row and removes none.
  pub seed_database-seed_database :
      ((db : Database R) (env : w.Env) → (w.try_commit db env).0 ≡ ok tt)
      → (s : SimState w)
      → keys_of (seed_database w ids (seed_database w ids s).1).1.rows
        ≡ keys_of (seed_database w ids s).1.rows
  seed_database-seed_database commits s =
      let once = (seeded s (seed_database w ids s) (seed_database-IsSeeded commits s)).keys in
      let t = (seed_database w ids s).1 in
      let twice = (seeded t (seed_database w ids t) (seed_database-IsSeeded commits t)).keys in
      twice
      ∙ (ap (join (seed_keys ids)) once ∙ (join-join (seed_keys ids) (keys_of s.rows) ∙ sym once))
