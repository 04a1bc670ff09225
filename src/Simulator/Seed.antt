-- ===== src/Simulator/Seed.antt =====
-- services/supply-chain-simulator/src/supply_chain_simulator/seed.py
pub mod Data
pub mod Keys
pub mod Tables
pub mod Shipments
pub mod Idempotent
pub mod Restart
pub mod Arrivals
use sentinel_chain.Base.{
  String, str_eq, Bool, true, false, ◌&&◌, Option, none, some, List, [], ◌∷◌, ◌++◌, map,
  if◌then◌else◌,
}
use sentinel_chain.Base.Int.{pos, negsuc}
use sentinel_chain.Base.Text.{concat}
use sentinel_chain.Base.Result.{Result, ok, err}
use sentinel_chain.Base.Exec.{pure, modify, ◌>>=◌, ◌>>◌, for_each}
use sentinel_chain.Base.Runtime.{Runtime}
use sentinel_chain.Simulator.Models.{
  Uuid, Database, Supplier, Facility, Product, Warehouse, PurchaseOrder, Inventory, Shipment,
  SupplierAlias,
}
use sentinel_chain.Simulator.Tick.{World, integrity, SimState, Sim, on_env, commit}
use sentinel_chain.Simulator.Seed.Data.{SeedIds, SeedData, build_seed_data}

-- `inf` is `float("inf")`.
unfoldable pub inventory_days_remaining : {R : Runtime} (inf : R.Float) → Inventory R → R.Float
inventory_days_remaining {R} inf inv =
    if R.leb_f inv.average_daily_usage (R.lit (pos 0) 0)
    then inf
    else R.div_f inv.quantity_on_hand inv.average_daily_usage

-- `session.merge(row)`: the row with its primary key is replaced, or the row is added.
unfoldable pub merge_row {ℓ} : {A : Type ℓ} → (A → A → Bool) → A → List A → List A
merge_row same row [] = row ∷ []
merge_row same row (r ∷ rs) = if same r row then row ∷ rs else r ∷ merge_row same row rs

-- Whether a row with such a key is there.
unfoldable pub has_row {ℓ} : {A : Type ℓ} → (A → Bool) → List A → Bool
has_row is_it [] = false
has_row is_it (r ∷ rs) = if is_it r then true else has_row is_it rs

module _ {R : Runtime} {X : Type 0} (w : World R X) where
  -- A merge whose foreign keys are checked; the database checks them when the session is flushed,
  -- at the next query or at the commit.
  abbrev pub merge_checked : (Database R → Bool) → (Database R → Database R) → Sim w (Unit {0})
  merge_checked holds change s = (
    if holds s.rows then ok tt else err integrity,
    if holds s.rows then record s { rows = change s.rows } else s,
  )

  abbrev pub merge : (Database R → Database R) → Sim w (Unit {0})
  merge change = modify (λ s. record s { rows = change s.rows })

  abbrev pub has_supplier : Uuid → Database R → Bool
  has_supplier id db = has_row (λ (r : Supplier R). str_eq r.supplier_id id) db.suppliers

  abbrev pub has_product : Uuid → Database R → Bool
  has_product id db = has_row (λ (r : Product R). str_eq r.product_id id) db.products

  abbrev pub merge_supplier : Supplier R → Sim w (Unit {0})
  merge_supplier row = merge (λ db. record db {
    suppliers =
        merge_row (λ (a b : Supplier R). str_eq a.supplier_id b.supplier_id) row db.suppliers;
  })

  abbrev pub merge_product : Product R → Sim w (Unit {0})
  merge_product row = merge (λ db. record db {
    products = merge_row (λ (a b : Product R). str_eq a.product_id b.product_id) row db.products;
  })

  abbrev pub merge_warehouse : Warehouse R → Sim w (Unit {0})
  merge_warehouse row = merge (λ db. record db {
    warehouses =
        merge_row (λ (a b : Warehouse R). str_eq a.warehouse_id b.warehouse_id) row db.warehouses;
  })

  abbrev pub merge_facility : Facility R → Sim w (Unit {0})
  merge_facility row = merge_checked (has_supplier row.supplier_id) (λ db. record db {
    facilities =
        merge_row (λ (a b : Facility R). str_eq a.facility_id b.facility_id) row db.facilities;
  })

  abbrev pub merge_purchase_order : PurchaseOrder R → Sim w (Unit {0})
  merge_purchase_order row =
      merge_checked (λ db. has_supplier row.supplier_id db && has_product row.product_id db)
        (λ db. record db {
          purchase_orders =
              merge_row (λ (a b : PurchaseOrder R). str_eq a.purchase_order_id b.purchase_order_id)
                row db.purchase_orders;
        })

  abbrev pub merge_shipment : Shipment R → Sim w (Unit {0})
  merge_shipment row = merge (λ db. record db {
    shipments =
        merge_row (λ (a b : Shipment R). str_eq a.shipment_id b.shipment_id) row db.shipments;
  })

  abbrev pub merge_inventory : Inventory R → Sim w (Unit {0})
  merge_inventory row = merge (λ db. record db {
    inventory =
        merge_row
          (λ (a b : Inventory R).
            str_eq a.warehouse_id b.warehouse_id && str_eq a.product_id b.product_id)
          row db.inventory;
  })

  abbrev pub merge_alias : SupplierAlias R → Sim w (Unit {0})
  merge_alias row = merge_checked (has_supplier row.supplier_id) (λ db. record db {
    supplier_aliases =
        merge_row
          (λ (a b : SupplierAlias R). str_eq a.alias b.alias && str_eq a.supplier_id b.supplier_id)
          row db.supplier_aliases;
  })

  unfoldable pub seed_database : SeedIds R → Sim w (SeedData R)
  seed_database ids = do
    now ← on_env w w.utcnow
    let data_of = build_seed_data ids now
    merge_supplier data_of.supplier
    merge_product data_of.product
    merge_warehouse data_of.warehouse
    merge_facility data_of.facility
    merge_purchase_order data_of.purchase_order
    for_each (λ shipment u. merge_shipment shipment) data_of.shipments tt
    merge_inventory data_of.inventory
    for_each (λ alias u. merge_alias alias) data_of.aliases tt
    commit w
    pure data_of
