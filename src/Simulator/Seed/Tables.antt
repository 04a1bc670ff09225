-- ===== src/Simulator/Seed/Tables.antt =====
-- The primary keys of the database, and those of the demo scenario.
use sentinel_chain.Base.{String, ◌≡◌, List, [], ◌∷◌, map}
use sentinel_chain.Base.Runtime.{Runtime}
use sentinel_chain.Simulator.Models.{
  Database, Supplier, Facility, Product, Warehouse, PurchaseOrder, Inventory, Shipment,
  SupplierAlias,
}
use sentinel_chain.Simulator.Seed.Data.{SeedIds}
use sentinel_chain.Simulator.Seed.Keys.{text_keys, pair_keys, add_keys, add_keys-add_keys}

-- The primary keys of the tables.
pub record Keys : Type 0 where
  pub suppliers : List String
  pub products : List String
  pub warehouses : List String
  pub facilities : List String
  pub purchase_orders : List String
  pub shipments : List String
  pub inventory : List (String × String)
  pub supplier_aliases : List (String × String)

-- The keys with those of the other tables added.
unfoldable pub join : Keys → Keys → Keys
join seed old = record {
  suppliers = add_keys text_keys seed.suppliers old.suppliers;
  products = add_keys text_keys seed.products old.products;
  warehouses = add_keys text_keys seed.warehouses old.warehouses;
  facilities = add_keys text_keys seed.facilities old.facilities;
  purchase_orders = add_keys text_keys seed.purchase_orders old.purchase_orders;
  shipments = add_keys text_keys seed.shipments old.shipments;
  inventory = add_keys pair_keys seed.inventory old.inventory;
  supplier_aliases = add_keys pair_keys seed.supplier_aliases old.supplier_aliases;
}

pub join-join : (seed old : Keys) → join seed (join seed old) ≡ join seed old
unfolding join
join-join seed old = rw (
  add_keys-add_keys text_keys seed.suppliers old.suppliers,
  add_keys-add_keys text_keys seed.products old.products,
  add_keys-add_keys text_keys seed.warehouses old.warehouses,
  add_keys-add_keys text_keys seed.facilities old.facilities,
  add_keys-add_keys text_keys seed.purchase_orders old.purchase_orders,
  add_keys-add_keys text_keys seed.shipments old.shipments,
  add_keys-add_keys pair_keys seed.inventory old.inventory,
  add_keys-add_keys pair_keys seed.supplier_aliases old.supplier_aliases,
)

module _ {R : Runtime} where
  unfoldable pub keys_of : Database R → Keys
  keys_of db = record {
    suppliers = map (λ (r : Supplier R). r.supplier_id) db.suppliers;
    products = map (λ (r : Product R). r.product_id) db.products;
    warehouses = map (λ (r : Warehouse R). r.warehouse_id) db.warehouses;
    facilities = map (λ (r : Facility R). r.facility_id) db.facilities;
    purchase_orders = map (λ (r : PurchaseOrder R). r.purchase_order_id) db.purchase_orders;
    shipments = map (λ (r : Shipment R). r.shipment_id) db.shipments;
    inventory = map (λ (r : Inventory R). (r.warehouse_id, r.product_id)) db.inventory;
    supplier_aliases = map (λ (r : SupplierAlias R). (r.alias, r.supplier_id)) db.supplier_aliases;
  }

  -- The keys of the demo scenario, the same at any time.
  abbrev pub seed_keys : SeedIds R → Keys
  seed_keys ids = record {
    suppliers = ids.sid "supplier:jp-semiconductor" ∷ [];
    products = ids.sid "product:sc-wafer-300mm" ∷ [];
    warehouses = ids.sid "warehouse:osaka-dc" ∷ [];
    facilities = ids.sid "facility:yokohama-plant" ∷ [];
    purchase_orders = ids.sid "po:demo-0001" ∷ [];
    shipments =
        ids.sid "shipment:demo-0000"
        ∷ ids.sid "shipment:demo-0001"
        ∷ ids.sid "shipment:demo-0002"
        ∷ ids.sid "shipment:demo-0003"
        ∷ ids.sid "shipment:demo-0004"
        ∷ [];
    inventory = (ids.sid "warehouse:osaka-dc", ids.sid "product:sc-wafer-300mm") ∷ [];
    supplier_aliases = ("JP Semiconductor", ids.sid "supplier:jp-semiconductor") ∷ [];
  }
