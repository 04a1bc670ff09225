-- ===== src/Simulator/Seed/Data.antt =====
-- The demo scenario of services/supply-chain-simulator/src/supply_chain_simulator/seed.py.
use sentinel_chain.Base.{String, none, some, List, [], ◌∷◌, map}
use sentinel_chain.Base.Int.{pos, negsuc}
use sentinel_chain.Base.Text.{concat}
use sentinel_chain.Base.Runtime.{Runtime}
use sentinel_chain.Simulator.Models.{
  Uuid, Supplier, Facility, Product, Warehouse, PurchaseOrder, Inventory, Shipment, SupplierAlias,
}

-- `uuid.uuid5` in the seed's namespace, and `d.date()` as a text.
pub record SeedIds (R : Runtime) : Type 0 where
  pub sid : String → Uuid
  pub date_of : R.Datetime → String

pub record SeedData (R : Runtime) : Type 0 where
  pub supplier : Supplier R
  pub facility : Facility R
  pub warehouse : Warehouse R
  pub product : Product R
  pub purchase_order : PurchaseOrder R
  pub inventory : Inventory R
  pub shipments : List (Shipment R)
  pub aliases : List (SupplierAlias R)

module _ {R : Runtime} (ids : SeedIds R) where
  -- `timedelta(days=n)` is 86400 n seconds.
  abbrev pub seed_shipment : R.Datetime → String → Shipment R
  seed_shipment now number = record {
    shipment_id = ids.sid (concat ("shipment:demo-" ∷ number ∷ []));
    purchase_order_id = ids.sid "po:demo-0001";
    supplier_id = ids.sid "supplier:jp-semiconductor";
    origin_facility_id = ids.sid "facility:yokohama-plant";
    destination_warehouse_id = ids.sid "warehouse:osaka-dc";
    status = "in_transit";
    transport_mode = "sea";
    planned_departure_at = some (R.plus_seconds now (R.lit (negsuc 172799) 0));
    planned_arrival_at = some (R.plus_seconds now (R.lit (pos 432000) 0));
    estimated_arrival_at = some (R.plus_seconds now (R.lit (pos 432000) 0));
    actual_arrival_at = none;
    shipment_value = some (R.lit (pos 240000) 0);
    updated_at = now;
  }

  -- `f"{i:04d}"` for the numbers below SHIPMENT_COUNT
  abbrev pub shipment_numbers : List String
  shipment_numbers = "0000" ∷ "0001" ∷ "0002" ∷ "0003" ∷ "0004" ∷ []

  abbrev pub seed_alias : SupplierAlias R
  seed_alias = record {
    alias = "JP Semiconductor";
    supplier_id = ids.sid "supplier:jp-semiconductor";
    alias_type = "short_name";
    confidence = some (R.lit (pos 95) 2);
  }

  abbrev pub build_seed_data : R.Datetime → SeedData R
  build_seed_data now = record {
    supplier = record {
      supplier_id = ids.sid "supplier:jp-semiconductor";
      supplier_name = "JP Semiconductor Components";
      normalized_name = "jp semiconductor components";
      country_code = some "JP";
      supplier_tier = 1;
      criticality_score = R.lit (pos 95) 2;
      status = "active";
      created_at = now;
      updated_at = now;
    };
    facility = record {
      facility_id = ids.sid "facility:yokohama-plant";
      supplier_id = ids.sid "supplier:jp-semiconductor";
      facility_name = "Yokohama Plant";
      facility_type = "factory";
      latitude = R.lit (pos 354437) 4;
      longitude = R.lit (pos 1396380) 4;
      h3_index = none;
      country_code = some "JP";
      capacity_score = some (R.lit (pos 90) 2);
      status = "active";
      created_at = now;
      updated_at = now;
    };
    warehouse = record {
      warehouse_id = ids.sid "warehouse:osaka-dc";
      warehouse_name = "Osaka Distribution Center";
      latitude = R.lit (pos 346937) 4;
      longitude = R.lit (pos 1355023) 4;
      country_code = some "JP";
      created_at = now;
      updated_at = now;
    };
    product = record {
      product_id = ids.sid "product:sc-wafer-300mm";
      product_name = "300mm Silicon Wafer";
      category = some "semiconductor";
      criticality_score = R.lit (pos 90) 2;
      created_at = now;
      updated_at = now;
    };
    purchase_order = record {
      purchase_order_id = ids.sid "po:demo-0001";
      supplier_id = ids.sid "supplier:jp-semiconductor";
      product_id = ids.sid "product:sc-wafer-300mm";
      quantity = R.lit (pos 10000) 0;
      unit_price = R.lit (pos 120) 0;
      status = "open";
      required_by_date = some (ids.date_of (R.plus_seconds now (R.lit (pos 1209600) 0)));
      created_at = now;
      updated_at = now;
    };
    inventory = record {
      warehouse_id = ids.sid "warehouse:osaka-dc";
      product_id = ids.sid "product:sc-wafer-300mm";
      quantity_on_hand = R.lit (pos 310) 0;
      average_daily_usage = R.lit (pos 100) 0;
      safety_stock = R.lit (pos 50) 0;
      updated_at = now;
    };
    shipments = map (seed_shipment now) shipment_numbers;
    aliases = seed_alias ∷ [];
  }
