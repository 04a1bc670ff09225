-- ===== src/Simulator/Models.antt =====
-- The rows of services/supply-chain-simulator/src/supply_chain_simulator/models.py. A UUID is its
-- text; a numeric column holds the float that the service reads of it.
use sentinel_chain.Base.{ℕ, String, Option, List}
use sentinel_chain.Base.Runtime.{Runtime}

abbrev pub Uuid : Type 0
Uuid = String

pub record Supplier (R : Runtime) : Type 0 where
  pub supplier_id : Uuid
  pub supplier_name : String
  pub normalized_name : String
  pub country_code : Option String
  pub supplier_tier : ℕ
  pub criticality_score : R.Float
  pub status : String
  pub created_at : R.Datetime
  pub updated_at : R.Datetime

pub record Facility (R : Runtime) : Type 0 where
  pub facility_id : Uuid
  pub supplier_id : Uuid
  pub facility_name : String
  pub facility_type : String
  pub latitude : R.Float
  pub longitude : R.Float
  pub h3_index : Option String
  pub country_code : Option String
  pub capacity_score : Option R.Float
  pub status : String
  pub created_at : R.Datetime
  pub updated_at : R.Datetime

pub record Product (R : Runtime) : Type 0 where
  pub product_id : Uuid
  pub product_name : String
  pub category : Option String
  pub criticality_score : R.Float
  pub created_at : R.Datetime
  pub updated_at : R.Datetime

pub record Warehouse (R : Runtime) : Type 0 where
  pub warehouse_id : Uuid
  pub warehouse_name : String
  pub latitude : R.Float
  pub longitude : R.Float
  pub country_code : Option String
  pub created_at : R.Datetime
  pub updated_at : R.Datetime

pub record Route (R : Runtime) : Type 0 where
  pub route_id : Uuid
  pub origin_facility_id : Uuid
  pub destination_warehouse_id : Uuid
  pub transport_mode : String
  pub distance_km : Option R.Float
  pub planned_transit_hours : Option R.Float
  pub created_at : R.Datetime
  pub updated_at : R.Datetime

-- A date is the day that a datetime is cut to.
pub record PurchaseOrder (R : Runtime) : Type 0 where
  pub purchase_order_id : Uuid
  pub supplier_id : Uuid
  pub product_id : Uuid
  pub quantity : R.Float
  pub unit_price : R.Float
  pub status : String
  pub required_by_date : Option String
  pub created_at : R.Datetime
  pub updated_at : R.Datetime

pub record Shipment (R : Runtime) : Type 0 where
  pub shipment_id : Uuid
  pub purchase_order_id : Uuid
  pub supplier_id : Uuid
  pub origin_facility_id : Uuid
  pub destination_warehouse_id : Uuid
  pub status : String
  pub transport_mode : String
  pub planned_departure_at : Option R.Datetime
  pub planned_arrival_at : Option R.Datetime
  pub estimated_arrival_at : Option R.Datetime
  pub actual_arrival_at : Option R.Datetime
  pub shipment_value : Option R.Float
  pub updated_at : R.Datetime

pub record ShipmentEvent (R : Runtime) : Type 0 where
  pub shipment_event_id : Uuid
  pub shipment_id : Uuid
  pub event_type : String
  pub status : Option String
  pub note : Option String
  pub occurred_at : R.Datetime
  pub created_at : R.Datetime

pub record Inventory (R : Runtime) : Type 0 where
  pub warehouse_id : Uuid
  pub product_id : Uuid
  pub quantity_on_hand : R.Float
  pub average_daily_usage : R.Float
  pub safety_stock : R.Float
  pub updated_at : R.Datetime

pub record SupplierAlias (R : Runtime) : Type 0 where
  pub alias : String
  pub supplier_id : Uuid
  pub alias_type : String
  pub confidence : Option R.Float

-- The tables, each a list of its rows.
pub record Database (R : Runtime) : Type 0 where
  pub suppliers : List (Supplier R)
  pub facilities : List (Facility R)
  pub products : List (Product R)
  pub warehouses : List (Warehouse R)
  pub routes : List (Route R)
  pub purchase_orders : List (PurchaseOrder R)
  pub shipments : List (Shipment R)
  pub shipment_events : List (ShipmentEvent R)
  pub inventory : List (Inventory R)
  pub supplier_aliases : List (SupplierAlias R)
