-- ===== src/Simulator/Migration/Tables.antt =====
-- The tables of services/supply-chain-simulator/migrations/versions/0001_initial_schema.py.
use sentinel_chain.Base.{[], ◌∷◌}
use sentinel_chain.Simulator.Schema.{
  uuid, text, integer, double, date, char, numeric, timestamp_tz, Table, primary, required,
  with_null, refers_to, table_of,
}

abbrev pub suppliers_table : Table
suppliers_table = table_of "suppliers" (
    primary "supplier_id" uuid
    ∷ required "supplier_name" text
    ∷ required "normalized_name" text
    ∷ with_null "country_code" (char 2)
    ∷ required "supplier_tier" integer
    ∷ required "criticality_score" (numeric 5 4)
    ∷ required "status" text
    ∷ required "created_at" timestamp_tz
    ∷ required "updated_at" timestamp_tz
    ∷ [])

abbrev pub products_table : Table
products_table = table_of "products" (
    primary "product_id" uuid
    ∷ required "product_name" text
    ∷ with_null "category" text
    ∷ required "criticality_score" (numeric 5 4)
    ∷ required "created_at" timestamp_tz
    ∷ required "updated_at" timestamp_tz
    ∷ [])

abbrev pub warehouses_table : Table
warehouses_table = table_of "warehouses" (
    primary "warehouse_id" uuid
    ∷ required "warehouse_name" text
    ∷ required "latitude" double
    ∷ required "longitude" double
    ∷ with_null "country_code" (char 2)
    ∷ required "created_at" timestamp_tz
    ∷ required "updated_at" timestamp_tz
    ∷ [])

abbrev pub facilities_table : Table
facilities_table = table_of "facilities" (
    primary "facility_id" uuid
    ∷ refers_to "suppliers" "supplier_id" (required "supplier_id" uuid)
    ∷ required "facility_name" text
    ∷ required "facility_type" text
    ∷ required "latitude" double
    ∷ required "longitude" double
    ∷ with_null "h3_index" text
    ∷ with_null "country_code" (char 2)
    ∷ with_null "capacity_score" (numeric 5 4)
    ∷ required "status" text
    ∷ required "created_at" timestamp_tz
    ∷ required "updated_at" timestamp_tz
    ∷ [])

abbrev pub routes_table : Table
routes_table = table_of "routes" (
    primary "route_id" uuid
    ∷ refers_to "facilities" "facility_id" (required "origin_facility_id" uuid)
    ∷ refers_to "warehouses" "warehouse_id" (required "destination_warehouse_id" uuid)
    ∷ required "transport_mode" text
    ∷ with_null "distance_km" double
    ∷ with_null "planned_transit_hours" double
    ∷ required "created_at" timestamp_tz
    ∷ required "updated_at" timestamp_tz
    ∷ [])

abbrev pub purchase_orders_table : Table
purchase_orders_table = table_of "purchase_orders" (
    primary "purchase_order_id" uuid
    ∷ refers_to "suppliers" "supplier_id" (required "supplier_id" uuid)
    ∷ refers_to "products" "product_id" (required "product_id" uuid)
    ∷ required "quantity" (numeric 18 4)
    ∷ required "unit_price" (numeric 18 4)
    ∷ required "status" text
    ∷ with_null "required_by_date" date
    ∷ required "created_at" timestamp_tz
    ∷ required "updated_at" timestamp_tz
    ∷ [])

abbrev pub shipments_table : Table
shipments_table = table_of "shipments" (
    primary "shipment_id" uuid
    ∷ required "purchase_order_id" uuid
    ∷ required "supplier_id" uuid
    ∷ required "origin_facility_id" uuid
    ∷ required "destination_warehouse_id" uuid
    ∷ required "status" text
    ∷ required "transport_mode" text
    ∷ with_null "planned_departure_at" timestamp_tz
    ∷ with_null "planned_arrival_at" timestamp_tz
    ∷ with_null "estimated_arrival_at" timestamp_tz
    ∷ with_null "actual_arrival_at" timestamp_tz
    ∷ with_null "shipment_value" (numeric 18 2)
    ∷ required "updated_at" timestamp_tz
    ∷ [])

abbrev pub shipment_events_table : Table
shipment_events_table = table_of "shipment_events" (
    primary "shipment_event_id" uuid
    ∷ refers_to "shipments" "shipment_id" (required "shipment_id" uuid)
    ∷ required "event_type" text
    ∷ with_null "status" text
    ∷ with_null "note" text
    ∷ required "occurred_at" timestamp_tz
    ∷ required "created_at" timestamp_tz
    ∷ [])

abbrev pub inventory_table : Table
inventory_table = table_of "inventory" (
    primary "warehouse_id" uuid
    ∷ primary "product_id" uuid
    ∷ required "quantity_on_hand" (numeric 18 4)
    ∷ required "average_daily_usage" (numeric 18 4)
    ∷ required "safety_stock" (numeric 18 4)
    ∷ required "updated_at" timestamp_tz
    ∷ [])

abbrev pub supplier_aliases_table : Table
supplier_aliases_table = table_of "supplier_aliases" (
    primary "alias" text
    ∷ refers_to "suppliers" "supplier_id" (primary "supplier_id" uuid)
    ∷ required "alias_type" text
    ∷ with_null "confidence" (numeric 5 4)
    ∷ [])
