-- ===== src/Simulator/Schema/Metadata.antt =====
-- The tables that the mapped classes of
-- services/supply-chain-simulator/src/supply_chain_simulator/models.py describe, `Base.metadata`.
use sentinel_chain.Base.{String, List, [], ◌∷◌}
use sentinel_chain.Simulator.Schema.{
  uuid, text, integer, double, date, char, numeric, timestamp_tz, Table, primary, required,
  with_null, refers_to, table_of,
}

-- A column without a type has that of its annotation.
abbrev pub supplier_class : Table
supplier_class = table_of "suppliers" (
    primary "supplier_id" uuid
    ∷ required "supplier_name" text
    ∷ required "normalized_name" text
    ∷ with_null "country_code" (char 2)
    ∷ required "supplier_tier" integer
    ∷ required "criticality_score" (numeric 5 4)
    ∷ required "status" text
    ∷ required "created_at" timestamp_tz
    ∷ required "updated_at" timestamp_tz
    ∷ [])

abbrev pub facility_class : Table
facility_class = table_of "facilities" (
    primary "facility_id" uuid
    ∷ refers_to "suppliers" "supplier_id" (required "supplier_id" uuid)
    ∷ required "facility_name" text
    ∷ required "facility_type" text
    ∷ required "latitude" double
    ∷ required "longitude" double
    ∷ with_null "h3_index" text
    ∷ with_null "country_code" (char 2)
    ∷ with_null "capacity_score" (numeric 5 4)
    ∷ required "status" text
    ∷ required "created_at" timestamp_tz
    ∷ required "updated_at" timestamp_tz
    ∷ [])

abbrev pub product_class : Table
product_class = table_of "products" (
    primary "product_id" uuid
    ∷ required "product_name" text
    ∷ with_null "category" text
    ∷ required "criticality_score" (numeric 5 4)
    ∷ required "created_at" timestamp_tz
    ∷ required "updated_at" timestamp_tz
    ∷ [])

abbrev pub warehouse_class : Table
warehouse_class = table_of "warehouses" (
    primary "warehouse_id" uuid
    ∷ required "warehouse_name" text
    ∷ required "latitude" double
    ∷ required "longitude" double
    ∷ with_null "country_code" (char 2)
    ∷ required "created_at" timestamp_tz
    ∷ required "updated_at" timestamp_tz
    ∷ [])

abbrev pub route_class : Table
route_class = table_of "routes" (
    primary "route_id" uuid
    ∷ refers_to "facilities" "facility_id" (required "origin_facility_id" uuid)
    ∷ refers_to "warehouses" "warehouse_id" (required "destination_warehouse_id" uuid)
    ∷ required "transport_mode" text
    ∷ with_null "distance_km" double
    ∷ with_null "planned_transit_hours" double
    ∷ required "created_at" timestamp_tz
    ∷ required "updated_at" timestamp_tz
    ∷ [])

abbrev pub purchase_order_class : Table
purchase_order_class = table_of "purchase_orders" (
    primary "purchase_order_id" uuid
    ∷ refers_to "suppliers" "supplier_id" (required "supplier_id" uuid)
    ∷ refers_to "products" "product_id" (required "product_id" uuid)
    ∷ required "quantity" (numeric 18 4)
    ∷ required "unit_price" (numeric 18 4)
    ∷ required "status" text
    ∷ with_null "required_by_date" date
    ∷ required "created_at" timestamp_tz
    ∷ required "updated_at" timestamp_tz
    ∷ [])

abbrev pub shipment_class : Table
shipment_class = table_of "shipments" (
    primary "shipment_id" uuid
    ∷ required "purchase_order_id" uuid
    ∷ required "supplier_id" uuid
    ∷ required "origin_facility_id" uuid
    ∷ required "destination_warehouse_id" uuid
    ∷ required "status" text
    ∷ required "transport_mode" text
    ∷ with_null "planned_departure_at" timestamp_tz
    ∷ with_null "planned_arrival_at" timestamp_tz
    ∷ with_null "estimated_arrival_at" timestamp_tz
    ∷ with_null "actual_arrival_at" timestamp_tz
    ∷ with_null "shipment_value" (numeric 18 2)
    ∷ required "updated_at" timestamp_tz
    ∷ [])

abbrev pub shipment_event_class : Table
shipment_event_class = table_of "shipment_events" (
    primary "shipment_event_id" uuid
    ∷ refers_to "shipments" "shipment_id" (required "shipment_id" uuid)
    ∷ required "event_type" text
    ∷ with_null "status" text
    ∷ with_null "note" text
    ∷ required "occurred_at" timestamp_tz
    ∷ required "created_at" timestamp_tz
    ∷ [])

abbrev pub inventory_class : Table
inventory_class = table_of "inventory" (
    primary "warehouse_id" uuid
    ∷ primary "product_id" uuid
    ∷ required "quantity_on_hand" (numeric 18 4)
    ∷ required "average_daily_usage" (numeric 18 4)
    ∷ required "safety_stock" (numeric 18 4)
    ∷ required "updated_at" timestamp_tz
    ∷ [])

abbrev pub supplier_alias_class : Table
supplier_alias_class = table_of "supplier_aliases" (
    primary "alias" text
    ∷ refers_to "suppliers" "supplier_id" (primary "supplier_id" uuid)
    ∷ required "alias_type" text
    ∷ with_null "confidence" (numeric 5 4)
    ∷ [])

-- `Base.metadata`
abbrev pub metadata : List Table
metadata =
    supplier_class ∷ facility_class ∷ product_class ∷ warehouse_class ∷ route_class
    ∷ purchase_order_class ∷ shipment_class ∷ shipment_event_class ∷ inventory_class
    ∷ supplier_alias_class ∷ []

abbrev pub mapped_cdc_tables : List String
mapped_cdc_tables = "suppliers" ∷ "facilities" ∷ "shipments" ∷ "inventory" ∷ "purchase_orders" ∷ []
