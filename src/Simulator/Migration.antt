-- ===== src/Simulator/Migration.antt =====
-- services/supply-chain-simulator/migrations/versions/0001_initial_schema.py, and the transaction
-- of migrations/env.py in which it runs.
pub mod Tables
pub mod Frame
pub mod Steps
pub mod Initial
pub mod Refusal
pub mod Upgrade
mod Tests
use sentinel_chain.Base.{String, List, [], ◌∷◌}
use sentinel_chain.Base.Exec.{Exec, ◌>>◌, for_each}
use sentinel_chain.Simulator.Schema.Laws.{Command, Ddl, replica_identity_full}
use sentinel_chain.Simulator.Migration.Tables.{
  suppliers_table, products_table, warehouses_table, facilities_table, routes_table,
  purchase_orders_table, shipments_table, shipment_events_table, inventory_table,
  supplier_aliases_table,
}

abbrev pub cdc_tables : List String
cdc_tables = "suppliers" ∷ "facilities" ∷ "shipments" ∷ "inventory" ∷ "purchase_orders" ∷ []

-- The tables that the downgrade drops, in its order.
abbrev pub dropped_tables : List String
dropped_tables =
    "supplier_aliases" ∷ "inventory" ∷ "shipment_events" ∷ "shipments" ∷ "purchase_orders"
    ∷ "routes" ∷ "facilities" ∷ "warehouses" ∷ "products" ∷ "suppliers" ∷ []

module _ {X : Type 0} (ddl : Ddl X) where
  -- the loop over the tables with full row images
  abbrev pub identify : String → Exec X ddl.Db (Unit {0})
  identify table = ddl.execute (replica_identity_full table)

  unfoldable pub upgrade : Exec X ddl.Db (Unit {0})
  upgrade =
      ddl.create_table suppliers_table
      >> (ddl.create_table products_table
          >> (ddl.create_table warehouses_table
              >> (ddl.create_table facilities_table
                  >> (ddl.create_table routes_table
                      >> (ddl.create_table purchase_orders_table
                          >> (ddl.create_table shipments_table
                              >> (ddl.create_table shipment_events_table
                                  >> (ddl.create_table inventory_table
                                      >> (ddl.create_table supplier_aliases_table
                                          >> for_each (λ table _. identify table) cdc_tables
                                              tt)))))))))

  unfoldable pub downgrade : Exec X ddl.Db (Unit {0})
  downgrade = for_each (λ table _. ddl.drop_table table) dropped_tables tt

  -- `run_migrations_online`: Alembic runs in a transaction what the database's version asks for.
  unfoldable pub run_migrations : Command → Exec X ddl.Db (Unit {0})
  run_migrations command = ddl.transaction (ddl.run command upgrade downgrade)
