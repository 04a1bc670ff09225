-- ===== src/Simulator/Migration/Initial.antt =====
-- What the first migration makes of a database, and what its downgrade leaves.
use sentinel_chain.Base.{String, refl, List, [], ◌∷◌, ◌++◌, All}
use sentinel_chain.Simulator.Schema.{Table, with_full}
use sentinel_chain.Simulator.Schema.Laws.{Ddl, DdlLaws, Does, Does-then, Does-next, Does-none}
use sentinel_chain.Simulator.Migration.{identify, cdc_tables, dropped_tables, upgrade, downgrade}
use sentinel_chain.Simulator.Migration.Tables.{
  suppliers_table, products_table, warehouses_table, facilities_table, routes_table,
  purchase_orders_table, shipments_table, shipment_events_table, inventory_table,
  supplier_aliases_table,
}
use sentinel_chain.Simulator.Migration.Frame.{Apart}
use sentinel_chain.Simulator.Migration.Steps.{create_step, drop_step, identify_step}

abbrev pub all_full : List String → List Table → List Table
all_full [] schema = schema
all_full (name ∷ names) schema = all_full names (with_full name schema)

abbrev pub initial_tables : List Table
initial_tables = all_full cdc_tables (
    suppliers_table ∷ products_table ∷ warehouses_table ∷ facilities_table ∷ routes_table
    ∷ purchase_orders_table ∷ shipments_table ∷ shipment_events_table ∷ inventory_table
    ∷ supplier_aliases_table ∷ [])

-- None of the migration's names is used in the schema.
abbrev pub IsFree : List Table → Type 0
IsFree base = All (Apart base) dropped_tables

module _ {X : Type 0} {ddl : Ddl X} (laws : DdlLaws ddl) (base : List Table) where
  pub upgrade-Does : IsFree base → Does laws (upgrade ddl) (base ++ []) (base ++ initial_tables)
  unfolding upgrade
  upgrade-Does (f9, (f8, (f7, (f6, (f5, (f4, (f3, (f2, (f1, (f0, u)))))))))) =
      Does-then laws (create_step laws base suppliers_table [] f0 refl refl) (
        Does-then laws (create_step laws base products_table _ f1 refl refl) (
          Does-then laws (create_step laws base warehouses_table _ f2 refl refl) (
            Does-then laws (create_step laws base facilities_table _ f3 refl refl) (
              Does-then laws (create_step laws base routes_table _ f4 refl refl) (
                Does-then laws (create_step laws base purchase_orders_table _ f5 refl refl) (
                  Does-then laws (create_step laws base shipments_table _ f6 refl refl) (
                    Does-then laws (create_step laws base shipment_events_table _ f7 refl refl) (
                      Does-then laws (create_step laws base inventory_table _ f8 refl refl) (
                        Does-then laws (create_step laws base supplier_aliases_table _ f9 refl refl)
                          (Does-next laws (identify ddl) _ _
                            (identify_step laws base "suppliers" _ f0 refl)
                            (Does-next laws (identify ddl) _ _
                              (identify_step laws base "facilities" _ f3 refl)
                              (Does-next laws (identify ddl) _ _
                                (identify_step laws base "shipments" _ f6 refl)
                                (Does-next laws (identify ddl) _ _
                                  (identify_step laws base "inventory" _ f8 refl)
                                  (Does-next laws (identify ddl) _ _
                                    (identify_step laws base "purchase_orders" _ f5 refl)
                                    (Does-none laws (identify ddl) _)))))))))))))))

  pub downgrade-Does : IsFree base → Does laws (downgrade ddl) (base ++ initial_tables) (base ++ [])
  unfolding downgrade
  downgrade-Does (f9, (f8, (f7, (f6, (f5, (f4, (f3, (f2, (f1, (f0, u)))))))))) =
      Does-next laws ddl.drop_table _ _
        (drop_step laws base "supplier_aliases" initial_tables f9 refl refl)
        (Does-next laws ddl.drop_table _ _ (drop_step laws base "inventory" _ f8 refl refl) (
          Does-next laws ddl.drop_table _ _ (drop_step laws base "shipment_events" _ f7 refl refl) (
            Does-next laws ddl.drop_table _ _ (drop_step laws base "shipments" _ f6 refl refl) (
              Does-next laws ddl.drop_table _ _
                (drop_step laws base "purchase_orders" _ f5 refl refl)
                (Does-next laws ddl.drop_table _ _ (drop_step laws base "routes" _ f4 refl refl) (
                  Does-next laws ddl.drop_table _ _
                    (drop_step laws base "facilities" _ f3 refl refl)
                    (Does-next laws ddl.drop_table _ _
                      (drop_step laws base "warehouses" _ f2 refl refl)
                      (Does-next laws ddl.drop_table _ _
                        (drop_step laws base "products" _ f1 refl refl)
                        (Does-next laws ddl.drop_table _ _
                          (drop_step laws base "suppliers" _ f0 refl refl)
                          (Does-none laws ddl.drop_table _))))))))))
