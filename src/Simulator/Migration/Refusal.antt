-- ===== src/Simulator/Migration/Refusal.antt =====
-- When the migration cannot run.
use sentinel_chain.Base.{
  String, ◌≡◌, refl, sym, ap, ◌∙◌, true, false, List, [], ◌∷◌, ◌++◌, All, Bool-cases, inl, inr,
  str_eq, arith,
}
use sentinel_chain.Base.Exec.{Exec, and_then, ◌>>=◌, ◌>>◌}
use sentinel_chain.Base.Result.{Result, ok, err, Result-cases}
use sentinel_chain.Simulator.Schema.{Table, any, has}
use sentinel_chain.Simulator.Schema.Laws.{Ddl, DdlLaws, Raises}
use sentinel_chain.Simulator.Migration.{upgrade}
use sentinel_chain.Simulator.Migration.Tables.{
  suppliers_table, products_table, warehouses_table, facilities_table, routes_table,
  purchase_orders_table, shipments_table, shipment_events_table, inventory_table,
  supplier_aliases_table,
}
use sentinel_chain.Simulator.Migration.Frame.{any-append}

-- The names of the tables that the migration creates.
abbrev pub created_names : List String
created_names =
    "suppliers" ∷ "products" ∷ "warehouses" ∷ "facilities" ∷ "routes" ∷ "purchase_orders"
    ∷ "shipments" ∷ "shipment_events" ∷ "inventory" ∷ "supplier_aliases" ∷ []

abbrev AreNew : List String → List Table → Type 0
AreNew names schema = All (λ n. has n schema ≡ false) names

older : (n : String) (xs ys : List Table) → has n (xs ++ ys) ≡ false → has n xs ≡ false
older n xs ys h = ground (arith, any-append (λ (t : Table). str_eq t.name n) xs ys)

AreNew-older :
    (names : List String) (xs ys : List Table) → AreNew names (xs ++ ys) → AreNew names xs
AreNew-older [] xs ys h = tt
AreNew-older (n ∷ names) xs ys h = (older n xs ys h.0, AreNew-older names xs ys h.1)

any-AreNew :
    (names : List String) (schema : List Table)
    → AreNew names schema
    → any (λ n. has n schema) names ≡ false
any-AreNew [] schema h = refl
any-AreNew (n ∷ names) schema h = rw h.0 (any-AreNew names schema h.1)

module _ {X : Type 0} {ddl : Ddl X} (laws : DdlLaws ddl) where
  -- If the statements return, the names were new.
  record Needs (names : List String) (m : Exec X ddl.Db (Unit {0})) : Type 0 where
    needs : (s : ddl.Db) → (m s).0 ≡ ok tt → AreNew names (laws.tables s)

  Needs-then :
      (t : Table) (names : List String) (rest : Exec X ddl.Db (Unit {0}))
      → Needs names rest
      → Needs (t.name ∷ names) (ddl.create_table t >> rest)
  unfolding ◌>>=◌
  Needs-then t names rest h = record {
    needs = λ s returned. go s (ddl.create_table t s) refl returned;
  }
    where
      go :
          (s : ddl.Db) (r : Result X (Unit {0}) × ddl.Db)
          → ddl.create_table t s ≡ r
          → (and_then (λ _. rest) r).0 ≡ ok tt
          → AreNew (t.name ∷ names) (laws.tables s)
      go s (err x, s') e returned = absurd (cc returned)
      go s (ok u, s') e returned =
          let fine : (ddl.create_table t s).0 ≡ ok tt = rw e in
          let seen : laws.tables s' ≡ laws.tables s ++ t ∷ [] =
            ap (λ p. laws.tables (p.1)) (sym e) ∙ laws.created t s fine in
          let later : AreNew names (laws.tables s ++ t ∷ []) = rw seen at (h.needs s' returned) in
          (
            elim (Bool-cases (has t.name (laws.tables s))) [
              | inr new ↦ new
              | inl old ↦ absurd (cc ((laws.duplicate t s old).1, fine))
            ],
            AreNew-older names (laws.tables s) (t ∷ []) later,
          )

  Needs-any : (m : Exec X ddl.Db (Unit {0})) → Needs [] m
  Needs-any m = record { needs = λ s returned. tt }

  upgrade-Needs : Needs created_names (upgrade ddl)
  unfolding upgrade
  upgrade-Needs = Needs-then suppliers_table _ _ (
      Needs-then products_table _ _ (
        Needs-then warehouses_table _ _ (
          Needs-then facilities_table _ _ (
            Needs-then routes_table _ _ (
              Needs-then purchase_orders_table _ _ (
                Needs-then shipments_table _ _ (
                  Needs-then shipment_events_table _ _ (
                    Needs-then inventory_table _ _
                      (Needs-then supplier_aliases_table _ _ (Needs-any _))))))))))

  -- A database with a table of one of the names makes it raise.
  pub upgrade-Raises :
      (s : ddl.Db) → any (λ n. has n (laws.tables s)) created_names ≡ true → Raises (upgrade ddl s)
  upgrade-Raises s h = elim (Result-cases (upgrade ddl s).0) [
    | inr raised ↦ raised
    | inl (u, fine) ↦
        absurd (cc (h, any-AreNew created_names (laws.tables s) (upgrade-Needs.needs s fine)))
  ]
