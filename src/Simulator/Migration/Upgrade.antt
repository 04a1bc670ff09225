-- ===== src/Simulator/Migration/Upgrade.antt =====
-- The first migration and its downgrade, each in its transaction.
use sentinel_chain.Base.{◌≡◌, refl, sym, ap, ◌∙◌, true, false, List, ◌++◌}
use mathlib.Core.Path.{subst}
use mathlib.Core.List.{append-nil, Permᴰ}
use sentinel_chain.Base.Result.{ok}
use sentinel_chain.Simulator.Schema.{Table, any, has}
use sentinel_chain.Simulator.Schema.Metadata.{metadata, mapped_cdc_tables}
use sentinel_chain.Simulator.Schema.Laws.{upgrade_head, downgrade_base, Ddl, DdlLaws, Raises}
use sentinel_chain.Simulator.Migration.{upgrade, downgrade, run_migrations}
use sentinel_chain.Simulator.Migration.Initial.{
  IsFree, all_full, initial_tables, upgrade-Does, downgrade-Does,
}
use sentinel_chain.Simulator.Migration.Refusal.{created_names, upgrade-Raises}

-- The migration creates the tables in another order than the classes stand in.
initial_tables-metadata : Permᴰ initial_tables (all_full mapped_cdc_tables metadata)
initial_tables-metadata =
    Permᴰ.cons refl (Permᴰ.trans (Permᴰ.cons refl (Permᴰ.swap refl refl)) (Permᴰ.swap refl refl))

module _ {X : Type 0} {ddl : Ddl X} (laws : DdlLaws ddl) (s : ddl.Db) where
  upgraded :
      IsFree (laws.tables s)
      → ((upgrade ddl s).0 ≡ ok tt)
        × (laws.tables (upgrade ddl s).1 ≡ laws.tables s ++ initial_tables)
  upgraded free = (upgrade-Does laws (laws.tables s) free).does s (sym (append-nil (laws.tables s)))

  pub run_upgrade :
      laws.is_applied s ≡ false
      → IsFree (laws.tables s)
      → ((run_migrations ddl upgrade_head s).0 ≡ ok tt)
        × ((laws.tables (run_migrations ddl upgrade_head s).1 ≡ laws.tables s ++ initial_tables)
            × (laws.is_applied (run_migrations ddl upgrade_head s).1 ≡ true))
  unfolding run_migrations
  run_upgrade new free =
      let ran = laws.runs_up (upgrade ddl) (downgrade ddl) s new (upgraded free).0 in
      let done = laws.commits (ddl.run upgrade_head (upgrade ddl) (downgrade ddl)) s ran.0 in
      (done.0, (done.1.0 ∙ ran.1.0 ∙ (upgraded free).1, done.1.1 ∙ ran.1.1))

  -- On a database to which the script is not applied, and whose tables neither have nor refer to
  -- one of its ten names, the upgrade returns and adds to the tables: those that the mapped
  -- classes describe, column by column, in some order, the five CDC tables of models.py with
  -- REPLICA IDENTITY FULL.
  pub run_migrations-upgrade :
      laws.is_applied s ≡ false
      → IsFree (laws.tables s)
      → ((run_migrations ddl upgrade_head s).0 ≡ ok tt)
        × ((added : List Table) × ((laws.tables (run_migrations ddl upgrade_head s).1
                ≡ laws.tables s ++ added)
              × Permᴰ added (all_full mapped_cdc_tables metadata)))
  run_migrations-upgrade new free =
      let done = run_upgrade new free in
      (done.0, (initial_tables, (done.1.0, initial_tables-metadata)))

  pub run_downgrade :
      laws.is_applied s ≡ false
      → IsFree (laws.tables s)
      → let s' = (run_migrations ddl upgrade_head s).1 in
        ((run_migrations ddl downgrade_base s').0 ≡ ok tt)
        × ((laws.tables (run_migrations ddl downgrade_base s').1 ≡ laws.tables s)
            × (laws.is_applied (run_migrations ddl downgrade_base s').1 ≡ false))
  unfolding run_migrations
  run_downgrade new free =
      let s' = (run_migrations ddl upgrade_head s).1 in
      let up = run_upgrade new free in
      let down = (downgrade-Does laws (laws.tables s) free).does s' up.1.0 in
      let ran = laws.runs_down (upgrade ddl) (downgrade ddl) s' up.1.1 down.0 in
      let done = laws.commits (ddl.run downgrade_base (upgrade ddl) (downgrade ddl)) s' ran.0 in
      (done.0, (done.1.0 ∙ ran.1.0 ∙ down.1 ∙ append-nil (laws.tables s), done.1.1 ∙ ran.1.1))

  -- On a database to which the script is not applied, and whose tables neither have nor refer to
  -- one of its ten names, the downgrade after the upgrade returns, and the tables are those from
  -- before.
  pub run_migrations-downgrade :
      laws.is_applied s ≡ false
      → IsFree (laws.tables s)
      → let upgraded = (run_migrations ddl upgrade_head s).1 in
        ((run_migrations ddl downgrade_base upgraded).0 ≡ ok tt)
        × (laws.tables (run_migrations ddl downgrade_base upgraded).1 ≡ laws.tables s)
  run_migrations-downgrade new free = let down = run_downgrade new free in (down.0, down.1.0)

  -- On a database to which the script is not applied, but that has a table of one of its ten
  -- names, the upgrade raises and leaves the tables as they were.
  pub run_migrations-taken :
      laws.is_applied s ≡ false
      → any (λ n. has n (laws.tables s)) created_names ≡ true
      → Raises (run_migrations ddl upgrade_head s)
        × (laws.tables (run_migrations ddl upgrade_head s).1 ≡ laws.tables s)
  unfolding run_migrations
  run_migrations-taken new taken =
      laws.rolls_back (ddl.run upgrade_head (upgrade ddl) (downgrade ddl)) s
        (laws.stops_up (upgrade ddl) (downgrade ddl) s new (upgrade-Raises laws s taken))

module _ {X : Type 0} {ddl : Ddl X} (laws : DdlLaws ddl) (s : ddl.Db) where
  -- On a database to which the script is not applied, and whose tables neither have nor refer to
  -- one of its ten names: after the upgrade, another one returns and changes no table; and after
  -- the upgrade and the downgrade, another one returns and the tables are those that the first one
  -- left.
  pub run_migrations-again :
      laws.is_applied s ≡ false
      → IsFree (laws.tables s)
      → let upgraded = (run_migrations ddl upgrade_head s).1 in
        let downgraded = (run_migrations ddl downgrade_base upgraded).1 in
        (((run_migrations ddl upgrade_head upgraded).0 ≡ ok tt)
          × (laws.tables (run_migrations ddl upgrade_head upgraded).1 ≡ laws.tables upgraded))
        × (((run_migrations ddl upgrade_head downgraded).0 ≡ ok tt)
            × (laws.tables (run_migrations ddl upgrade_head downgraded).1 ≡ laws.tables upgraded))
  unfolding run_migrations
  run_migrations-again new free =
      let s' = (run_migrations ddl upgrade_head s).1 in
      let up = run_upgrade laws s new free in
      let ran = laws.skips_up (upgrade ddl) (downgrade ddl) s' up.1.1 in
      let done = laws.commits (ddl.run upgrade_head (upgrade ddl) (downgrade ddl)) s' ran.0 in
      let down = run_downgrade laws s new free in
      let anew =
        run_upgrade laws (run_migrations ddl downgrade_base s').1 down.1.1
          (subst IsFree (sym down.1.0) free) in
      (
        (done.0, done.1.0 ∙ ran.1),
        (anew.0, anew.1.0 ∙ ap (λ ts. ts ++ initial_tables) down.1.0 ∙ sym up.1.0),
      )
