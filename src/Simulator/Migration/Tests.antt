-- ===== src/Simulator/Migration/Tests.antt =====
-- The first migration on a database that has another table.
use sentinel_chain.Base.{false, ◌≡◌, refl, List, [], ◌∷◌, ◌++◌}
use mathlib.Core.List.{Permᴰ}
use sentinel_chain.Base.Result.{ok}
use sentinel_chain.Samples.Schemas.{Versioned, table_list, table_list_laws}
use sentinel_chain.Simulator.Schema.{Table, primary, text, table_of}
use sentinel_chain.Simulator.Schema.Metadata.{metadata, mapped_cdc_tables}
use sentinel_chain.Simulator.Schema.Laws.{upgrade_head, downgrade_base, Raises}
use sentinel_chain.Simulator.Migration.{run_migrations}
use sentinel_chain.Simulator.Migration.Tables.{suppliers_table}
use sentinel_chain.Simulator.Migration.Initial.{IsFree, all_full}
use sentinel_chain.Simulator.Migration.Upgrade.{
  run_migrations-upgrade, run_migrations-downgrade, run_migrations-again, run_migrations-taken,
}

abbrev empty_database : Versioned
empty_database = (false, table_of "notes" (primary "note_id" text ∷ []) ∷ [])

abbrev upgraded_database : Versioned
upgraded_database = (run_migrations table_list upgrade_head empty_database).1

free : IsFree empty_database.1
free = (
  record { new_name = refl; unreferred = refl },
  (
    record { new_name = refl; unreferred = refl },
    (
      record { new_name = refl; unreferred = refl },
      (
        record { new_name = refl; unreferred = refl },
        (
          record { new_name = refl; unreferred = refl },
          (
            record { new_name = refl; unreferred = refl },
            (
              record { new_name = refl; unreferred = refl },
              (
                record { new_name = refl; unreferred = refl },
                (
                  record { new_name = refl; unreferred = refl },
                  (record { new_name = refl; unreferred = refl }, tt),
                ),
              ),
            ),
          ),
        ),
      ),
    ),
  ),
)

run_migrations-upgrade_example :
    ((run_migrations table_list upgrade_head empty_database).0 ≡ ok tt)
    × ((added : List Table) × ((upgraded_database.1 ≡ empty_database.1 ++ added)
          × Permᴰ added (all_full mapped_cdc_tables metadata)))
run_migrations-upgrade_example = run_migrations-upgrade table_list_laws empty_database refl free

run_migrations-downgrade_example :
    ((run_migrations table_list downgrade_base upgraded_database).0 ≡ ok tt)
    × ((run_migrations table_list downgrade_base upgraded_database).1.1 ≡ empty_database.1)
run_migrations-downgrade_example = run_migrations-downgrade table_list_laws empty_database refl free

run_migrations-again_example :
    let downgraded = (run_migrations table_list downgrade_base upgraded_database).1 in
    (((run_migrations table_list upgrade_head upgraded_database).0 ≡ ok tt)
      × ((run_migrations table_list upgrade_head upgraded_database).1.1 ≡ upgraded_database.1))
    × (((run_migrations table_list upgrade_head downgraded).0 ≡ ok tt)
        × ((run_migrations table_list upgrade_head downgraded).1.1 ≡ upgraded_database.1))
run_migrations-again_example = run_migrations-again table_list_laws empty_database refl free

-- A database that has the table of the suppliers, but not the script.
abbrev old_database : Versioned
old_database = (false, suppliers_table ∷ [])

run_migrations-taken_example :
    Raises (run_migrations table_list upgrade_head old_database)
    × ((run_migrations table_list upgrade_head old_database).1.1 ≡ suppliers_table ∷ [])
run_migrations-taken_example = run_migrations-taken table_list_laws old_database refl refl
