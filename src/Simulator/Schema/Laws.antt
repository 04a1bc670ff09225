-- ===== src/Simulator/Schema/Laws.antt =====
-- The operations on a database that a migration calls, and what it may rely on of them.
use sentinel_chain.Base.{
  String, ◌≡◌, refl, Bool, true, false, not, ◌&&◌, List, [], ◌∷◌, ◌++◌, ◌∙◌, ap,
}
use sentinel_chain.Base.Text.{concat}
use sentinel_chain.Base.Result.{Result, ok, err}
use sentinel_chain.Base.Exec.{Exec, pure, ◌>>=◌, ◌>>◌, for_each}
use sentinel_chain.Simulator.Schema.{Table, has, all_resolve, is_referred, without, with_full}

-- What Alembic is asked for.
pub data Command : Type 0 where
  upgrade_head downgrade_base : Command

-- `alembic.op` over a connection, the transaction of `context.begin_transaction`, and
-- `context.run_migrations` for a command, given the script's upgrade and downgrade.
pub record Ddl (X : Type 0) : Type 1 where
  pub Db : Type 0
  pub create_table : Table → Exec X Db (Unit {0})
  pub drop_table : String → Exec X Db (Unit {0})
  pub execute : String → Exec X Db (Unit {0})
  pub transaction : Exec X Db (Unit {0}) → Exec X Db (Unit {0})
  pub run : Command → Exec X Db (Unit {0}) → Exec X Db (Unit {0}) → Exec X Db (Unit {0})

abbrev pub replica_identity_full : String → String
replica_identity_full table = concat ("ALTER TABLE " ∷ table ∷ " REPLICA IDENTITY FULL" ∷ [])

-- A statement that raises.
abbrev pub Raises : {X Db : Type 0} → Result X (Unit {0}) × Db → Type 0
Raises {X} r = (x : X) × (r.0 ≡ err x)

-- A table is created if its name is new and its foreign keys speak of primary keys, and dropped if
-- no other table refers to it; a transaction undoes a migration that raises. Alembic keeps the
-- version of a database, whether the script is applied to it, in a table of its own that is not
-- among `tables`: it upgrades where the script is not applied, and downgrades where it is.
pub record DdlLaws {X : Type 0} (ddl : Ddl X) : Type 0 where
  pub tables : ddl.Db → List Table
  pub is_applied : ddl.Db → Bool
  pub creates :
      (t : Table) (s : ddl.Db)
      → has t.name (tables s) ≡ false
      → all_resolve (tables s) t.columns ≡ true
      → (ddl.create_table t s).0 ≡ ok tt
  pub created :
      (t : Table) (s : ddl.Db)
      → (ddl.create_table t s).0 ≡ ok tt
      → tables (ddl.create_table t s).1 ≡ tables s ++ t ∷ []
  pub duplicate :
      (t : Table) (s : ddl.Db) → has t.name (tables s) ≡ true → Raises (ddl.create_table t s)
  pub drops :
      (n : String) (s : ddl.Db)
      → has n (tables s) ≡ true
      → is_referred n (tables s) ≡ false
      → (ddl.drop_table n s).0 ≡ ok tt
  pub dropped :
      (n : String) (s : ddl.Db)
      → (ddl.drop_table n s).0 ≡ ok tt
      → tables (ddl.drop_table n s).1 ≡ without n (tables s)
  pub alters :
      (n : String) (s : ddl.Db)
      → has n (tables s) ≡ true
      → (ddl.execute (replica_identity_full n) s).0 ≡ ok tt
  pub altered :
      (n : String) (s : ddl.Db)
      → (ddl.execute (replica_identity_full n) s).0 ≡ ok tt
      → tables (ddl.execute (replica_identity_full n) s).1 ≡ with_full n (tables s)
  pub commits :
      (m : Exec X ddl.Db (Unit {0})) (s : ddl.Db)
      → (m s).0 ≡ ok tt
      → ((ddl.transaction m s).0 ≡ ok tt)
        × ((tables (ddl.transaction m s).1 ≡ tables (m s).1)
            × (is_applied (ddl.transaction m s).1 ≡ is_applied (m s).1))
  pub rolls_back :
      (m : Exec X ddl.Db (Unit {0})) (s : ddl.Db)
      → Raises (m s)
      → Raises (ddl.transaction m s) × (tables (ddl.transaction m s).1 ≡ tables s)
  pub runs_up :
      (up down : Exec X ddl.Db (Unit {0})) (s : ddl.Db)
      → is_applied s ≡ false
      → (up s).0 ≡ ok tt
      → ((ddl.run upgrade_head up down s).0 ≡ ok tt)
        × ((tables (ddl.run upgrade_head up down s).1 ≡ tables (up s).1)
            × (is_applied (ddl.run upgrade_head up down s).1 ≡ true))
  pub stops_up :
      (up down : Exec X ddl.Db (Unit {0})) (s : ddl.Db)
      → is_applied s ≡ false
      → Raises (up s)
      → Raises (ddl.run upgrade_head up down s)
  pub skips_up :
      (up down : Exec X ddl.Db (Unit {0})) (s : ddl.Db)
      → is_applied s ≡ true
      → ((ddl.run upgrade_head up down s).0 ≡ ok tt)
        × (tables (ddl.run upgrade_head up down s).1 ≡ tables s)
  pub runs_down :
      (up down : Exec X ddl.Db (Unit {0})) (s : ddl.Db)
      → is_applied s ≡ true
      → (down s).0 ≡ ok tt
      → ((ddl.run downgrade_base up down s).0 ≡ ok tt)
        × ((tables (ddl.run downgrade_base up down s).1 ≡ tables (down s).1)
            × (is_applied (ddl.run downgrade_base up down s).1 ≡ false))

module _ {X : Type 0} {ddl : Ddl X} (laws : DdlLaws ddl) where
  -- From a database of those tables the statement returns, and leaves a database of these.
  pub record Does (m : Exec X ddl.Db (Unit {0})) (v v' : List Table) : Type 0 where
    pub does : (s : ddl.Db) → laws.tables s ≡ v → ((m s).0 ≡ ok tt) × (laws.tables (m s).1 ≡ v')

  pub Does-then :
      {m n : Exec X ddl.Db (Unit {0})} {v v' v'' : List Table}
      → Does m v v'
      → Does n v' v''
      → Does (m >> n) v v''
  unfolding ◌>>=◌
  Does-then {m} {n} {v} {v'} {v''} h k = record { does = λ s e. go (m s) (h.does s e) }
    where
      go :
          (r : Result X (Unit {0}) × ddl.Db)
          → (r.0 ≡ ok tt) × (laws.tables r.1 ≡ v')
          → let r' = sentinel_chain.Base.Exec.and_then (λ _. n) r in
            (r'.0 ≡ ok tt) × (laws.tables r'.1 ≡ v'')
      go (ok u, s) g = k.does s g.1
      go (err x, s) g = absurd (cc g.0)

  -- A loop, a list of states long.
  pub Does-none :
      {A : Type 0} (body : A → Exec X ddl.Db (Unit {0})) (v : List Table)
      → Does (for_each (λ x _. body x) [] tt) v v
  unfolding for_each
  Does-none body v = record { does = λ s e. (refl, e) }

  pub Does-next :
      {A : Type 0} (body : A → Exec X ddl.Db (Unit {0})) (x : A) (xs : List A)
      {v v' v'' : List Table}
      → Does (body x) v v'
      → Does (for_each (λ y _. body y) xs tt) v' v''
      → Does (for_each (λ y _. body y) (x ∷ xs) tt) v v''
  unfolding for_each
  Does-next body x xs h k = Does-then h k
