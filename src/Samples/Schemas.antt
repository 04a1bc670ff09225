-- ===== src/Samples/Schemas.antt =====
-- A database that is the list of its tables.
use Prim.Native.String.{◌++◌ as text_append}
use text.Mathlib.TextLemmas.{append_cancel_left, append_cancel_right}
use sentinel_chain.Base.{
  String, str_eq, eq_iff, ◌≡◌, refl, ◌∙◌, Bool, Bool-cases, true, false, not, inl, inr, ◌≢◌, ap,
  List, [], ◌∷◌, ◌++◌, map, if◌then◌else◌, arith,
}
use sentinel_chain.Base.Result.{Result, ok, err}
use sentinel_chain.Simulator.Schema.{Table, any, has, all_resolve, is_referred, without, with_full}
use sentinel_chain.Simulator.Schema.Laws.{
  Command, upgrade_head, downgrade_base, Ddl, DdlLaws, Raises, replica_identity_full,
}

abbrev do_if : Bool → String → List Table → List Table → Result String (Unit {0}) × List Table
do_if b complaint after before = if b then (ok tt, after) else (err complaint, before)

-- Whether a statement is the one for the table.
abbrev alters_table : String → Table → Bool
alters_table sql t = str_eq (replica_identity_full t.name) sql

abbrev after_sql : String → Table → Table
after_sql sql t = if alters_table sql t then record t { full_identity = true } else t

-- The tables, and whether the script is applied.
abbrev pub Versioned : Type 0
Versioned = Bool × List Table

abbrev undo :
    Result String (Unit {0}) × Versioned → Versioned → Result String (Unit {0}) × Versioned
undo (ok u, after) before = (ok u, after)
undo (err e, after) before = (err e, before)

abbrev list_create : Table → List Table → Result String (Unit {0}) × List Table
list_create t db =
    if has t.name db
    then (err "already exists", db)
    else do_if (all_resolve db t.columns) "no such key" (db ++ t ∷ []) db

abbrev list_drop : String → List Table → Result String (Unit {0}) × List Table
list_drop n db =
    if has n db
    then do_if (not (is_referred n db)) "is referred to" (without n db) db
    else (err "does not exist", db)

abbrev list_execute : String → List Table → Result String (Unit {0}) × List Table
list_execute sql db = do_if (any (alters_table sql) db) "does not exist" (map (after_sql sql) db) db

abbrev on_list :
    (List Table → Result String (Unit {0}) × List Table)
    → Versioned
    → Result String (Unit {0}) × Versioned
on_list m s = ((m s.1).0, (s.0, (m s.1).1))

abbrev stamp : Bool → Result String (Unit {0}) × Versioned → Result String (Unit {0}) × Versioned
stamp b (ok u, s) = (ok u, (b, s.1))
stamp b (err e, s) = (err e, s)

abbrev run_script :
    Command
    → (Versioned → Result String (Unit {0}) × Versioned)
    → (Versioned → Result String (Unit {0}) × Versioned)
    → Versioned
    → Result String (Unit {0}) × Versioned
run_script upgrade_head up down s = if s.0 then (ok tt, s) else stamp true (up s)
run_script downgrade_base up down s = if s.0 then stamp false (down s) else (ok tt, s)

abbrev pub table_list : Ddl String
table_list = record {
  Db = Versioned;
  create_table = λ t. on_list (list_create t);
  drop_table = λ n. on_list (list_drop n);
  execute = λ sql. on_list (list_execute sql);
  transaction = λ m s. undo (m s) s;
  run = run_script;
}

-- The text of the statement tells the table.
replica_identity_full-inj :
    (a b : String) → replica_identity_full a ≡ replica_identity_full b → a ≡ b
replica_identity_full-inj a b e = append_cancel_right a b " REPLICA IDENTITY FULL" (
    append_cancel_left "ALTER TABLE " (text_append a " REPLICA IDENTITY FULL")
      (text_append b " REPLICA IDENTITY FULL") e)

same_test : (a b : String) → str_eq (replica_identity_full a) (replica_identity_full b) ≡ str_eq a b
same_test a b =
    both (replica_identity_full a) (replica_identity_full b) (λ e. replica_identity_full-inj a b e)
      (λ e. ap replica_identity_full e)
  where
    both : (p q : String) → (p ≡ q → a ≡ b) → (a ≡ b → p ≡ q) → str_eq p q ≡ str_eq a b
    both p q back forth = ground (arith, eq_iff p q, eq_iff a b)

pub alters-has :
    (n : String) (db : List Table) → any (alters_table (replica_identity_full n)) db ≡ has n db
alters-has n [] = refl
alters-has n (t ∷ db) = rw (same_test t.name n, alters-has n db)

pub after_sql-with_full :
    (n : String) (db : List Table) → map (after_sql (replica_identity_full n)) db ≡ with_full n db
after_sql-with_full n [] = refl
after_sql-with_full n (t ∷ db) = rw (same_test t.name n, after_sql-with_full n db)

ok≢err : {A : Type 0} {a : A} {e : String} → ok a ≢ err e
ok≢err h = cc

-- What a statement on the list does.
pub guarded_ok :
    (b : Bool) (x : String) (after before : List Table)
    → (do_if b x after before).0 ≡ ok tt
    → (do_if b x after before).1 ≡ after
guarded_ok true x after before h = refl
guarded_ok false x after before h = absurd (cc h)

pub committed :
    (r : Result String (Unit {0}) × Versioned) (before : Versioned)
    → r.0 ≡ ok tt
    → ((undo r before).0 ≡ ok tt) × (((undo r before).1.1 ≡ r.1.1) × ((undo r before).1.0 ≡ r.1.0))
committed (ok u, after) before h = (refl, (refl, refl))
committed (err e, after) before h = absurd (cc h)

pub undone :
    (r : Result String (Unit {0}) × Versioned) (before : Versioned)
    → Raises r
    → Raises (undo r before) × ((undo r before).1.1 ≡ before.1)
undone (ok u, after) before h = absurd (cc h.1)
undone (err e, after) before h = (h, refl)

pub list_created :
    (t : Table) (db : List Table)
    → (list_create t db).0 ≡ ok tt
    → (list_create t db).1 ≡ db ++ t ∷ []
list_created t db h = elim (Bool-cases (has t.name db)) [
  | inl old ↦ absurd (cc (rw old at h))
  | inr new ↦ rw new (guarded_ok (all_resolve db t.columns) _ _ _ (rw new at h))
]

pub list_dropped :
    (n : String) (db : List Table) → (list_drop n db).0 ≡ ok tt → (list_drop n db).1 ≡ without n db
list_dropped n db h = elim (Bool-cases (has n db)) [
  | inr gone ↦ absurd (cc (rw gone at h))
  | inl there ↦ rw there (guarded_ok (not (is_referred n db)) _ _ _ (rw there at h))
]

pub stamped :
    (b : Bool) (r : Result String (Unit {0}) × Versioned)
    → r.0 ≡ ok tt
    → ((stamp b r).0 ≡ ok tt) × (((stamp b r).1.1 ≡ r.1.1) × ((stamp b r).1.0 ≡ b))
stamped b (ok u, s) h = (refl, (refl, refl))
stamped b (err e, s) h = absurd (cc h)

pub unstamped :
    (b : Bool) (r : Result String (Unit {0}) × Versioned) → Raises r → Raises (stamp b r)
unstamped b (ok u, s) h = absurd (cc h.1)
unstamped b (err e, s) h = h

pub then_of :
    {A : Type 0} (P : A → Type 0) (b : Bool) (x y : A) → b ≡ true → P x → P (if b then x else y)
then_of P true x y h p = p
then_of P false x y h p = absurd (cc h)

pub else_of :
    {A : Type 0} (P : A → Type 0) (b : Bool) (x y : A) → b ≡ false → P y → P (if b then x else y)
else_of P true x y h p = absurd (cc h)
else_of P false x y h p = p

-- How the script's commands end.
abbrev pub Done : List Table → Bool → Result String (Unit {0}) × Versioned → Type 0
Done after applied r = (r.0 ≡ ok tt) × ((r.1.1 ≡ after) × (r.1.0 ≡ applied))

abbrev pub table_list_laws : DdlLaws table_list
table_list_laws = record {
  tables = λ s. s.1;
  is_applied = λ s. s.0;
  creates = λ t s new resolve. rw (new, resolve);
  created = λ t s h. list_created t s.1 h;
  duplicate = λ t s old. ("already exists", rw old);
  drops = λ n s there free. rw (there, free);
  dropped = λ n s h. list_dropped n s.1 h;
  alters = λ n s there. rw (alters-has n s.1, there);
  altered = λ n s h. guarded_ok _ _ _ _ h ∙ after_sql-with_full n s.1;
  commits = λ m s h. committed (m s) s h;
  rolls_back = λ m s h. undone (m s) s h;
  runs_up = λ up down s new h.
      else_of (Done (up s).1.1 true) s.0 (ok tt, s) (stamp true (up s)) new (stamped true (up s) h);
  stops_up = λ up down s new h.
      else_of Raises s.0 (ok tt, s) (stamp true (up s)) new (unstamped true (up s) h);
  skips_up = λ up down s old.
      then_of (λ r. (r.0 ≡ ok tt) × (r.1.1 ≡ s.1)) s.0 (ok tt, s) (stamp true (up s)) old
        (refl, refl);
  runs_down = λ up down s old h.
      then_of (Done (down s).1.1 false) s.0 (stamp false (down s)) (ok tt, s) old
        (stamped false (down s) h);
}
