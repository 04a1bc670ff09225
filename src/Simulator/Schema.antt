-- ===== src/Simulator/Schema.antt =====
-- Table definitions as SQLAlchemy describes them, for the migration and for the mapped classes of
-- services/supply-chain-simulator.
pub mod Metadata
pub mod Laws
use sentinel_chain.Base.{
  ℕ, String, str_eq, Bool, true, false, not, ◌&&◌, ◌||◌, Option, none, some, List, [], ◌∷◌, map,
  if◌then◌else◌,
}

-- The column types that the service uses.
pub data Kind : Type 0 where
  uuid text integer double date : Kind
  char : ℕ → Kind
  numeric : ℕ → ℕ → Kind
  -- `DateTime(timezone=True)`
  timestamp_tz : Kind

-- `ForeignKey("table.column")`
pub record ForeignKey : Type 0 where
  pub table : String
  pub column : String

pub record Column : Type 0 where
  pub name : String
  pub kind : Kind
  pub primary_key : Bool
  pub nullable : Bool
  pub foreign_key : Option ForeignKey

pub record Table : Type 0 where
  pub name : String
  pub columns : List Column
  -- REPLICA IDENTITY FULL
  pub full_identity : Bool

-- `Column(name, kind, primary_key=True)`: a column of the primary key is never null.
abbrev pub primary : String → Kind → Column
primary name kind = record {
  name = name;
  kind = kind;
  primary_key = true;
  nullable = false;
  foreign_key = none;
}

-- `Column(name, kind, nullable=False)`
abbrev pub required : String → Kind → Column
required name kind = record {
  name = name;
  kind = kind;
  primary_key = false;
  nullable = false;
  foreign_key = none;
}

-- `Column(name, kind)`
abbrev pub with_null : String → Kind → Column
with_null name kind = record {
  name = name;
  kind = kind;
  primary_key = false;
  nullable = true;
  foreign_key = none;
}

-- The same column with a `ForeignKey`.
abbrev pub refers_to : String → String → Column → Column
refers_to table column c = record c {
  foreign_key = some (record { table = table; column = column });
}

-- A new table has the default replica identity.
abbrev pub table_of : String → List Column → Table
table_of name columns = record { name = name; columns = columns; full_identity = false }

abbrev pub any {ℓ} : {A : Type ℓ} → (A → Bool) → List A → Bool
any test [] = false
any test (x ∷ xs) = test x || any test xs

-- Whether the primary key of a table is that column alone.
abbrev pub key_is : String → List Column → Bool
key_is column [] = false
key_is column (c ∷ cs) =
    if c.primary_key
    then str_eq c.name column && not (any (λ (d : Column). d.primary_key) cs)
    else key_is column cs

-- Whether a schema has a table of that name.
abbrev pub has : String → List Table → Bool
has name schema = any (λ (t : Table). str_eq t.name name) schema

-- Whether a foreign key speaks of the primary key of a table in the schema.
abbrev pub resolves : List Table → ForeignKey → Bool
resolves schema f = any (λ (t : Table). str_eq t.name f.table && key_is f.column t.columns) schema

abbrev pub all_resolve : List Table → List Column → Bool
all_resolve schema [] = true
all_resolve schema (c ∷ cs) =
    elim c.foreign_key [ none ↦ true | some f ↦ resolves schema f ] && all_resolve schema cs

-- Whether a column, or a table, refers to a table of that name.
abbrev pub column_refers : String → Column → Bool
column_refers name c = elim c.foreign_key [ none ↦ false | some f ↦ str_eq f.table name ]

abbrev pub refers : String → Table → Bool
refers name t = any (column_refers name) t.columns

-- Whether a table of the schema other than that one refers to it.
abbrev pub is_referred : String → List Table → Bool
is_referred name schema = any (λ (t : Table). not (str_eq t.name name) && refers name t) schema

-- A table is dropped, and is given its replica identity.
abbrev pub without : String → List Table → List Table
without name [] = []
without name (t ∷ ts) = if str_eq t.name name then without name ts else t ∷ without name ts

abbrev pub set_full : String → Table → Table
set_full name t = if str_eq t.name name then record t { full_identity = true } else t

abbrev pub with_full : String → List Table → List Table
with_full name schema = map (set_full name) schema
