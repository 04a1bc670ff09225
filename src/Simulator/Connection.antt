-- ===== src/Simulator/Connection.antt =====
-- services/supply-chain-simulator/src/supply_chain_simulator/db.py
pub mod Dsn
mod Tests
use Prim.Native.String.{len, slice, ◌++◌}
use text.Mathlib.Text.{starts_with}
use sentinel_chain.Base.{ℕ, String, Bool, true, false, if◌then◌else◌}
use sentinel_chain.Base.Int.{ℤ, pos}
use sentinel_chain.Base.Result.{Result, ok, err}
use sentinel_chain.Base.Exec.{Exec, ◌>>=◌, ◌>>◌}

-- `s[n:]`; the texts that are cut off here are ASCII, so that bytes are letters.
abbrev pub from : ℕ → String → String
from n s = slice s n (len s)

unfoldable pub to_sqlalchemy_url : String → String
to_sqlalchemy_url dsn =
    if starts_with dsn "postgresql+"
    then dsn
    else (if starts_with dsn "postgresql://"
        then "postgresql+psycopg://" ++ from (len "postgresql://") dsn
        else (if starts_with dsn "postgres://"
            then "postgresql+psycopg://" ++ from (len "postgres://") dsn
            else dsn))

-- `create_engine`, with its keyword arguments
pub record EngineOptions : Type 0 where
  pub echo : Bool
  pub pool_pre_ping : Bool
  pub pool_size : ℤ
  pub max_overflow : ℤ
  pub future : Bool

-- SQLAlchemy's engine, as far as the service uses it: making one, and a connection in which a
-- statement is executed.
pub record Sqlalchemy (X : Type 0) : Type 1 where
  pub Engine : Type 0
  pub Connection : Type 0
  pub create_engine : String → EngineOptions → Result X Engine
  pub connect : Exec X Engine Connection
  pub execute : Connection → String → Exec X Engine (Unit {0})
  pub close : Connection → Exec X Engine (Unit {0})

module _ {X : Type 0} (sqlalchemy : Sqlalchemy X) where
  unfoldable pub make_engine : String → Result X sqlalchemy.Engine
  make_engine dsn = sqlalchemy.create_engine (to_sqlalchemy_url dsn) (record {
    echo = false;
    pool_pre_ping = true;
    pool_size = pos 5;
    max_overflow = pos 5;
    future = true;
  })

  -- the `with` statement: the connection is closed, whether the statement returned or raised
  abbrev pub closing :
      sqlalchemy.Connection
      → Result X (Unit {0}) × sqlalchemy.Engine
      → Result X (Unit {0}) × sqlalchemy.Engine
  closing conn (ok u, e) = sqlalchemy.close conn e
  closing conn (err x, e) = (sqlalchemy.close conn >> λ e'. (err x, e')) e

  abbrev pub select_one : Exec X sqlalchemy.Engine (Unit {0})
  select_one = sqlalchemy.connect >>= λ conn e. closing conn (sqlalchemy.execute conn "SELECT 1" e)

  abbrev pub succeeded : Result X (Unit {0}) → Bool
  succeeded (ok u) = true
  succeeded (err x) = false

  unfoldable pub ping : sqlalchemy.Engine → Bool × sqlalchemy.Engine
  ping e = let (r, e') = select_one e in (succeeded r, e')
