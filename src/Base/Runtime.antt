-- ===== src/Base/Runtime.antt =====
-- The float and date arithmetic of the Python runtime, over which the services are modelled.
use Prim.Native.Nat.{ℕ}
use Prim.Native.String.{String}
use mathlib.Core.Bool.{Bool}
use sentinel_chain.Base.Int.{ℤ}
use sentinel_chain.Base.Result.{Result}

-- The exceptions of the runtime's own conversions.
pub data StdError : Type 0 where
  value_error overflow_error os_error : StdError

-- `float`, and `datetime` with a time zone. No law is assumed here: a theorem that needs one has
-- it as a hypothesis.
pub record Runtime : Type 1 where
  pub Float : Type 0
  -- the literal m / 10^k
  pub lit : ℤ → ℕ → Float
  -- `float(n)` of an int, which overflows beyond the largest float
  pub of_int : ℤ → Result StdError Float
  -- `a <= b` and `a < b`, both false if either is not a number
  pub leb_f : Float → Float → Bool
  pub ltb_f : Float → Float → Bool
  pub add_f : Float → Float → Float
  pub sub_f : Float → Float → Float
  pub mul_f : Float → Float → Float
  pub div_f : Float → Float → Float
  -- `int(x)` of a finite float
  pub trunc : Float → ℤ
  -- `repr(x)`
  pub show_float : Float → String
  pub Datetime : Type 0
  -- whether it has a time zone
  pub aware : Datetime → Bool
  -- `d.astimezone(UTC)` of one that has
  pub as_utc : Datetime → Datetime
  -- `datetime.fromtimestamp(x, tz=UTC)`
  pub from_timestamp : Float → Result StdError Datetime
  -- `d.timestamp()`
  pub timestamp : Datetime → Float
  -- `d.isoformat()`
  pub isoformat : Datetime → String
  -- `a > b`, where both have a time zone
  pub later : Datetime → Datetime → Bool
  -- `d + timedelta(seconds=x)`
  pub plus_seconds : Datetime → Float → Datetime
  -- `s.replace(old, new)`
  pub replace : String → String → String → String
