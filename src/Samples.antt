-- ===== src/Samples.antt =====
-- A runtime, a Kafka client and a process with the store in memory that compute, for the runs in
-- the modules of tests.
pub mod Clients
pub mod Deliveries
pub mod Retries
pub mod Schemas
pub mod Stores
pub mod Warehouse
pub mod Envelopes
use Prim.Native.String.{◌++◌}
use sentinel_chain.Base.{
  ℕ, zero, suc, ◌+◌, ◌-◌, ◌*◌, ◌/◌, ◌%◌, ◌^◌, String, Bool, true, false, Option, none, some, List,
  [], if◌then◌else◌, ltb, ◌==◌, ◌&&◌,
}
use sentinel_chain.Base.Int.{ℤ, pos, negsuc, ◌+ℤ◌, ◌-ℤ◌, leb_ℤ, ltb_ℤ}
use sentinel_chain.Base.Result.{Result, ok, err}
use sentinel_chain.Base.Runtime.{Runtime, StdError, value_error, overflow_error}

-- `n` with the sign of a product or a quotient
abbrev signed : Bool → ℕ → ℤ
signed false n = pos n
signed true n = if n == 0 then pos 0 else negsuc (n - 1)

abbrev is_negative : ℤ → Bool
is_negative (pos n) = false
is_negative (negsuc n) = true

abbrev magnitude_of : ℤ → ℕ
magnitude_of (pos n) = n
magnitude_of (negsuc n) = n + 1

abbrev differ : Bool → Bool → Bool
differ true b = if b then false else true
differ false b = b

abbrev times : ℤ → ℤ → ℤ
times a b = signed (differ (is_negative a) (is_negative b)) (magnitude_of a * magnitude_of b)

-- the quotient towards zero; by 0 it is 0
abbrev quotient : ℤ → ℤ → ℤ
quotient a b =
    if magnitude_of b == 0
    then pos 0
    else signed (differ (is_negative a) (is_negative b)) (magnitude_of a / magnitude_of b)

abbrev digit : ℕ → String
digit n =
    if n == 0
    then "0"
    else if n == 1
    then "1"
    else if n == 2
    then "2"
    else if n == 3
    then "3"
    else if n == 4
    then "4"
    else if n == 5
    then "5"
    else if n == 6
    then "6"
    else if n == 7
    then "7"
    else if n == 8
    then "8"
    else "9"

abbrev digits : ℕ → ℕ → String
digits zero n = ""
digits (suc k) n =
    let rest = digits k (n / 10) in if ltb n 10 then digit n else rest ++ digit (n % 10)

abbrev pub show_int : ℤ → String
show_int (pos n) = digits 24 n
show_int (negsuc n) = "-" ++ digits 24 (n + 1)

abbrev million : ℤ
million = pos 1000000

-- Floats are whole millionths, and dates are whole microseconds from 1970 to 9999, with whether
-- they have a time zone.
abbrev pub micro : Runtime
micro = record {
  Float = ℤ;
  lit = λ m k. quotient (times m million) (pos (10 ^ k));
  of_int = λ n. ok (times n million);
  leb_f = leb_ℤ;
  ltb_f = ltb_ℤ;
  add_f = λ a b. a +ℤ b;
  sub_f = λ a b. a -ℤ b;
  mul_f = λ a b. quotient (times a b) million;
  div_f = λ a b. quotient (times a million) b;
  trunc = λ a. quotient a million;
  show_float = show_int;
  Datetime = ℤ × Bool;
  aware = λ d. d.1;
  as_utc = λ d. d;
  from_timestamp = λ x.
      if leb_ℤ (pos 0) x && ltb_ℤ x (pos 253402300800000000) then ok (x, true) else err value_error;
  timestamp = λ d. d.0;
  isoformat = λ d. show_int d.0;
  later = λ a b. ltb_ℤ b.0 a.0;
  plus_seconds = λ d x. (d.0 +ℤ x, d.1);
  replace = λ s old new. s;
}
