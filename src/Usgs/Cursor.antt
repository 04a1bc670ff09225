-- ===== src/Usgs/Cursor.antt =====
-- services/ingestion-usgs/src/ingestion_usgs/cursor.py: the protocol `CursorStore`, and its two
-- classes.
use sentinel_chain.Base.{String, Bool, true, false, Option, none, some, List, [], ◌∷◌}
use sentinel_chain.Base.Int.{ℤ}
use sentinel_chain.Base.Text.{concat}
use sentinel_chain.Base.Result.{Result, ok, err}
use sentinel_chain.Base.Exec.{Exec, pure, gets, lift, modify, ◌>>=◌, ◌>>◌}
use sentinel_chain.Base.Dict.{Dict, lookup, insert}
pub mod Laws
pub mod Calls
pub mod Refines
mod Tests

-- The operations of `CursorStore`, over the state of the store; all but `ping` may raise.
pub record CursorStore (X : Type 0) : Type 1 where
  pub State : Type 0
  pub seen_marker : String → Exec X State (Option String)
  -- `record`
  pub record_marker : String → String → Exec X State (Unit {0})
  pub get_cursor_ms : Exec X State (Option ℤ)
  pub set_cursor_ms : ℤ → Exec X State (Unit {0})
  pub ping : State → Bool × State
  pub aclose : Exec X State (Unit {0})

unfoldable pub marker_for : String → String → String
marker_for source_version payload_hash = concat (source_version ∷ ":" ∷ payload_hash ∷ [])

pub record InMemory : Type 0 where
  pub markers : Dict String
  pub cursor_ms : Option ℤ

-- `InMemoryCursorStore`
abbrev pub in_memory : (X : Type 0) → CursorStore X
in_memory X = record {
  State = InMemory;
  seen_marker = λ id. gets (λ s. lookup id s.markers);
  record_marker = λ id marker. modify (λ s. record s { markers = insert id marker s.markers });
  get_cursor_ms = gets (λ s. s.cursor_ms);
  set_cursor_ms = λ value. modify (λ s. record s { cursor_ms = some value });
  ping = λ s. (true, s);
  aclose = pure tt;
}

-- A Redis client: `get`, and `set` with the seconds after which the key expires, if any. `int_of`
-- is `int(text)`, and `show_int` the text that the client stores for an int.
pub record Redis (X : Type 0) : Type 1 where
  pub Db : Type 0
  pub get : String → Exec X Db (Option String)
  pub set : String → String → Option ℤ → Exec X Db (Unit {0})
  pub ping : Exec X Db Bool
  pub aclose : Exec X Db (Unit {0})
  pub int_of : String → Result X ℤ
  pub show_int : ℤ → String

abbrev pub event_prefix : String
event_prefix = "usgs:event:"

abbrev pub cursor_key : String
cursor_key = "usgs:cursor:last_updated_ms"

-- `RedisCursorStore`, with its `ttl_seconds`
module _ {X : Type 0} (redis : Redis X) (ttl : ℤ) where
  abbrev pub as_int : Option String → Exec X redis.Db (Option ℤ)
  as_int none = pure none
  as_int (some value) = lift (redis.int_of value) >>= λ n. pure (some n)

  -- an exception of the client counts as no answer
  abbrev pub answered : Result X Bool → Bool
  answered (ok b) = b
  answered (err x) = false

  abbrev pub redis_store : CursorStore X
  redis_store = record {
    State = redis.Db;
    seen_marker = λ id. redis.get (concat (event_prefix ∷ id ∷ []));
    record_marker = λ id marker. redis.set (concat (event_prefix ∷ id ∷ [])) marker (some ttl);
    get_cursor_ms = redis.get cursor_key >>= as_int;
    set_cursor_ms = λ value. redis.set cursor_key (redis.show_int value) none;
    ping = λ db. let (r, db') = redis.ping db in (answered r, db');
    aclose = redis.aclose;
  }
