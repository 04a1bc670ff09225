-- ===== src/Usgs/System.antt =====
-- The state of the ingestion process, and what it uses of other software: the settings, the clock,
-- the Kafka client, the serializers, the cursor store, the feed client, hashes and texts.
use sentinel_chain.Base.{ℕ, Bool, String, Option, List}
use sentinel_chain.Base.Result.{Result, ok, err}
use sentinel_chain.Base.Exec.{Exec}
use sentinel_chain.Base.Runtime.{Runtime, StdError}
use sentinel_chain.Base.Json.{Fields}
use sentinel_chain.Common.Envelope.{EventEnvelope}
use sentinel_chain.Common.Kafka.{Kafka}
use sentinel_chain.Usgs.Parser.{
  FeatureParseError, ParseMessage, ParseRaise, parse_error, std as std_raise,
}
use sentinel_chain.Usgs.Cursor.{CursorStore}

-- An exception that reaches the poll cycle: of a client, of the runtime, or of the parser.
pub data Raised (R : Runtime) (X : Type 0) : Type 0 where
  external : X → Raised R X
  std : StdError → Raised R X
  feature : FeatureParseError R.Float → Raised R X

pub record System (R : Runtime) (X : Type 0) : Type 1 where
  -- the settings
  pub raw_topic : String
  pub dq_topic : String
  pub future_tolerance : R.Float
  -- the clock, the ids and the feed
  pub Env : Type 0
  pub utcnow : Env → R.Datetime × Env
  pub new_uuid : Env → String × Env
  pub fetch_feed : Exec X Env (Fields R.Float)
  -- whether an exception is an `Exception`, as against a mere `BaseException` such as cancellation
  pub is_exception : X → Bool
  -- `aclose` of the feed client
  pub close_client : Exec X Env (Unit {0})
  pub kafka : Kafka R X
  -- `AvroEnvelopeSerializer` of a topic
  pub serialize : String → EventEnvelope R → Exec X Env kafka.Bytes
  pub store : CursorStore X
  -- `json.dumps` of a payload to hash and of one to keep, and the digest
  pub dumps : Fields R.Float → String
  pub dumps_raw : Fields R.Float → String
  pub sha256 : String → String
  -- the text of a `FeatureParseError`
  pub show_message : ParseMessage R.Float → String

-- metrics.py, the counters and the gauge for the source "usgs"
pub record Metrics (R : Runtime) : Type 0 where
  pub poll_total : ℕ
  pub poll_failure_total : ℕ
  pub records_fetched_total : ℕ
  pub records_produced_total : ℕ
  pub records_duplicate_total : ℕ
  pub records_invalid_total : ℕ
  pub cursor_lag : Option R.Float

pub record PollState {R : Runtime} {X : Type 0} (sys : System R X) : Type 0 where
  pub env : sys.Env
  -- `_producer` of the envelope producer, and `_delivered` of the raw event producer
  pub client : Option sys.kafka.Client
  pub delivered : List String
  pub store : sys.store.State
  pub metrics : Metrics R

module _ {R : Runtime} {X : Type 0} where
  abbrev pub from_outside : {A : Type 0} → Result X A → Result (Raised R X) A
  from_outside (ok a) = ok a
  from_outside (err x) = err (external x)

  abbrev pub from_std : {A : Type 0} → Result StdError A → Result (Raised R X) A
  from_std (ok a) = ok a
  from_std (err e) = err (std e)

  abbrev pub from_parse : {A : Type 0} → Result (ParseRaise R.Float) A → Result (Raised R X) A
  from_parse (ok a) = ok a
  from_parse (err (parse_error e)) = err (feature e)
  from_parse (err (std_raise e)) = err (std e)

  module _ (sys : System R X) where
    abbrev pub Poll : Type 0 → Type 0
    Poll A = Exec (Raised R X) (PollState sys) A

    abbrev pub on_env : {A : Type 0} → (sys.Env → A × sys.Env) → Poll A
    on_env m s = let (a, env) = m s.env in (ok a, record s { env = env })

    abbrev pub on_store : {A : Type 0} → Exec X sys.store.State A → Poll A
    on_store m s = let (r, store) = m s.store in (from_outside r, record s { store = store })

    abbrev pub on_client : {A : Type 0} → Exec X (Option sys.kafka.Client) A → Poll A
    on_client m s = let (r, client) = m s.client in (from_outside r, record s { client = client })

    abbrev pub on_wire : {A : Type 0} → Exec X (Option sys.kafka.Client × sys.Env) A → Poll A
    on_wire m s =
        let (r, wire) = m (s.client, s.env) in
        (from_outside r, record s { client = wire.0; env = wire.1 })
