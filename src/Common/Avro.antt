-- ===== src/Common/Avro.antt =====
-- The two mappings of libs/common/src/sentinelchain_common/avro.py.
pub mod RoundTrip
pub mod Codec
use sentinel_chain.Base.{String, Option, none, some, [], ◌∷◌}
use sentinel_chain.Base.Int.{ℤ}
use sentinel_chain.Base.Result.{Result, ok, err, ◌>>=◌}
use sentinel_chain.Base.Runtime.{Runtime, StdError}
use sentinel_chain.Base.Dict.{Dict, lookup}
use sentinel_chain.Base.Json.{Fields}
use sentinel_chain.Common.Time.{to_utc}
use sentinel_chain.Common.Envelope.{EventEnvelope}

-- A value of an Avro record.
pub data Value (R : Runtime) : Type 0 where
  nothing : Value R
  text : String → Value R
  number : ℤ → Value R
  time : R.Datetime → Value R
  fields : Fields R.Float → Value R

-- What rebuilding an envelope raises: a `KeyError`, or an error of the validation.
pub data AvroError : Type 0 where
  missing_key : String → AvroError
  invalid : AvroError

-- Pydantic's validation of a value for a field of each type, with the conversions that it makes;
-- `as_fields` is `dict(value)` and its validation.
pub record Validation (R : Runtime) : Type 0 where
  pub as_text : Value R → Result AvroError String
  pub as_optional_text : Value R → Result AvroError (Option String)
  pub as_number : Value R → Result AvroError ℤ
  pub as_time : Value R → Result AvroError R.Datetime
  pub as_fields : Value R → Result AvroError (Fields R.Float)

abbrev pub optional : {R : Runtime} → Option String → Value R
optional none = nothing
optional (some s) = text s

module _ (R : Runtime) where
  unfoldable pub envelope_to_avro : EventEnvelope R → Result StdError (Dict (Value R))
  envelope_to_avro envelope = do
    event_time ← to_utc R envelope.event_time
    ingested_at ← to_utc R envelope.ingested_at
    ok (
        ("event_id", text envelope.event_id)
        ∷ ("event_type", text envelope.event_type)
        ∷ ("event_version", number envelope.event_version)
        ∷ ("source", text envelope.source)
        ∷ ("source_event_id", text envelope.source_event_id)
        ∷ ("source_version", optional envelope.source_version)
        ∷ ("event_time", time event_time)
        ∷ ("ingested_at", time ingested_at)
        ∷ ("trace_id", text envelope.trace_id)
        ∷ ("correlation_id", optional envelope.correlation_id)
        ∷ ("tenant_id", text envelope.tenant_id)
        ∷ ("payload", fields envelope.payload)
        ∷ [])

  -- `record[key]`
  item_of : String → Option (Value R) → Result AvroError (Value R)
  item_of key none = err (missing_key key)
  item_of key (some v) = ok v

  unfoldable pub item : String → Dict (Value R) → Result AvroError (Value R)
  unfolding item_of
  item key d = item_of key (lookup key d)

  -- `record.get(key)`
  or_nothing : Option (Value R) → Value R
  or_nothing none = nothing
  or_nothing (some v) = v

  unfoldable pub get_item : String → Dict (Value R) → Value R
  unfolding or_nothing
  get_item key d = or_nothing (lookup key d)

  -- The items are read first, in the order of the arguments, then validated in that of the fields.
  unfoldable pub envelope_from_avro :
      Validation R → Dict (Value R) → Result AvroError (EventEnvelope R)
  envelope_from_avro valid d = do
    event_id ← item "event_id" d
    event_type ← item "event_type" d
    event_version ← item "event_version" d
    source ← item "source" d
    source_event_id ← item "source_event_id" d
    event_time ← item "event_time" d
    ingested_at ← item "ingested_at" d
    trace_id ← item "trace_id" d
    tenant_id ← item "tenant_id" d
    payload ← item "payload" d
    event_id' ← valid.as_text event_id
    event_type' ← valid.as_text event_type
    event_version' ← valid.as_number event_version
    source' ← valid.as_text source
    source_event_id' ← valid.as_text source_event_id
    source_version' ← valid.as_optional_text (get_item "source_version" d)
    event_time' ← valid.as_time event_time
    ingested_at' ← valid.as_time ingested_at
    trace_id' ← valid.as_text trace_id
    correlation_id' ← valid.as_optional_text (get_item "correlation_id" d)
    tenant_id' ← valid.as_text tenant_id
    payload' ← valid.as_fields payload
    ok (record {
      event_id = event_id';
      event_type = event_type';
      event_version = event_version';
      source = source';
      source_event_id = source_event_id';
      source_version = source_version';
      event_time = event_time';
      ingested_at = ingested_at';
      trace_id = trace_id';
      correlation_id = correlation_id';
      tenant_id = tenant_id';
      payload = payload';
    })
