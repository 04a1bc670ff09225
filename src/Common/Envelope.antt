-- ===== src/Common/Envelope.antt =====
-- libs/common/src/sentinelchain_common/envelope.py
use Prim.Native.String.{◌++◌}
use sentinel_chain.Base.{String, Option, none}
use sentinel_chain.Base.Int.{ℤ, pos}
use sentinel_chain.Base.Runtime.{Runtime}
use sentinel_chain.Base.Json.{Fields}

pub record EventEnvelope (R : Runtime) : Type 0 where
  pub event_id : String
  pub event_type : String
  pub event_version : ℤ
  pub source : String
  pub source_event_id : String
  pub source_version : Option String
  pub event_time : R.Datetime
  pub ingested_at : R.Datetime
  pub trace_id : String
  pub correlation_id : Option String
  pub tenant_id : String
  pub payload : Fields R.Float

-- The envelope that the constructor makes with its defaults, from two new ids and the time now.
abbrev pub new_envelope :
    (R : Runtime) (event_id trace_id : String) (now : R.Datetime) (event_type source id : String)
    → Option String
    → R.Datetime
    → Fields R.Float
    → EventEnvelope R
new_envelope R event_id trace_id now event_type source id version time payload = record {
  event_id = event_id;
  event_type = event_type;
  event_version = pos 1;
  source = source;
  source_event_id = id;
  source_version = version;
  event_time = time;
  ingested_at = now;
  trace_id = trace_id;
  correlation_id = none;
  tenant_id = "demo";
  payload = payload;
}

unfoldable pub dedup_key : {R : Runtime} → EventEnvelope R → String
dedup_key e = e.source ++ ":" ++ e.source_event_id

-- the digest of the payload's JSON text, with sorted keys and short separators
unfoldable pub envelope_hash :
    {R : Runtime} → (Fields R.Float → String) → (String → String) → EventEnvelope R → String
envelope_hash dumps sha256 e = sha256 (dumps e.payload)
