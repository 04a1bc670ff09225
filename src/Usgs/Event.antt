-- ===== src/Usgs/Event.antt =====
-- The methods of `UsgsEvent` in services/ingestion-usgs/src/ingestion_usgs/parser.py.
pub mod Feature
use sentinel_chain.Base.{String, Option, none, some}
use sentinel_chain.Base.Result.{Result, ok, err, ◌>>=◌}
use sentinel_chain.Base.Runtime.{Runtime, StdError}
use sentinel_chain.Base.Json.{Json, null, float, str, Fields, end, field}
use sentinel_chain.Common.Time.{isoformat_utc}
use sentinel_chain.Usgs.Parser.{UsgsEvent}

abbrev pub text_json : {F : Type 0} → Option String → Json F
text_json none = null
text_json (some s) = str s

abbrev pub float_json : {F : Type 0} → Option F → Json F
float_json none = null
float_json (some x) = float x

module _ (R : Runtime) where
  unfoldable pub source_version : UsgsEvent R → Result StdError String
  unfolding isoformat_utc
  source_version e = isoformat_utc R e.updated_time

  unfoldable pub payload : UsgsEvent R → Result StdError (Fields R.Float)
  unfolding isoformat_utc
  payload e = do
    event_time ← isoformat_utc R e.event_time
    updated_time ← isoformat_utc R e.updated_time
    ok (
        field "source_event_id" (str e.source_event_id) (
          field "magnitude" (float_json e.magnitude) (
            field "latitude" (float e.latitude) (
              field "longitude" (float e.longitude) (
                field "depth_km" (float_json e.depth_km) (
                  field "place" (text_json e.place) (
                    field "event_time" (str event_time) (
                      field "updated_time" (str updated_time)
                        (field "source_url" (text_json e.source_url) end)))))))))

  -- `dumps` is `json.dumps(…, sort_keys=True, separators=(",", ":"))`, and `sha256` the
  -- hexadecimal digest of a text's UTF-8 bytes.
  module _ (dumps : Fields R.Float → String) (sha256 : String → String) where
    unfoldable pub payload_hash : UsgsEvent R → Result StdError String
    unfolding payload
    payload_hash e = do p ← payload e; ok (sha256 (dumps p))
