-- ===== src/Usgs/Producer.antt =====
-- `RawEventProducer` of services/ingestion-usgs/src/ingestion_usgs/producer.py.
pub mod Delivered
pub mod Confirmed
use sentinel_chain.Base.{
  ℕ, String, str_eq, Bool, true, false, ◌||◌, Option, none, some, List, [], ◌∷◌, ◌++◌,
  if◌then◌else◌,
}
use sentinel_chain.Base.Int.{pos}
use sentinel_chain.Base.Result.{Result, ok, err}
use sentinel_chain.Base.Exec.{Exec, pure, gets, lift, modify, ◌>>=◌, ◌>>◌}
use sentinel_chain.Base.Runtime.{Runtime}
use sentinel_chain.Base.Json.{Json, null, str, arr, Items, nil, cons, Fields, end, field}
use sentinel_chain.Common.Envelope.{EventEnvelope, new_envelope}
use sentinel_chain.Common.Kafka.{Report, produce, flush}
use sentinel_chain.Usgs.Parser.{UsgsEvent}
use sentinel_chain.Usgs.Event.{text_json, source_version, payload}
use sentinel_chain.Usgs.System.{System, PollState, Poll, from_std, on_env, on_client, on_wire}

-- `x in set`
abbrev pub contains : String → List String → Bool
contains x [] = false
contains x (y ∷ ys) = str_eq y x || contains x ys

-- `set.add(x)`
abbrev pub add : String → List String → List String
add x set = if contains x set then set else x ∷ set

-- The callback of `_on_delivery`, at a report: a message without one changes nothing.
abbrev pub on_delivery : {B : Type 0} → Report B → List String → List String
on_delivery report set =
    if report.failed
    then set
    else elim report.message.on_delivery [ none ↦ set | some id ↦ add id set ]

abbrev pub on_deliveries : {B : Type 0} → List (Report B) → List String → List String
on_deliveries [] set = set
on_deliveries (report ∷ reports) set = on_deliveries reports (on_delivery report set)

-- `id or "unknown"`
abbrev pub or_unknown : Option String → String
or_unknown none = "unknown"
or_unknown (some id) = if str_eq id "" then "unknown" else id

abbrev pub text_items : {F : Type 0} → List String → Items F
text_items [] = nil
text_items (s ∷ ss) = cons (str s) (text_items ss)

module _ {R : Runtime} {X : Type 0} (sys : System R X) where
  -- A new envelope, with ids and the time of the environment.
  abbrev pub fill : (String → R.Datetime → String → EventEnvelope R) → Poll sys (EventEnvelope R)
  fill make = do
    event_id ← on_env sys sys.new_uuid
    ingested_at ← on_env sys sys.utcnow
    trace_id ← on_env sys sys.new_uuid
    pure (make event_id ingested_at trace_id)

  unfoldable pub produce_event : UsgsEvent R → Poll sys (Unit {0})
  produce_event event = do
    version ← lift (from_std (source_version R event))
    body ← lift (from_std (payload R event))
    envelope ← fill λ event_id now trace_id.
        new_envelope R event_id trace_id now "usgs.earthquake.raw" "usgs" event.source_event_id
          (some version) event.event_time body
    on_wire sys (
        produce sys.kafka sys.raw_topic event.source_event_id envelope (sys.serialize sys.raw_topic)
          (some event.source_event_id))

  abbrev pub dq_payload : Option String → List String → Option (Fields R.Float) → Fields R.Float
  dq_payload id reasons raw = field "origin_source" (str "usgs") (
      field "source_event_id" (text_json id) (
        field "reasons" (arr (text_items reasons))
          (field "raw" (elim raw [ none ↦ null | some fs ↦ str (sys.dumps_raw fs) ]) end)))

  unfoldable pub produce_data_quality :
      Option String → List String → Option (Fields R.Float) → Poll sys (Unit {0})
  produce_data_quality id reasons raw = do
    event_time ← on_env sys sys.utcnow
    envelope ← fill λ event_id now trace_id.
        new_envelope R event_id trace_id now "data_quality.violation" "ingestion-usgs"
          (or_unknown id) none event_time (dq_payload id reasons raw)
    on_wire sys
        (produce sys.kafka sys.dq_topic (or_unknown id) envelope (sys.serialize sys.dq_topic) none)

  -- with the default timeout; the callbacks run during the flush
  unfoldable pub flush_and_confirm : Poll sys (List String × ℕ)
  flush_and_confirm = do
    outcome ← on_client sys (flush sys.kafka (R.lit (pos 10) 0))
    modify (λ s. record s { delivered = on_deliveries outcome.0 s.delivered })
    delivered ← gets (λ s. s.delivered)
    modify (λ s. record s { delivered = [] })
    pure (delivered, outcome.1)
