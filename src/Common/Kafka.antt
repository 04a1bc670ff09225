-- ===== src/Common/Kafka.antt =====
-- `EnvelopeProducer` of libs/common/src/sentinelchain_common/kafka.py, over a Kafka client and a
-- serializer that the package does not implement.
pub mod Laws
pub mod Config
pub mod Reliable
pub mod Delivers
use sentinel_chain.Base.{ℕ, String, Bool, Option, none, some, List}
use sentinel_chain.Base.Result.{Result, ok, err}
use sentinel_chain.Base.Exec.{Exec}
use sentinel_chain.Base.Runtime.{Runtime}
use sentinel_chain.Common.Envelope.{EventEnvelope}

-- A message as the client is given it; its key is the text that the package encodes, and a text of
-- Unicode scalar values always encodes. The callback that the package passes adds an id to a set,
-- so it is that id.
pub record Message (Bytes : Type 0) : Type 0 where
  pub topic : String
  pub key : String
  pub value : Bytes
  pub trace_id : String
  pub event_type : String
  pub on_delivery : Option String

-- A call of a message's callback: whether it is given an error.
pub record Report (Bytes : Type 0) : Type 0 where
  pub message : Message Bytes
  pub failed : Bool

-- `confluent_kafka.Producer`: `produce` puts a message in the client's buffer, `flush` waits, calls
-- the callbacks of the messages that were acknowledged or given up, in order, and returns how many
-- are still in the buffer.
pub record Kafka (R : Runtime) (X : Type 0) : Type 1 where
  pub Client : Type 0
  pub Bytes : Type 0
  pub connect : Result X Client
  pub produce : Message Bytes → Exec X Client (Unit {0})
  pub flush : R.Float → Exec X Client (List (Report Bytes) × ℕ)

module _ {R : Runtime} {X : Type 0} (kafka : Kafka R X) where
  -- `_ensure`, over the attribute `_producer`
  unfoldable pub ensure : Exec X (Option kafka.Client) kafka.Client
  ensure (some client) = (ok client, some client)
  ensure none = elim kafka.connect [ ok client ↦ (ok client, some client) | err x ↦ (err x, none) ]

  -- The attribute `_producer`, and what the serializer works on.
  abbrev pub Wire : Type 0 → Type 0
  Wire Env = Option kafka.Client × Env

  module _ {Env : Type 0} where
    abbrev send : Message kafka.Bytes → kafka.Client → Env → Result X (Unit {0}) × Wire Env
    send message client env =
        let (r, client') = kafka.produce message client in (r, (some client', env))

    send_serialized :
        (kafka.Bytes → Message kafka.Bytes)
        → kafka.Client
        → Result X kafka.Bytes × Env
        → Result X (Unit {0}) × Wire Env
    send_serialized message client (ok bytes, env) = send (message bytes) client env
    send_serialized message client (err x, env) = (err x, (some client, env))

    produce_with :
        (kafka.Bytes → Message kafka.Bytes)
        → (Env → Result X kafka.Bytes × Env)
        → Result X kafka.Client × Option kafka.Client
        → Env
        → Result X (Unit {0}) × Wire Env
    unfolding send_serialized
    produce_with message value (ok client, client') env = send_serialized message client (value env)
    produce_with message value (err x, client') env = (err x, (client', env))

    unfoldable pub produce :
        (topic key : String) (envelope : EventEnvelope R)
        (serialize : EventEnvelope R → Exec X Env kafka.Bytes) (on_delivery : Option String)
        → Exec X (Wire Env) (Unit {0})
    unfolding ensure produce_with
    produce topic key envelope serialize on_delivery (client, env) =
        produce_with
          (λ bytes. record {
            topic = topic;
            key = key;
            value = bytes;
            trace_id = envelope.trace_id;
            event_type = envelope.event_type;
            on_delivery = on_delivery;
          })
          (serialize envelope) (ensure client) env

  flush_with :
      R.Float
      → Result X kafka.Client × Option kafka.Client
      → Result X (List (Report kafka.Bytes) × ℕ) × Option kafka.Client
  flush_with timeout (ok client, client') =
      let (r, client'') = kafka.flush timeout client in (r, some client'')
  flush_with timeout (err x, client') = (err x, client')

  unfoldable pub flush : R.Float → Exec X (Option kafka.Client) (List (Report kafka.Bytes) × ℕ)
  unfolding ensure flush_with
  flush timeout client = flush_with timeout (ensure client)
