-- ===== src/Common/Kafka/Reliable.antt =====
-- A producer over a client and a serializer that do not raise.
use sentinel_chain.Base.{String, Option, none, some}
use sentinel_chain.Base.Result.{Result, ok, err}
use sentinel_chain.Base.Exec.{Exec}
use sentinel_chain.Base.Runtime.{Runtime}
use sentinel_chain.Common.Envelope.{EventEnvelope}
use sentinel_chain.Common.Kafka.{
  Message, Kafka, ensure, produce_with, send_serialized, flush_with, flush, produce,
}

-- A call that returned.
abbrev pub IsOk : {E A : Type 0} → Result E A → Type 0
IsOk (ok a) = Unit
IsOk (err e) = ⊥

pub record KafkaReliable {R : Runtime} {X : Type 0} (kafka : Kafka R X) : Type 0 where
  pub connects : IsOk kafka.connect
  pub produces : (m : Message kafka.Bytes) (k : kafka.Client) → IsOk (kafka.produce m k).0
  pub flushes : (t : R.Float) (k : kafka.Client) → IsOk (kafka.flush t k).0

module _ {R : Runtime} {X : Type 0} {kafka : Kafka R X} (reliable : KafkaReliable kafka) where
  ensure-IsOk : (c : Option kafka.Client) → IsOk (ensure kafka c).0
  unfolding ensure
  ensure-IsOk (some k) = tt
  ensure-IsOk none = go kafka.connect reliable.connects
    where
      go :
          (r : Result X kafka.Client)
          → IsOk r
          → IsOk
              (elim r as (λ x. Result X kafka.Client × Option kafka.Client) [
                | ok client ↦ (ok client, some client)
                | err x ↦ (err x, none)
              ]).0
      go (ok k) h = tt
      go (err x) h = h

  pub produce-IsOk :
      {Env : Type 0} (topic key : String) (envelope : EventEnvelope R)
      (serialize : EventEnvelope R → Exec X Env kafka.Bytes) (o : Option String)
      (c : Option kafka.Client) (env : Env)
      → ((e : EventEnvelope R) (v : Env) → IsOk (serialize e v).0)
      → IsOk (produce kafka topic key envelope serialize o (c, env)).0
  unfolding produce produce_with send_serialized
  produce-IsOk {Env} topic key envelope serialize o c env serializes =
      connected (ensure kafka c) (ensure-IsOk c)
    where
      sent :
          (message : kafka.Bytes → Message kafka.Bytes) (k : kafka.Client)
          (r : Result X kafka.Bytes × Env)
          → IsOk r.0
          → IsOk (send_serialized kafka message k r).0
      sent message k (ok bytes, v) h = reliable.produces (message bytes) k
      sent message k (err x, v) h = h

      connected :
          (r : Result X kafka.Client × Option kafka.Client)
          → IsOk r.0
          → IsOk
              (produce_with kafka
                (λ bytes. record {
                  topic = topic;
                  key = key;
                  value = bytes;
                  trace_id = envelope.trace_id;
                  event_type = envelope.event_type;
                  on_delivery = o;
                })
                (serialize envelope)
                r
                env).0
      connected (ok k, c') h = sent _ k (serialize envelope env) (serializes envelope env)
      connected (err x, c') h = h

  pub flush-IsOk : (t : R.Float) (c : Option kafka.Client) → IsOk (flush kafka t c).0
  unfolding flush flush_with
  flush-IsOk t c = go (ensure kafka c) (ensure-IsOk c)
    where
      go :
          (r : Result X kafka.Client × Option kafka.Client)
          → IsOk r.0
          → IsOk (flush_with kafka t r).0
      go (ok k, c') h = reliable.flushes t k
      go (err x, c') h = h
