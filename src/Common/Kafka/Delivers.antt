-- ===== src/Common/Kafka/Delivers.antt =====
-- A Kafka client that delivers, at a flush that returns, all that is in its buffer.
use sentinel_chain.Base.{ℕ, String, ◌≡◌, ◌⊎◌, refl, false, Option, none, some, List, [], ◌∷◌}
use sentinel_chain.Base.Result.{Result, ok, err}
use sentinel_chain.Base.Exec.{Exec}
use sentinel_chain.Base.Runtime.{Runtime}
use sentinel_chain.Common.Envelope.{EventEnvelope}
use sentinel_chain.Common.Kafka.{
  Message, Report, Kafka, ensure, flush_with, flush, send_serialized, produce_with, produce,
}

-- A report without an error of a message whose callback stands for the id.
abbrev pub IsReported : {B : Type 0} → String → List (Report B) → Type 0
IsReported id [] = ⊥
IsReported id (r ∷ rs) = ((r.failed ≡ false) × (r.message.on_delivery ≡ some id)) ⊎ IsReported id rs

-- `queued k id`: a message whose callback stands for `id` is in the buffer.
pub record KafkaDelivers {R : Runtime} {X : Type 0} (kafka : Kafka R X) : Type 1 where
  pub queued : kafka.Client → String → Type 0
  pub produce_queues :
      (m : Message kafka.Bytes) (k : kafka.Client) (id : String)
      → m.on_delivery ≡ some id
      → (kafka.produce m k).0 ≡ ok tt
      → queued (kafka.produce m k).1 id
  pub produce_keeps :
      (m : Message kafka.Bytes) (k : kafka.Client) (id : String)
      → queued k id
      → queued (kafka.produce m k).1 id
  pub flush_delivers :
      (t : R.Float) (k : kafka.Client) (reports : List (Report kafka.Bytes)) (n : ℕ) (id : String)
      → (kafka.flush t k).0 ≡ ok (reports, n)
      → queued k id
      → IsReported id reports

module _ {R : Runtime} {X : Type 0} {kafka : Kafka R X} (laws : KafkaDelivers kafka) where
  -- The same of the attribute `_producer`.
  abbrev pub Queued : Option kafka.Client → String → Type 0
  Queued none id = ⊥
  Queued (some k) id = laws.queued k id

  -- What producing does to the buffer, from a client.
  sent :
      {Env : Type 0} (message : kafka.Bytes → Message kafka.Bytes) (k : kafka.Client)
      (v : Result X kafka.Bytes × Env) (id : String)
      → laws.queued k id
      → Queued (send_serialized kafka message k v).1.0 id
  unfolding send_serialized
  sent message k (ok bytes, env) id h = laws.produce_keeps (message bytes) k id h
  sent message k (err x, env) id h = h

  pub produce-Queued :
      {Env : Type 0} (topic key : String) (envelope : EventEnvelope R)
      (serialize : EventEnvelope R → Exec X Env kafka.Bytes) (o : Option String)
      (w : Option kafka.Client × Env) (id : String)
      → Queued w.0 id
      → Queued (produce kafka topic key envelope serialize o w).1.0 id
  unfolding produce ensure
  produce-Queued topic key envelope serialize o (none, env) id h = absurd h
  produce-Queued topic key envelope serialize o (some k, env) id h =
      sent _ k (serialize envelope env) id h

  queues :
      {Env : Type 0} (message : kafka.Bytes → Message kafka.Bytes) (id : String)
      → ((bytes : kafka.Bytes) → (message bytes).on_delivery ≡ some id)
      → (serialize : Env → Result X kafka.Bytes × Env)
      → (r : Result X kafka.Client × Option kafka.Client) (env : Env)
      → (produce_with kafka message serialize r env).0 ≡ ok tt
      → Queued (produce_with kafka message serialize r env).1.0 id
  unfolding produce_with send_serialized
  queues message id named serialize (err x, c) env h = absurd (cc h)
  queues {Env} message id named serialize (ok k, c) env h = go (serialize env) h
    where
      go :
          (v : Result X kafka.Bytes × Env)
          → (send_serialized kafka message k v).0 ≡ ok tt
          → Queued (send_serialized kafka message k v).1.0 id
      go (ok bytes, env') g = laws.produce_queues (message bytes) k id (named bytes) g
      go (err x, env') g = absurd (cc g)

  -- A produce that returns has put its message in the buffer.
  pub produce-queues :
      {Env : Type 0} (topic key : String) (envelope : EventEnvelope R)
      (serialize : EventEnvelope R → Exec X Env kafka.Bytes) (id : String)
      (w : Option kafka.Client × Env)
      → (produce kafka topic key envelope serialize (some id) w).0 ≡ ok tt
      → Queued (produce kafka topic key envelope serialize (some id) w).1.0 id
  unfolding produce
  produce-queues topic key envelope serialize id (c, env) h =
      queues _ id (λ bytes. refl) (serialize envelope) (ensure kafka c) env h

  pub flush-delivers :
      (t : R.Float) (c : Option kafka.Client) (reports : List (Report kafka.Bytes)) (n : ℕ)
      (id : String)
      → (flush kafka t c).0 ≡ ok (reports, n)
      → Queued c id
      → IsReported id reports
  unfolding flush ensure flush_with
  flush-delivers t none reports n id h q = absurd q
  flush-delivers t (some k) reports n id h q = laws.flush_delivers t k reports n id h q
