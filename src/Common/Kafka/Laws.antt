-- ===== src/Common/Kafka/Laws.antt =====
-- What the producer may rely on of a Kafka client, and how acknowledgements last.
use sentinel_chain.Base.{
  ℕ, String, ◌≡◌, refl, sym, ◌≢◌, ◌⊎◌, inl, inr, false, Option, none, some, List, All,
}
use mathlib.Core.Path.{subst}
use sentinel_chain.Base.Result.{Result, ok, err, Result-cases}
use sentinel_chain.Base.Exec.{Exec}
use sentinel_chain.Base.Runtime.{Runtime}
use sentinel_chain.Common.Envelope.{EventEnvelope}
use sentinel_chain.Common.Kafka.{
  Message, Report, Kafka, ensure, flush_with, flush, send_serialized, produce,
}

-- A report without an error speaks of an acknowledged message.
abbrev pub Speaks : {B : Type 0} → (String → Type 0) → Report B → Type 0
Speaks acked report =
    report.failed ≡ false → (id : String) → report.message.on_delivery ≡ some id → acked id

-- `acked k id`: the broker has acknowledged a message whose callback stands for `id`. That lasts,
-- and a callback is called without an error only for an acknowledged message.
pub record KafkaLaws {R : Runtime} {X : Type 0} (kafka : Kafka R X) : Type 1 where
  pub acked : kafka.Client → String → Type 0
  pub produce_keeps :
      (m : Message kafka.Bytes) (k : kafka.Client) (id : String)
      → acked k id
      → acked (kafka.produce m k).1 id
  pub flush_keeps :
      (t : R.Float) (k : kafka.Client) (id : String) → acked k id → acked (kafka.flush t k).1 id
  pub flush_speaks :
      (t : R.Float) (k : kafka.Client) (reports : List (Report kafka.Bytes)) (n : ℕ)
      → (kafka.flush t k).0 ≡ ok (reports, n)
      → All (Speaks (acked (kafka.flush t k).1)) reports

err≢ok : {E A : Type 0} {e : E} {a : A} → err e ≢ ok a
err≢ok h = cc

module _ {R : Runtime} {X : Type 0} {kafka : Kafka R X} (laws : KafkaLaws kafka) where
  -- The same of the attribute `_producer`.
  abbrev pub Acked : Option kafka.Client → String → Type 0
  Acked none id = ⊥
  Acked (some k) id = laws.acked k id

  ensure-Acked : (c : Option kafka.Client) (id : String) → Acked c id → Acked (ensure kafka c).1 id
  unfolding ensure
  ensure-Acked none id h = absurd h
  ensure-Acked (some k) id h = h

  send_serialized-Acked :
      {Env : Type 0} (message : kafka.Bytes → Message kafka.Bytes) (k : kafka.Client)
      (v : Result X kafka.Bytes × Env) (id : String)
      → laws.acked k id
      → Acked (send_serialized kafka message k v).1.0 id
  unfolding send_serialized
  send_serialized-Acked message k (ok bytes, env) id h = laws.produce_keeps (message bytes) k id h
  send_serialized-Acked message k (err x, env) id h = h

  pub produce-Acked :
      {Env : Type 0} (topic key : String) (envelope : EventEnvelope R)
      (serialize : EventEnvelope R → Exec X Env kafka.Bytes) (on_delivery : Option String)
      (w : Option kafka.Client × Env) (id : String)
      → Acked w.0 id
      → Acked (produce kafka topic key envelope serialize on_delivery w).1.0 id
  unfolding produce
  produce-Acked topic key envelope serialize on_delivery (none, env) id h = absurd h
  produce-Acked topic key envelope serialize on_delivery (some k, env) id h =
      send_serialized-Acked _ k (serialize envelope env) id h

  pub flush-Acked :
      (t : R.Float) (c : Option kafka.Client) (id : String)
      → Acked c id
      → Acked (flush kafka t c).1 id
  unfolding flush
  flush-Acked t none id h = absurd h
  flush-Acked t (some k) id h = laws.flush_keeps t k id h

  ensure-cases :
      (c : Option kafka.Client)
      → ((k : kafka.Client) × (ensure kafka c ≡ (ok k, some k)))
        ⊎ ((x : X) × (ensure kafka c ≡ (err x, none)))
  unfolding ensure
  ensure-cases (some k) = inl (k, refl)
  ensure-cases none = elim (Result-cases kafka.connect) [
    | inl (k, e) ↦ inl (k, rw (e, ensure))
    | inr (x, e) ↦ inr (x, rw (e, ensure))
  ]

  -- What `flush` gives from a client, or from the failure to have one.
  FlushSpeaks : R.Float → Result X kafka.Client × Option kafka.Client → Type 0
  FlushSpeaks t r =
      (reports : List (Report kafka.Bytes)) (n : ℕ)
      → (flush_with kafka t r).0 ≡ ok (reports, n)
      → All (Speaks (Acked (flush_with kafka t r).1)) reports

  flush_with-Speaks :
      (t : R.Float) (r : Result X kafka.Client × Option kafka.Client)
      → ((k : kafka.Client) × (r ≡ (ok k, some k))) ⊎ ((x : X) × (r ≡ (err x, none)))
      → FlushSpeaks t r
  unfolding FlushSpeaks flush_with
  flush_with-Speaks t r (inl (k, e)) =
      subst (FlushSpeaks t) (sym e) (λ reports n h. laws.flush_speaks t k reports n h)
  flush_with-Speaks t r (inr (x, e)) =
      subst (FlushSpeaks t) (sym e) (λ reports n h. absurd (err≢ok h))

  -- Every report of a flush without an error speaks of a message that is acknowledged then.
  pub flush-Speaks :
      (t : R.Float) (c : Option kafka.Client) (reports : List (Report kafka.Bytes)) (n : ℕ)
      → (flush kafka t c).0 ≡ ok (reports, n)
      → All (Speaks (Acked (flush kafka t c).1)) reports
  unfolding flush FlushSpeaks
  flush-Speaks t c reports n h = flush_with-Speaks t (ensure kafka c) (ensure-cases c) reports n h
