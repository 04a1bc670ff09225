-- ===== src/Usgs/Poller/Queue.antt =====
-- The events that wait for their acknowledgement have their messages in the client's buffer.
use sentinel_chain.Base.{ℕ, String, ◌≡◌, refl, true, Option, some, List, All}
use sentinel_chain.Base.Result.{Result, ok, err}
use sentinel_chain.Base.Exec.{Exec, lift, pure, ◌>>=◌}
use sentinel_chain.Base.Exec.Hoare.{Holds, Triple, Triple-bind}
use sentinel_chain.Base.Runtime.{Runtime}
use sentinel_chain.Base.Json.{Fields}
use sentinel_chain.Common.Envelope.{EventEnvelope}
use sentinel_chain.Common.Kafka.{produce, flush, Report}
use sentinel_chain.Common.Kafka.Delivers.{
  KafkaDelivers, IsReported, Queued, produce-Queued, produce-queues, flush-delivers,
}
use sentinel_chain.Usgs.Parser.{UsgsEvent}
use sentinel_chain.Usgs.System.{
  Raised, System, PollState, Poll, Metrics, from_outside, on_env, on_store, on_client, on_wire,
}
use sentinel_chain.Usgs.Producer.{
  contains, on_deliveries, produce_event, produce_data_quality, flush_and_confirm,
}
use sentinel_chain.Usgs.Producer.Delivered.{All-map}
use sentinel_chain.Usgs.Producer.Confirmed.{reported-contains}
use sentinel_chain.Usgs.Poller.{Pending, count}

module _ {R : Runtime} {X : Type 0} (sys : System R X) (delivers : KafkaDelivers sys.kafka)
    (pending : List Pending) where
  -- The pending events, in the buffer of a client.
  abbrev pub InQueue : Option sys.kafka.Client → Type 0
  InQueue c = All (λ (p : Pending). Queued delivers c p.0) pending

  abbrev pub Waits : PollState sys → Type 0
  Waits s = InQueue s.client

  -- A step after which they wait still.
  abbrev pub Holding : {A : Type 0} → Poll sys A → Type 0
  Holding m = Triple Waits m (λ a. Waits) (λ s. Unit {0})

  pub Holding-of :
      {A : Type 0} (m : Poll sys A) → ((s : PollState sys) → Waits s → Waits (m s).1) → Holding m
  Holding-of {A} m keeps = record { at = λ s h. go (m s) (keeps s h) }
    where
      go :
          (r : Result (Raised R X) A × PollState sys)
          → Waits r.1
          → Holds (λ a. Waits) (λ s. Unit {0}) r
      go (ok a, s) h = h
      go (err e, s) h = tt

  pub bind-Holding :
      {A B : Type 0} (m : Poll sys A) (f : A → Poll sys B)
      → Holding m
      → ((a : A) → Holding (f a))
      → Holding (m >>= f)
  bind-Holding m f hm hf = Triple-bind m f hm hf

  pub pure-Holding : {A : Type 0} (a : A) → Holding (pure a)
  pure-Holding a = record { at = λ s h. h }

  pub lift-Holding : {A : Type 0} (r : Result (Raised R X) A) → Holding (lift r)
  lift-Holding r = Holding-of (lift r) (λ s h. h)

  pub env-Holding : {A : Type 0} (m : sys.Env → A × sys.Env) → Holding (on_env sys m)
  env-Holding m = record { at = λ s h. h }

  pub store-Holding : {A : Type 0} (m : Exec X sys.store.State A) → Holding (on_store sys m)
  store-Holding m = Holding-of (on_store sys m) (λ s h. h)

  pub count-Holding : (f : Metrics R → Metrics R) → Holding (count sys f)
  unfolding count
  count-Holding f = record { at = λ s h. h }

  produce-Holding :
      (topic key : String) (envelope : EventEnvelope R) (o : Option String)
      → Holding (on_wire sys (produce sys.kafka topic key envelope (sys.serialize topic) o))
  produce-Holding topic key envelope o =
      let m = produce sys.kafka topic key envelope (sys.serialize topic) o in
      Holding-of (on_wire sys m) λ s h.
        All-map (λ (p : Pending). Queued delivers s.client p.0)
          (λ (p : Pending). Queued delivers (m (s.client, s.env)).1.0 p.0) pending
          (λ p q.
            produce-Queued delivers topic key envelope (sys.serialize topic) o (s.client, s.env) p.0
              q)
          h

  ruleset holding_rules =
      (bind-Holding, pure-Holding, lift-Holding, env-Holding, store-Holding, produce-Holding)

  pub produce_data_quality-Holding :
      (o : Option String) (reasons : List String) (raw : Option (Fields R.Float))
      → Holding (produce_data_quality sys o reasons raw)
  unfolding produce_data_quality
  produce_data_quality-Holding o reasons raw = search holding_rules depth 10

  -- After the event's message is sent, it waits too.
  abbrev pub WaitsFor : String → PollState sys → Type 0
  WaitsFor id s = Waits s × Queued delivers s.client id

  sent-WaitsFor :
      (id key : String) (envelope : EventEnvelope R)
      → Triple Waits
          (on_wire sys
            (produce sys.kafka sys.raw_topic key envelope (sys.serialize sys.raw_topic) (some id)))
          (λ u. WaitsFor id)
          (λ s. Unit {0})
  sent-WaitsFor id key envelope = record {
    at = λ s h.
        let m =
          produce sys.kafka sys.raw_topic key envelope (sys.serialize sys.raw_topic) (some id) in
        go s (m (s.client, s.env))
          (produce-queues delivers sys.raw_topic key envelope (sys.serialize sys.raw_topic) id
            (s.client, s.env))
          (All-map (λ (p : Pending). Queued delivers s.client p.0)
            (λ (p : Pending). Queued delivers (m (s.client, s.env)).1.0 p.0) pending
            (λ p q.
              produce-Queued delivers sys.raw_topic key envelope (sys.serialize sys.raw_topic)
                (some id) (s.client, s.env) p.0 q)
            h);
  }
    where
      go :
          (s : PollState sys) (r : Result X (Unit {0}) × (Option sys.kafka.Client × sys.Env))
          → (r.0 ≡ ok tt → Queued delivers r.1.0 id)
          → InQueue r.1.0
          → Holds {E = Raised R X} {S = PollState sys}
              (λ (u : Unit {0}). WaitsFor id)
              (λ z. Unit {0})
              (from_outside r.0, record s { client = r.1.0; env = r.1.1 })
      go s (ok u, wire) queued kept = (kept, queued refl)
      go s (err x, wire) queued kept = tt

  pub produce_event-WaitsFor :
      (e : UsgsEvent R)
      → Triple Waits (produce_event sys e) (λ u. WaitsFor e.source_event_id) (λ s. Unit {0})
  unfolding produce_event
  produce_event-WaitsFor e = Triple-bind _ _ (lift-Holding _) (λ version.
      Triple-bind _ _ (lift-Holding _) (λ body.
        Triple-bind _ _ (search holding_rules depth 8) (λ envelope. sent-WaitsFor _ _ envelope)))

  -- What a flush that returns says of them, and what the confirmed ids then are.
  abbrev AreReported : List (Report sys.kafka.Bytes) → Type 0
  AreReported reports = All (λ (p : Pending). IsReported p.0 reports) pending

  abbrev pub AreConfirmed : List String → Type 0
  AreConfirmed ids = All (λ (p : Pending). contains p.0 ids ≡ true) pending

  flush-AreReported :
      (t : R.Float)
      → Triple Waits
          (on_client sys (flush sys.kafka t))
          (λ out s. AreReported out.0)
          (λ s. Unit {0})
  flush-AreReported t = record {
    at = λ s h. go s (flush sys.kafka t s.client) (λ reports n e.
        All-map (λ (p : Pending). Queued delivers s.client p.0)
          (λ (p : Pending). IsReported p.0 reports) pending
          (λ p q. flush-delivers delivers t s.client reports n p.0 e q) h);
  }
    where
      go :
          (s : PollState sys)
          (r : Result X (List (Report sys.kafka.Bytes) × ℕ) × Option sys.kafka.Client)
          → ((reports : List (Report sys.kafka.Bytes)) (n : ℕ)
              → r.0 ≡ ok (reports, n)
              → AreReported reports)
          → Holds {E = Raised R X} {S = PollState sys}
              (λ (out : List (Report sys.kafka.Bytes) × ℕ) z. AreReported out.0)
              (λ z. Unit {0})
              (from_outside r.0, record s { client = r.1 })
      go s (ok (reports, n), c) reported = reported reports n refl
      go s (err x, c) reported = tt

  pub flush_and_confirm-AreConfirmed :
      Triple Waits (flush_and_confirm sys) (λ out s. AreConfirmed out.0) (λ s. Unit {0})
  unfolding flush_and_confirm
  flush_and_confirm-AreConfirmed = Triple-bind _ _ (flush-AreReported _) (λ outcome.
      unfold ◌>>=◌ in
      record {
        at = λ s h.
            All-map (λ (p : Pending). IsReported p.0 outcome.0)
              (λ (p : Pending). contains p.0 (on_deliveries outcome.0 s.delivered) ≡ true) pending
              (λ p r. reported-contains outcome.0 p.0 s.delivered r) h;
      })
