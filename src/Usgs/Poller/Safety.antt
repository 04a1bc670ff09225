-- ===== src/Usgs/Poller/Safety.antt =====
-- A marker is saved only for an event that the broker has acknowledged.
use sentinel_chain.Base.{String, ◌⊎◌, inl, inr, Option, List, All, arith}
use sentinel_chain.Base.Exec.{Exec}
use sentinel_chain.Base.Exec.Hoare.{
  Keeps, Keeps-of, Keeps-if, Keeps-bind, Keeps-pure, Keeps-raise, Keeps-lift,
}
use sentinel_chain.Base.Runtime.{Runtime}
use sentinel_chain.Base.Json.{Fields}
use sentinel_chain.Common.Envelope.{EventEnvelope}
use sentinel_chain.Common.Kafka.{produce}
use sentinel_chain.Common.Kafka.Laws.{KafkaLaws, Acked, produce-Acked}
use sentinel_chain.Usgs.Parser.{UsgsEvent}
use sentinel_chain.Usgs.Cursor.Laws.{CursorLaws, Kept}
use sentinel_chain.Usgs.System.{System, PollState, on_env, on_store, on_wire}
use sentinel_chain.Usgs.Producer.Delivered.{All-map}
use sentinel_chain.Usgs.Producer.{produce_event, produce_data_quality}

Kept-trans : {A : Type 0} {a b c : Option A} → Kept a b → Kept b c → Kept a c
Kept-trans h k = ground arith

module _ {R : Runtime} {X : Type 0} (sys : System R X) (laws : CursorLaws sys.store)
    (kafka_laws : KafkaLaws sys.kafka) (start : sys.store.State) (id : String) where
  -- Since `start` the marker of `id` is kept, or `id` is acknowledged; and so is each id whose
  -- callback has run.
  pub record IsSafe (s : PollState sys) : Type 0 where
    pub markers :
        Kept (laws.marker start id) (laws.marker s.store id) ⊎ Acked kafka_laws s.client id
    pub confirmed : All (Acked kafka_laws s.client) s.delivered

  pub on_env-IsSafe : {A : Type 0} (m : sys.Env → A × sys.Env) → Keeps IsSafe (on_env sys m)
  on_env-IsSafe m = record { at = λ s h. record { markers = h.markers; confirmed = h.confirmed } }

  pub on_store-IsSafe :
      {A : Type 0} (m : Exec X sys.store.State A)
      → ((st : sys.store.State) → Kept (laws.marker st id) (laws.marker (m st).1 id))
      → Keeps IsSafe (on_store sys m)
  on_store-IsSafe m keeps = Keeps-of (on_store sys m) (λ s h. record {
    markers = elim h.markers [
      | inl kept ↦ inl (Kept-trans kept (keeps s.store))
      | inr acked ↦ inr acked
    ];
    confirmed = h.confirmed;
  })

  -- A step of the client under which acknowledgements last.
  pub lasting :
      (s : PollState sys) (client : Option sys.kafka.Client) (env : sys.Env)
      → ((j : String) → Acked kafka_laws s.client j → Acked kafka_laws client j)
      → IsSafe s
      → IsSafe (record s { client = client; env = env })
  lasting s client env lasts h = record {
    markers = elim h.markers [ inl kept ↦ inl kept | inr acked ↦ inr (lasts id acked) ];
    confirmed =
        All-map (Acked kafka_laws s.client) (Acked kafka_laws client) s.delivered lasts h.confirmed;
  }

  produce-IsSafe :
      (topic key : String) (envelope : EventEnvelope R) (o : Option String)
      → Keeps IsSafe (on_wire sys (produce sys.kafka topic key envelope (sys.serialize topic) o))
  produce-IsSafe topic key envelope o =
      let m = produce sys.kafka topic key envelope (sys.serialize topic) o in
      Keeps-of (on_wire sys m) λ s h.
        lasting s (m (s.client, s.env)).1.0 (m (s.client, s.env)).1.1
          (produce-Acked kafka_laws topic key envelope (sys.serialize topic) o (s.client, s.env)) h

  ruleset safe_rules =
      (Keeps-bind, Keeps-pure, Keeps-raise, Keeps-lift, Keeps-if, on_env-IsSafe, produce-IsSafe)

  pub produce_event-IsSafe : (e : UsgsEvent R) → Keeps IsSafe (produce_event sys e)
  unfolding produce_event
  produce_event-IsSafe e = search safe_rules depth 10

  pub produce_data_quality-IsSafe :
      (o : Option String) (reasons : List String) (raw : Option (Fields R.Float))
      → Keeps IsSafe (produce_data_quality sys o reasons raw)
  unfolding produce_data_quality
  produce_data_quality-IsSafe o reasons raw = search safe_rules depth 10
