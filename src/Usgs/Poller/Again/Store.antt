-- ===== src/Usgs/Poller/Again/Store.antt =====
-- The steps of a poll that leave the markers of the store in memory alone, and what a poll reads.
use sentinel_chain.Base.{String, ◌≡◌, refl, Option, List}
use sentinel_chain.Base.Int.{ℤ}
use sentinel_chain.Base.Result.{Result, ok, err}
use sentinel_chain.Base.Exec.{lift, ◌>>=◌}
use sentinel_chain.Base.Exec.Hoare.{
  Triple, Keeps, Keeps-of, Keeps-bind, Keeps-pure, Keeps-lift, Keeps-if,
}
use sentinel_chain.Base.Runtime.{Runtime, StdError}
use sentinel_chain.Base.Json.{Fields}
use sentinel_chain.Base.Dict.{lookup}
use sentinel_chain.Common.Envelope.{EventEnvelope}
use sentinel_chain.Common.Kafka.{produce, flush}
use sentinel_chain.Usgs.Parser.{UsgsEvent}
use sentinel_chain.Usgs.System.{
  System, PollState, Metrics, from_std, on_env, on_store, on_client, on_wire,
}
use sentinel_chain.Usgs.Producer.{produce_event, produce_data_quality, flush_and_confirm}
use sentinel_chain.Usgs.Poller.{count, save_cursor}
use sentinel_chain.Usgs.Poller.Dedup.{with_memory}

module _ {R : Runtime} {X : Type 0} (outside : System R X) where
  -- A fact about the markers.
  abbrev pub Holding : (List (String × String) → Type 0) → PollState (with_memory outside) → Type 0
  Holding F s = F s.store.markers

  module _ (F : List (String × String) → Type 0) where
    pub on_env-Holding :
        {A : Type 0} (m : outside.Env → A × outside.Env)
        → Keeps (Holding F) (on_env (with_memory outside) m)
    on_env-Holding m = record { at = λ s h. h }

    on_client-Holding :
        (t : R.Float) → Keeps (Holding F) (on_client (with_memory outside) (flush outside.kafka t))
    on_client-Holding t = Keeps-of (on_client (with_memory outside) _) (λ s h. h)

    on_wire-Holding :
        (topic key : String) (envelope : EventEnvelope R) (o : Option String)
        → Keeps (Holding F) (
            on_wire
              (with_memory outside)
              (produce outside.kafka topic key envelope (outside.serialize topic) o))
    on_wire-Holding topic key envelope o =
        Keeps-of
          (on_wire (with_memory outside)
            (produce outside.kafka topic key envelope (outside.serialize topic) o))
          (λ s h. h)

    pub count-Holding :
        (f : Metrics R → Metrics R) → Keeps (Holding F) (count (with_memory outside) f)
    unfolding count
    count-Holding f = record { at = λ s h. h }

    ruleset holding_rules = (
      Keeps-bind, Keeps-pure, Keeps-lift, Keeps-if, on_env-Holding, on_client-Holding,
      on_wire-Holding, count-Holding,
    )

    pub produce_event-Holding :
        (e : UsgsEvent R) → Keeps (Holding F) (produce_event (with_memory outside) e)
    unfolding produce_event
    produce_event-Holding e = search holding_rules depth 12

    pub produce_data_quality-Holding :
        (o : Option String) (reasons : List String) (raw : Option (Fields R.Float))
        → Keeps (Holding F) (produce_data_quality (with_memory outside) o reasons raw)
    unfolding produce_data_quality
    produce_data_quality-Holding o reasons raw = search holding_rules depth 12

    pub flush_and_confirm-Holding : Keeps (Holding F) (flush_and_confirm (with_memory outside))
    unfolding flush_and_confirm
    flush_and_confirm-Holding =
        Keeps-bind _ _ (on_client-Holding _) (λ out. unfold ◌>>=◌ in record { at = λ s h. h })

    set_cursor-Holding :
        (v : ℤ)
        → Keeps
            (Holding F)
            (on_store (with_memory outside) ((with_memory outside).store.set_cursor_ms v))
    set_cursor-Holding v = record { at = λ s h. h }

    pub save_cursor-Holding :
        (now : R.Datetime) (newest : ℤ)
        → Keeps (Holding F) (save_cursor (with_memory outside) now newest)
    unfolding save_cursor
    save_cursor-Holding now newest = search (holding_rules, set_cursor-Holding) depth 8

    pub get_cursor-Holding :
        Keeps (Holding F) (on_store (with_memory outside) (with_memory outside).store.get_cursor_ms)
    get_cursor-Holding = record { at = λ s h. h }

    -- A conversion that returns gives its value.
    pub lift-gives :
        {A : Type 0} (r : Result StdError A)
        → Triple
            (Holding F)
            (lift {S = PollState (with_memory outside)} (from_std {R = R} {X = X} r))
            (λ a s. F s.store.markers × (r ≡ ok a))
            (λ s. Unit {0})
    lift-gives (ok a) = record { at = λ s h. (h, refl) }
    lift-gives (err e) = record { at = λ s h. tt }

    -- The marker that is looked for is the one that is there.
    pub seen-gives :
        (id : String)
        → Triple
            (Holding F)
            (on_store (with_memory outside) ((with_memory outside).store.seen_marker id))
            (λ o s. F s.store.markers × (lookup id s.store.markers ≡ o))
            (λ s. Unit {0})
    seen-gives id = record { at = λ s h. (h, refl) }
