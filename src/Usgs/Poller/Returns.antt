-- ===== src/Usgs/Poller/Returns.antt =====
-- A poll over clients that do not raise returns its statistics.
use sentinel_chain.Base.{String, ◌≡◌, ◌⊎◌, ap, ◌∙◌, true, Option, none, some, List, All}
use sentinel_chain.Base.Int.{ℤ}
use sentinel_chain.Base.Result.{Result}
use sentinel_chain.Base.Exec.{Exec, lift}
use sentinel_chain.Base.Exec.Hoare.{Triple-if}
use sentinel_chain.Base.Runtime.{Runtime}
use sentinel_chain.Base.Json.{Fields, Items, arr, get, count as count_items}
use sentinel_chain.Common.Envelope.{EventEnvelope}
use sentinel_chain.Common.Kafka.{produce, flush}
use sentinel_chain.Common.Kafka.Reliable.{IsOk, produce-IsOk, flush-IsOk}
use sentinel_chain.Usgs.Parser.{UsgsEvent, or_std}
use sentinel_chain.Usgs.Parser.Aware.{IsAware}
use sentinel_chain.Usgs.Parser.Feed.{parsed, rejected, aborted, described, parse_feed-described}
use sentinel_chain.Usgs.Event.{source_version, payload, payload_hash}
use sentinel_chain.Usgs.System.{System, Poll, from_std, from_parse, on_store, on_client, on_wire}
use sentinel_chain.Usgs.Poller.{PollStats, Pending, is_zero_ℤ, process_parsed, after_parse, process}
use sentinel_chain.Usgs.Poller.Reliable.{
  Reliable, source_version-IsOk, payload-IsOk, payload_hash-IsOk, Returns, Gives, Returns-run,
  Returns-bind, Returns-pure, Returns-on_env, Returns-gets, Returns-delivered, count-Returns,
  Returns-lift, from_outside-IsOk,
}

module _ {R : Runtime} {X : Type 0} (sys : System R X) (reliable : Reliable sys)
    (converts : (x : R.Float) → IsOk (R.of_int (R.trunc x))) where
  Returns-on_store :
      {A : Type 0} (m : Exec X sys.store.State A)
      → ((t : sys.store.State) → reliable.sound t → IsOk (m t).0 × reliable.sound (m t).1)
      → Returns sys reliable (on_store sys m)
  Returns-on_store m h = Returns-run sys reliable (on_store sys m) (λ s sound.
      let k = h s.store sound in (from_outside-IsOk sys reliable (m s.store).0 k.0, k.1))

  seen-Returns : (id : String) → Returns sys reliable (on_store sys (sys.store.seen_marker id))
  seen-Returns id = Returns-on_store (sys.store.seen_marker id) (reliable.sees id)

  record-Returns :
      (id marker : String) → Returns sys reliable (on_store sys (sys.store.record_marker id marker))
  record-Returns id marker =
      Returns-on_store (sys.store.record_marker id marker) (reliable.records id marker)

  -- No cursor, or one that converts.
  abbrev Known : Option ℤ → Type 0
  Known none = Unit
  Known (some n) = IsOk (R.of_int n)

  set-Returns :
      (n : ℤ) → IsOk (R.of_int n) → Returns sys reliable (on_store sys (sys.store.set_cursor_ms n))
  set-Returns n h =
      Returns-on_store (sys.store.set_cursor_ms n) (λ t sound. reliable.sets_cursor n t h sound)

  produce-Returns :
      (topic key : String) (envelope : EventEnvelope R) (o : Option String)
      → Returns sys reliable
          (on_wire sys (produce sys.kafka topic key envelope (sys.serialize topic) o))
  produce-Returns topic key envelope o =
      Returns-run sys reliable
        (on_wire sys (produce sys.kafka topic key envelope (sys.serialize topic) o))
        (λ s sound. (
          from_outside-IsOk sys reliable
              (produce sys.kafka topic key envelope (sys.serialize topic) o (s.client, s.env)).0
              (produce-IsOk reliable.kafka topic key envelope (sys.serialize topic) o s.client s.env
                (reliable.serializes topic)),
          sound,
        ))

  flush-Returns : (t : R.Float) → Returns sys reliable (on_client sys (flush sys.kafka t))
  flush-Returns t = Returns-run sys reliable (on_client sys (flush sys.kafka t)) (λ s sound. (
    from_outside-IsOk sys reliable (flush sys.kafka t s.client).0
        (flush-IsOk reliable.kafka t s.client),
    sound,
  ))

  version-Returns :
      (e : UsgsEvent R) → IsAware R e → Returns sys reliable (lift (from_std (source_version R e)))
  version-Returns e h = Returns-lift sys reliable (source_version R e) (source_version-IsOk h)

  payload-Returns :
      (e : UsgsEvent R) → IsAware R e → Returns sys reliable (lift (from_std (payload R e)))
  payload-Returns e h = Returns-lift sys reliable (payload R e) (payload-IsOk h)

  hash-Returns :
      (e : UsgsEvent R)
      → IsAware R e
      → Returns sys reliable (lift (from_std (payload_hash R sys.dumps sys.sha256 e)))
  hash-Returns e h =
      Returns-lift sys reliable (payload_hash R sys.dumps sys.sha256 e)
        (payload_hash-IsOk h sys.dumps sys.sha256)

  ruleset returns_rules = (
    Returns-bind, Returns-pure, Returns-on_env, Returns-gets, Returns-delivered, count-Returns,
    Triple-if, seen-Returns, record-Returns, set-Returns, produce-Returns, flush-Returns,
    version-Returns, payload-Returns, hash-Returns,
  )

  -- The update times of the pending events convert.
  abbrev Convert : List Pending → Type 0
  Convert pending = All (λ (p : Pending). IsOk (R.of_int p.2)) pending

  abbrev Visit : (acc : PollStats × List Pending) → Poll sys (PollStats × List Pending) → Type 0
  Visit acc m = Convert acc.1 → Gives sys reliable (λ acc'. Convert acc'.1) m

  -- A cursor that is not saved, or converts.
  abbrev IsSaved : ℤ → Type 0
  IsSaved n = (is_zero_ℤ n ≡ true) ⊎ IsOk (R.of_int n)

  -- A feed that no other error ends is processed to the end.
  pub process_to_parsed :
      (body : Fields R.Float) (features : Items R.Float)
      → get "features" body ≡ arr features
      → aborted R features ≡ none
      → process sys body ≡ process_parsed sys (parsed R features, rejected R features)
  unfolding process after_parse
  process_to_parsed body features has fine =
      ap (λ r. after_parse sys (from_parse r)) (parse_feed-described R body features has)
      ∙ ap
          (λ o.
            after_parse sys
              (from_parse (or_std (described R o (parsed R features, rejected R features)))))
          fine
