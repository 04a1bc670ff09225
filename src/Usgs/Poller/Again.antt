-- ===== src/Usgs/Poller/Again.antt =====
-- A feed that is polled again.
pub mod Store
pub mod Saved
pub mod Visits
pub mod Settles
pub mod Skips
use sentinel_chain.Base.{ℕ, ◌≤◌, ◌≡◌, ◌⊎◌, String, none, some, List, All}
use sentinel_chain.Base.Int.{ℤ}
use sentinel_chain.Base.Result.{Result, err}
use sentinel_chain.Base.Runtime.{Runtime}
use sentinel_chain.Base.Json.{Fields, Items, arr, get}
use sentinel_chain.Common.Kafka.Delivers.{KafkaDelivers}
use sentinel_chain.Common.Kafka.Reliable.{IsOk}
use sentinel_chain.Usgs.Parser.{UsgsEvent}
use sentinel_chain.Usgs.Parser.Aware.{UtcDates}
use sentinel_chain.Usgs.Parser.Feed.{aborted}
use sentinel_chain.Usgs.System.{Raised, System}
use sentinel_chain.Usgs.Poller.{process_parsed}
use sentinel_chain.Usgs.Poller.Reliable.{Reliable}
use sentinel_chain.Usgs.Poller.Dedup.{with_memory}

-- Events of one id are one event.
abbrev pub AreDistinct : {R : Runtime} → List (UsgsEvent R) → Type 0
AreDistinct {R} events =
    All
      (λ (e₀ : UsgsEvent R).
        All (λ (e : UsgsEvent R). e.source_event_id ≡ e₀.source_event_id → e ≡ e₀) events)
      events

module _ {R : Runtime} {X : Type 0} (outside : System R X) (delivers : KafkaDelivers outside.kafka)
    (reliable : Reliable (with_memory outside))
    (converts : (x : R.Float) → IsOk (R.of_int (R.trunc x))) (dates : UtcDates R)
    (body : Fields R.Float) (features : Items R.Float) (has : get "features" body ≡ arr features)
    (fine : aborted R features ≡ none) where
  abbrev sys : System R X
  sys = with_memory outside
