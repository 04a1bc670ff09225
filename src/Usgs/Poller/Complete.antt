-- ===== src/Usgs/Poller/Complete.antt =====
-- Over a Kafka client that delivers, a poll leaves no record behind.
pub mod Counting
use sentinel_chain.Base.{ℕ, List, ◌∷◌, All, arith, true}
use sentinel_chain.Base.Result.{Result}
use sentinel_chain.Base.Exec.{Exec}
use sentinel_chain.Base.Exec.Hoare.{Triple}
use sentinel_chain.Base.Runtime.{Runtime}
use sentinel_chain.Base.Json.{count as count_items}
use sentinel_chain.Common.Kafka.Delivers.{KafkaDelivers}
use sentinel_chain.Usgs.Parser.{UsgsEvent}
use sentinel_chain.Usgs.System.{System, PollState, Poll}
use sentinel_chain.Usgs.Producer.{contains}
use sentinel_chain.Usgs.Poller.{PollStats, Pending}
use sentinel_chain.Usgs.Poller.Account.{Visits}
use sentinel_chain.Usgs.Poller.Reliable.{Reliable}
use sentinel_chain.Usgs.Poller.Queue.{Waits}

module _ {R : Runtime} {X : Type 0} (sys : System R X) (delivers : KafkaDelivers sys.kafka) where
  -- the loop over the events
  abbrev Visiting :
      (fetched : ℕ) (rest : List (UsgsEvent R)) → PollStats × List Pending → PollState sys → Type 0
  Visiting fetched rest acc s = Visits fetched rest acc × Waits sys delivers acc.1 s

  abbrev Visit :
      (fetched : ℕ) (e : UsgsEvent R) (rest : List (UsgsEvent R)) (acc : PollStats × List Pending)
      → Poll sys (PollStats × List Pending)
      → Type 0
  Visit fetched e rest acc m =
      Triple (Visiting fetched (e ∷ rest) acc) m (Visiting fetched rest) (λ s. Unit {0})
