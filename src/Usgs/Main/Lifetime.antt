-- ===== src/Usgs/Main/Lifetime.antt =====
-- What holds over the whole life of the process.
use sentinel_chain.Base.{String, refl, ◌⊎◌, inl}
use sentinel_chain.Base.Exec.Hoare.{Keeps, Keeps-at, Keeps-bind, Keeps-lift}
use sentinel_chain.Base.Runtime.{Runtime}
use sentinel_chain.Common.Kafka.Laws.{KafkaLaws, Acked}
use sentinel_chain.Usgs.Cursor.Laws.{Kept, CursorLaws}
use sentinel_chain.Usgs.System.{System}
use sentinel_chain.Usgs.Poller.Safety.{IsSafe, on_env-IsSafe, on_store-IsSafe}
use sentinel_chain.Usgs.Poller.Markers.{poll_once-Safe}
use sentinel_chain.Usgs.Poller.Markers.Commit.{flush_and_confirm-Keeps}
use sentinel_chain.Usgs.Main.{
  Service, started, poll_round, wait, Runs, here, round, Leaves, at_head, escaped, clean_up,
  stopped,
}

module _ {R : Runtime} {X : Type 0} (sys : System R X) (laws : CursorLaws sys.store)
    (kafka_laws : KafkaLaws sys.kafka) (store : sys.store.State) (id : String) where
  abbrev SafeService : Service sys → Type 0
  SafeService s = IsSafe sys laws kafka_laws store id s.poll

  poll_round-Safe : (s : Service sys) → SafeService s → SafeService (poll_round sys s)
  unfolding poll_round
  poll_round-Safe s h = Keeps-at (poll_once-Safe sys laws kafka_laws store id) s.poll h

  wait-Safe :
      (pass : sys.Env → sys.Env) (s : Service sys) → SafeService s → SafeService (wait sys pass s)
  wait-Safe pass s h = record { markers = h.markers; confirmed = h.confirmed }

  Runs-Safe : (env : sys.Env) (s : Service sys) → Runs sys (started sys env store) s → SafeService s
  Runs-Safe env s here = record { markers = inl (inl refl); confirmed = tt }
  Runs-Safe env _ (round {s} pass runs caught) =
      wait-Safe pass (poll_round sys s) (poll_round-Safe s (Runs-Safe env s runs))

  Leaves-Safe :
      (env : sys.Env) (s : Service sys) → Leaves sys (started sys env store) s → SafeService s
  Leaves-Safe env s (at_head runs) = Runs-Safe env s runs
  Leaves-Safe env _ (escaped {s} runs uncaught) = poll_round-Safe s (Runs-Safe env s runs)

  clean_up-Safe : Keeps (IsSafe sys laws kafka_laws store id) (clean_up sys)
  unfolding clean_up
  clean_up-Safe = Keeps-bind _ _ (flush_and_confirm-Keeps sys laws kafka_laws store id) (λ out.
      Keeps-bind _ _ (on_env-IsSafe sys laws kafka_laws store id sys.close_client) (λ closed.
        Keeps-bind _ _ (Keeps-lift _) (λ u.
          on_store-IsSafe sys laws kafka_laws store id sys.store.aclose
            (λ st. laws.close_kept id st))))

  stopped-Safe : (s : Service sys) → SafeService s → SafeService (stopped sys s)
  unfolding stopped
  stopped-Safe s h = Keeps-at clean_up-Safe s.poll h

  -- From its start on an empty client and any cursor store, through any number of polls, whether
  -- they return or raise, and any waits between them, also where an exception of the last poll ends
  -- the loop, and after the clean-up at its stop: the marker of every id is the one that the process
  -- found at its start, or has expired, or the broker has acknowledged a raw message of that id.
  pub stopped-markers :
      (env : sys.Env) (s : Service sys)
      → Leaves sys (started sys env store) s
      → (Kept (laws.marker store id) (laws.marker (stopped sys s).poll.store id)
          ⊎ Acked kafka_laws (stopped sys s).poll.client id)
        × (Kept (laws.marker store id) (laws.marker s.poll.store id)
            ⊎ Acked kafka_laws s.poll.client id)
  stopped-markers env s runs =
      let safe = Leaves-Safe env s runs in ((stopped-Safe s safe).markers, safe.markers)
