-- ===== src/Usgs/Main.antt =====
-- The loop of services/ingestion-usgs/src/ingestion_usgs/main.py.
pub mod Lifetime
use sentinel_chain.Base.{ℕ, String, ◌≡◌, Bool, true, false, ◌&&◌, Option, none, [], if◌then◌else◌}
use sentinel_chain.Base.Result.{Result, ok, err}
use sentinel_chain.Base.Runtime.{Runtime}
use sentinel_chain.Base.Exec.{lift, ◌>>=◌, ◌>>◌}
use sentinel_chain.Usgs.System.{
  Raised, external, System, Metrics, PollState, Poll, from_outside, on_env, on_store,
}
use sentinel_chain.Usgs.Producer.{flush_and_confirm}
use sentinel_chain.Usgs.Poller.{PollStats, poll_once}

-- The process: the state of its poller, the flag that the readiness probe reads, and the gauge
-- `ingestion_usgs_up`.
pub record Service {R : Runtime} {X : Type 0} (sys : System R X) : Type 0 where
  pub poll : PollState sys
  pub is_ready : Bool
  pub up : Bool

module _ {R : Runtime} {X : Type 0} (sys : System R X) where
  abbrev no_metrics : Metrics R
  no_metrics = record {
    poll_total = 0;
    poll_failure_total = 0;
    records_fetched_total = 0;
    records_produced_total = 0;
    records_duplicate_total = 0;
    records_invalid_total = 0;
    cursor_lag = none;
  }

  -- before the loop
  abbrev pub started : sys.Env → sys.store.State → Service sys
  started env store = record {
    poll = record { env = env; client = none; delivered = []; store = store; metrics = no_metrics };
    is_ready = false;
    up = true;
  }

  -- Whether the loop goes on: the poll returned, or raised an `Exception`.
  abbrev pub is_caught : Result (Raised R X) PollStats → Bool
  is_caught (err (external x)) = sys.is_exception x
  is_caught _ = true

  -- The flag after the poll: an exception that is not caught leaves it as it was.
  abbrev pub ready_after : Result (Raised R X) PollStats → Bool → Bool
  ready_after (ok stats) before = true
  ready_after (err e) before = if is_caught (err e) then false else before

  -- the inner `try` statement: an `Exception` of the poll is logged and dropped
  unfoldable pub poll_round : Service sys → Service sys
  poll_round service =
      let (r, poll) = poll_once sys service.poll in
      record service { poll = poll; is_ready = ready_after r service.is_ready }

  -- the wait between two polls, which leaves another environment
  abbrev pub wait : (sys.Env → sys.Env) → Service sys → Service sys
  wait pass service = record service { poll = record service.poll { env = pass service.poll.env } }

  -- The states at the head of the loop: any number of rounds may pass before the stop event is set.
  pub data Runs (start : Service sys) : Service sys → Type 0 where
    here : Runs start start
    round :
        {s : Service sys} (pass : sys.Env → sys.Env)
        → Runs start s
        → is_caught (poll_once sys s.poll).0 ≡ true
        → Runs start (wait pass (poll_round s))

  -- The states in which the loop is left: at its head, where the stop event is set or the last
  -- wait was cancelled, or by an exception of the poll that is not caught.
  pub data Leaves (start : Service sys) : Service sys → Type 0 where
    at_head : {s : Service sys} → Runs start s → Leaves start s
    escaped :
        {s : Service sys}
        → Runs start s
        → is_caught (poll_once sys s.poll).0 ≡ false
        → Leaves start (poll_round s)

  -- the `finally` block, but for its last statement
  unfoldable pub clean_up : Poll sys (Unit {0})
  clean_up = do
    flush_and_confirm sys
    closed ← on_env sys sys.close_client
    lift (from_outside closed)
    on_store sys sys.store.aclose

  abbrev pub still_up : Result (Raised R X) (Unit {0}) → Bool
  still_up (ok u) = false
  still_up (err e) = true

  -- the `finally` block: if it raises before its end, the gauge is not reset
  unfoldable pub stopped : Service sys → Service sys
  stopped service =
      let (r, poll) = clean_up service.poll in
      record service { poll = poll; up = service.up && still_up r }
