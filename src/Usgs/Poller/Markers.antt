-- ===== src/Usgs/Poller/Markers.antt =====
-- A poll saves markers only of acknowledged events: the steps of the poll keep `IsSafe`.
pub mod Commit
use sentinel_chain.Base.{
  ℕ, String, ◌≡◌, ◌≢◌, ◌⊎◌, inl, inr, refl, true, false, Option, List, All, arith, Bool-cases,
  str_eq, eq_iff,
}
use mathlib.Core.Path.{subst}
use sentinel_chain.Base.Int.{ℤ}
use sentinel_chain.Base.Result.{Result, ok, err, Result-cases}
use sentinel_chain.Base.Exec.{Exec, ◌>>=◌}
use sentinel_chain.Base.Exec.Hoare.{
  Holds, Triple, Triple-bind, Keeps, Keeps-of, Keeps-at, Keeps-if, Keeps-bind, Keeps-pure,
  Keeps-raise, Keeps-lift, Keeps-for_each,
}
use sentinel_chain.Base.Runtime.{Runtime}
use sentinel_chain.Base.Json.{Fields}
use sentinel_chain.Common.Kafka.{flush}
use sentinel_chain.Common.Kafka.Laws.{KafkaLaws, Acked, Speaks, flush-Acked, flush-Speaks}
use sentinel_chain.Usgs.Parser.{UsgsEvent, FeatureParseError, Gathered, parse_feed}
use sentinel_chain.Usgs.Cursor.Laws.{CursorLaws, Kept}
use sentinel_chain.Usgs.System.{
  Raised, System, Metrics, PollState, Poll, on_env, on_store, on_client, from_parse,
}
use sentinel_chain.Usgs.Producer.{contains, produce_event, produce_data_quality, flush_and_confirm}
use sentinel_chain.Usgs.Producer.Delivered.{on_deliveries-All, contains-acked}
use sentinel_chain.Usgs.Poller.{
  PollStats, Pending, count, report_error, accept_event, visit_event, confirm, save_cursor, commit,
  process_parsed, after_parse, process, after_fetch, poll_once,
}
use sentinel_chain.Usgs.Poller.Safety.{
  IsSafe, on_env-IsSafe, on_store-IsSafe, lasting, produce_event-IsSafe,
  produce_data_quality-IsSafe,
}
use sentinel_chain.Usgs.Poller.Markers.Commit.{commit-Safe}

module _ {R : Runtime} {X : Type 0} (sys : System R X) (laws : CursorLaws sys.store)
    (kafka_laws : KafkaLaws sys.kafka) (start : sys.store.State) (id : String) where
  abbrev pub Safe : PollState sys → Type 0
  Safe = IsSafe sys laws kafka_laws start id

  seen-Safe : (j : String) → Keeps Safe (on_store sys (sys.store.seen_marker j))
  seen-Safe j =
      on_store-IsSafe sys laws kafka_laws start id (sys.store.seen_marker j)
        (λ st. laws.seen_kept j id st)

  env-Safe : {A : Type 0} (m : sys.Env → A × sys.Env) → Keeps Safe (on_env sys m)
  env-Safe m = on_env-IsSafe sys laws kafka_laws start id m

  count-Safe : (f : Metrics R → Metrics R) → Keeps Safe (count sys f)
  unfolding count
  count-Safe f = record { at = λ s h. record { markers = h.markers; confirmed = h.confirmed } }

  event-Safe : (e : UsgsEvent R) → Keeps Safe (produce_event sys e)
  event-Safe e = produce_event-IsSafe sys laws kafka_laws start id e

  quality-Safe :
      (o : Option String) (reasons : List String) (raw : Option (Fields R.Float))
      → Keeps Safe (produce_data_quality sys o reasons raw)
  quality-Safe o reasons raw =
      produce_data_quality-IsSafe sys laws kafka_laws start id o reasons raw

  ruleset poll_rules = (
    Keeps-bind, Keeps-pure, Keeps-raise, Keeps-lift, Keeps-if, seen-Safe, env-Safe, count-Safe,
    event-Safe, quality-Safe,
  )

  report_error-Safe :
      (e : FeatureParseError R.Float) (st : PollStats) → Keeps Safe (report_error sys e st)
  unfolding report_error
  report_error-Safe e st = search poll_rules

  accept_event-Safe :
      (e : UsgsEvent R) (acc : PollStats × List Pending) → Keeps Safe (accept_event sys e acc)
  unfolding accept_event
  accept_event-Safe e (st, pending) = search poll_rules depth 9

  visit_event-Safe :
      (now : R.Datetime) (e : UsgsEvent R) (acc : PollStats × List Pending)
      → Keeps Safe (visit_event sys now e acc)
  unfolding visit_event
  visit_event-Safe now e (st, pending) = search (poll_rules, accept_event-Safe) depth 9

  process_parsed-Safe : (gathered : Gathered R) → Keeps Safe (process_parsed sys gathered)
  unfolding process_parsed
  process_parsed-Safe (events, errors) =
      search (poll_rules, Keeps-for_each, report_error-Safe, visit_event-Safe, commit-Safe) depth 9

  after_parse-Safe : (r : Result (Raised R X) (Gathered R)) → Keeps Safe (after_parse sys r)
  unfolding after_parse
  after_parse-Safe (ok gathered) = process_parsed-Safe gathered
  after_parse-Safe (err e) = search poll_rules

  process-Safe : (body : Fields R.Float) → Keeps Safe (process sys body)
  unfolding process
  process-Safe body = after_parse-Safe (from_parse (parse_feed R body))

  after_fetch-Safe : (r : Result X (Fields R.Float)) → Keeps Safe (after_fetch sys r)
  unfolding after_fetch
  after_fetch-Safe (ok body) = process-Safe body
  after_fetch-Safe (err x) = search poll_rules

  pub poll_once-Safe : Keeps Safe (poll_once sys)
  unfolding poll_once
  poll_once-Safe = search (poll_rules, after_fetch-Safe)

-- After a poll that began with only acknowledged ids in the delivered set, however it ends, the
-- marker of every id is the one before, or has expired, or the broker has acknowledged a raw
-- message of that id.
pub poll_once-markers :
    {R : Runtime} {X : Type 0} (sys : System R X) (laws : CursorLaws sys.store)
    (kafka_laws : KafkaLaws sys.kafka) (id : String) (s : PollState sys)
    → All (Acked kafka_laws s.client) s.delivered
    → Kept (laws.marker s.store id) (laws.marker (poll_once sys s).1.store id)
      ⊎ Acked kafka_laws (poll_once sys s).1.client id
poll_once-markers sys laws kafka_laws id s h =
    (Keeps-at (poll_once-Safe sys laws kafka_laws s.store id) s
      (record { markers = inl (inl refl); confirmed = h })).markers
