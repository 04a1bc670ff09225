-- ===== src/Usgs/Poller/Failure.antt =====
-- Which polls count as failures, however they end.
use sentinel_chain.Base.{
  ℕ, ◌+◌, ◌≡◌, refl, Bool, true, false, Option, List, String, if◌then◌else◌, Bool-cases, inl, inr,
}
use sentinel_chain.Base.Int.{ℤ}
use sentinel_chain.Base.Result.{Result, ok, err}
use sentinel_chain.Base.Exec.{Exec, ◌>>=◌}
use sentinel_chain.Base.Exec.Hoare.{
  Keeps, Keeps-of, Keeps-at, Keeps-if, Keeps-bind, Keeps-pure, Keeps-raise, Keeps-lift,
  Keeps-for_each,
}
use sentinel_chain.Base.Runtime.{Runtime, value_error, overflow_error, os_error}
use sentinel_chain.Base.Json.{Fields}
use sentinel_chain.Usgs.Parser.{
  UsgsEvent, FeatureParseError, Gathered, ParseRaise, parse_error, std, parse_feed,
}
use sentinel_chain.Usgs.System.{
  System, Metrics, PollState, on_env, on_store, on_client, on_wire, from_parse,
}
use sentinel_chain.Usgs.Producer.{produce_event, produce_data_quality, flush_and_confirm}
use sentinel_chain.Usgs.Poller.{
  PollStats, Pending, count, report_error, visit_event, confirm, commit, save_cursor,
  process_parsed, after_parse, process, after_fetch, poll_once,
}

module _ {R : Runtime} {X : Type 0} (sys : System R X) where
  -- Python's classes: `FeatureParseError` is a `ValueError`, and the errors of a timestamp beyond
  -- the dates, or of an integer beyond the floats, are not.
  abbrev pub parse_fails : Result (ParseRaise R.Float) (Gathered R) → Bool
  parse_fails (ok gathered) = false
  parse_fails (err (parse_error e)) = true
  parse_fails (err (std value_error)) = true
  parse_fails (err (std overflow_error)) = false
  parse_fails (err (std os_error)) = false

  -- Whether a poll failed to fetch or to parse.
  abbrev pub fails : Result X (Fields R.Float) → Bool
  fails (ok body) = parse_fails (parse_feed R body)
  fails (err x) = sys.is_exception x

  module _ (total failures : ℕ) where
    -- the two counters
    abbrev IsCounted : Metrics R → Type 0
    IsCounted m = (m.poll_total ≡ total) × (m.poll_failure_total ≡ failures)

    abbrev Counted : PollState sys → Type 0
    Counted s = IsCounted s.metrics

    on_env-Counted : {A : Type 0} (m : sys.Env → A × sys.Env) → Keeps Counted (on_env sys m)
    on_env-Counted m = record { at = λ s h. h }

    on_store-Counted : {A : Type 0} (m : Exec X sys.store.State A) → Keeps Counted (on_store sys m)
    on_store-Counted m = Keeps-of (on_store sys m) (λ s h. h)

    on_client-Counted :
        {A : Type 0} (m : Exec X (Option sys.kafka.Client) A) → Keeps Counted (on_client sys m)
    on_client-Counted m = Keeps-of (on_client sys m) (λ s h. h)

    on_wire-Counted :
        {A : Type 0} (m : Exec X (Option sys.kafka.Client × sys.Env) A)
        → Keeps Counted (on_wire sys m)
    on_wire-Counted m = Keeps-of (on_wire sys m) (λ s h. h)

    count-Counted :
        (f : Metrics R → Metrics R)
        → ((m : Metrics R) → IsCounted m → IsCounted (f m))
        → Keeps Counted (count sys f)
    unfolding count
    count-Counted f keeps = record { at = λ s h. keeps s.metrics h }

    ruleset counted_rules =
        (Keeps-bind, Keeps-pure, Keeps-raise, Keeps-lift, Keeps-if, on_env-Counted)

    produce_event-Counted : (e : UsgsEvent R) → Keeps Counted (produce_event sys e)
    unfolding produce_event
    produce_event-Counted e = search (counted_rules, on_wire-Counted) depth 12

    produce_data_quality-Counted :
        (o : Option String) (reasons : List String) (raw : Option (Fields R.Float))
        → Keeps Counted (produce_data_quality sys o reasons raw)
    unfolding produce_data_quality
    produce_data_quality-Counted o reasons raw = search (counted_rules, on_wire-Counted) depth 12

    flush_and_confirm-Counted : Keeps Counted (flush_and_confirm sys)
    unfolding flush_and_confirm
    flush_and_confirm-Counted =
        Keeps-bind _ _ (on_client-Counted _) (λ out. unfold ◌>>=◌ in record { at = λ s h. h })

    report_error-Counted :
        (e : FeatureParseError R.Float) (st : PollStats) → Keeps Counted (report_error sys e st)
    unfolding report_error
    report_error-Counted e st = search (counted_rules, produce_data_quality-Counted)

    seen-Counted : (id : String) → Keeps Counted (on_store sys (sys.store.seen_marker id))
    seen-Counted id = on_store-Counted (sys.store.seen_marker id)

    visit_event-Counted :
        (now : R.Datetime) (e : UsgsEvent R) (acc : PollStats × List Pending)
        → Keeps Counted (visit_event sys now e acc)
    unfolding visit_event
    visit_event-Counted now e (st, pending) =
        search (counted_rules, produce_event-Counted, produce_data_quality-Counted, seen-Counted)
          depth 10

    confirm-Counted :
        (delivered : List String) (p : Pending) (acc : PollStats × ℤ)
        → Keeps Counted (confirm sys delivered p acc)
    unfolding confirm
    confirm-Counted delivered (id, marker, updated) (st, newest) =
        Keeps-if _ _ _
          (Keeps-bind _ _ (on_store-Counted (sys.store.record_marker id marker))
            (λ u. Keeps-pure _))
          (Keeps-pure _)

    save_cursor-Counted :
        (now : R.Datetime) (newest : ℤ) → Keeps Counted (save_cursor sys now newest)
    unfolding save_cursor
    save_cursor-Counted now newest = Keeps-if _ _ _ (Keeps-pure tt) (
        Keeps-bind _ _ (on_store-Counted (sys.store.set_cursor_ms newest))
          (λ u. Keeps-bind _ _ (Keeps-lift _) (λ x. count-Counted _ (λ m h. h))))

    commit-Counted :
        (now : R.Datetime) (st : PollStats) (pending : List Pending)
        → Keeps Counted (commit sys now st pending)
    unfolding commit
    commit-Counted now st pending = Keeps-bind _ _ flush_and_confirm-Counted (λ outcome.
        Keeps-bind _ _ (on_store-Counted sys.store.get_cursor_ms) (λ cursor.
          Keeps-bind _ _ (Keeps-for_each _ (confirm-Counted outcome.0) pending _) (λ result.
            Keeps-bind _ _ (count-Counted _ (λ m h. h)) (λ u.
              Keeps-bind _ _ (save_cursor-Counted now result.1) (λ u'. Keeps-pure result.0)))))

    process_parsed-Counted : (gathered : Gathered R) → Keeps Counted (process_parsed sys gathered)
    unfolding process_parsed
    process_parsed-Counted (events, errors) = Keeps-bind _ _ (count-Counted _ (λ m h. h)) (λ u.
        Keeps-bind _ _ (Keeps-for_each _ report_error-Counted errors _) (λ (st : PollStats).
          Keeps-bind _ _ (on_env-Counted sys.utcnow) (λ now.
            Keeps-bind _ _ (Keeps-for_each _ (visit_event-Counted now) events _) (λ visited.
              Keeps-bind _ _ (count-Counted _ (λ m h. h)) (λ u'.
                Keeps-if _ _ _ (Keeps-pure visited.0) (commit-Counted now visited.0 visited.1))))))

  after_parse-Counted :
      (total failures : ℕ) (r : Result (ParseRaise R.Float) (Gathered R)) (s : PollState sys)
      → IsCounted total failures s.metrics
      → IsCounted total
          (if parse_fails r then failures + 1 else failures)
          (after_parse sys (from_parse r) s).1.metrics
  unfolding after_parse count ◌>>=◌
  after_parse-Counted total failures (ok gathered) s h =
      Keeps-at (process_parsed-Counted total failures gathered) s h
  after_parse-Counted total failures (err (parse_error e)) s h = (h.0, λ i. h.1 i + 1)
  after_parse-Counted total failures (err (std value_error)) s h = (h.0, λ i. h.1 i + 1)
  after_parse-Counted total failures (err (std overflow_error)) s h = h
  after_parse-Counted total failures (err (std os_error)) s h = h

  after_fetch-Counted :
      (total failures : ℕ) (r : Result X (Fields R.Float)) (s : PollState sys)
      → IsCounted total failures s.metrics
      → IsCounted total (if fails r then failures + 1 else failures) (after_fetch sys r s).1.metrics
  unfolding after_fetch process count ◌>>=◌
  after_fetch-Counted total failures (ok body) s h =
      after_parse-Counted total failures (parse_feed R body) s h
  after_fetch-Counted total failures (err x) s h = elim (Bool-cases (sys.is_exception x)) [
    | inl counted ↦ rw counted (h.0, λ i. h.1 i + 1)
    | inr not_counted ↦ rw not_counted h
  ]

  -- However a poll ends, it counts one poll; and it counts one failure if the fetch raised an
  -- `Exception` or the parse raised `FeatureParseError` or `ValueError`, and none otherwise,
  -- whatever the later calls of Kafka and of the store raise.
  pub poll_once-counts :
      (s : PollState sys)
      → ((poll_once sys s).1.metrics.poll_total ≡ s.metrics.poll_total + 1)
        × ((poll_once sys s).1.metrics.poll_failure_total ≡ (
            if fails (sys.fetch_feed s.env).0
            then s.metrics.poll_failure_total + 1
            else s.metrics.poll_failure_total))
  unfolding poll_once count ◌>>=◌
  poll_once-counts s =
      after_fetch-Counted (s.metrics.poll_total + 1) s.metrics.poll_failure_total
        (sys.fetch_feed s.env).0
        (record s {
          env = (sys.fetch_feed s.env).1;
          metrics = record s.metrics { poll_total = s.metrics.poll_total + 1 };
        })
        (refl, refl)
