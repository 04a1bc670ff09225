-- ===== src/Usgs/Poller.antt =====
-- `Poller` of services/ingestion-usgs/src/ingestion_usgs/poller.py. The logs and the latency
-- histogram are left out.
use sentinel_chain.Base.{
  ℕ, zero, ◌+◌, String, str_eq, Bool, true, false, ◌&&◌, Option, none, some, List, [], ◌∷◌, ◌++◌,
  if◌then◌else◌, length, ◌==◌, not,
}
use sentinel_chain.Base.Int.{ℤ, pos, negsuc, max_ℤ}
use sentinel_chain.Base.Result.{Result, ok, err}
use sentinel_chain.Base.Exec.{Exec, pure, raise, gets, lift, modify, ◌>>=◌, ◌>>◌, for_each}
use sentinel_chain.Base.Runtime.{Runtime, value_error}
use sentinel_chain.Base.Json.{Fields}
use sentinel_chain.Usgs.Parser.{UsgsEvent, FeatureParseError, Gathered, parse_feed}
use sentinel_chain.Usgs.Event.{source_version, payload, payload_hash}
use sentinel_chain.Usgs.Quality.{check_event}
use sentinel_chain.Usgs.Cursor.{marker_for}
use sentinel_chain.Usgs.System.{
  Raised, external, std, feature, System, Metrics, PollState, Poll, from_outside, from_std,
  from_parse, on_env, on_store,
}
use sentinel_chain.Usgs.Producer.{contains, produce_event, produce_data_quality, flush_and_confirm}
pub mod Account
pub mod Safety
pub mod Markers
pub mod Dedup
pub mod Again
pub mod Reliable
pub mod Returns
pub mod Queue
pub mod Complete
pub mod Failure
mod Tests

pub record PollStats : Type 0 where
  pub fetched : ℕ
  pub produced : ℕ
  pub duplicates : ℕ
  pub invalid : ℕ
  pub undelivered : ℕ

-- `PollStats(fetched=n)`
abbrev pub start_stats : ℕ → PollStats
start_stats n = record { fetched = n; produced = 0; duplicates = 0; invalid = 0; undelivered = 0 }

abbrev pub is_empty {ℓ} : {A : Type ℓ} → List A → Bool
is_empty [] = true
is_empty (x ∷ xs) = false

abbrev pub is_zero_ℤ : ℤ → Bool
is_zero_ℤ (pos n) = n == 0
is_zero_ℤ (negsuc n) = false

-- `cursor or 0`
abbrev pub or_zero : Option ℤ → ℤ
or_zero none = pos 0
or_zero (some n) = n

-- `seen == marker`
abbrev pub is_marker : Option String → String → Bool
is_marker none marker = false
is_marker (some seen) marker = str_eq seen marker

-- A produced event that waits for its acknowledgement: its id, marker and update time.
abbrev pub Pending : Type 0
Pending = String × String × ℤ

-- `FeatureParseError` is a `ValueError`.
abbrev pub is_value_error : {R : Runtime} {X : Type 0} → Raised R X → Bool
is_value_error (feature e) = true
is_value_error (std value_error) = true
is_value_error _ = false

module _ {R : Runtime} {X : Type 0} (sys : System R X) where
  -- `counter.inc(…)` and `gauge.set(…)`
  unfoldable pub count : (Metrics R → Metrics R) → Poll sys (Unit {0})
  count f = modify (λ s. record s { metrics = f s.metrics })

  -- the body of the loop over the parse errors
  unfoldable pub report_error : FeatureParseError R.Float → PollStats → Poll sys PollStats
  report_error e stats = do
    produce_data_quality sys e.source_event_id (sys.show_message e.message ∷ []) none
    pure (record stats { invalid = stats.invalid + 1 })

  reject_event :
      UsgsEvent R → List String → PollStats × List Pending → Poll sys (PollStats × List Pending)
  reject_event event reasons (stats, pending) = do
    body ← lift (from_std (payload R event))
    produce_data_quality sys (some event.source_event_id) reasons (some body)
    pure (record stats { invalid = stats.invalid + 1 }, pending)

  -- `int(event.updated_time.timestamp() * 1000)`
  abbrev pub updated_ms : UsgsEvent R → ℤ
  updated_ms event = R.trunc (R.mul_f (R.timestamp event.updated_time) (R.lit (pos 1000) 0))

  produce_new :
      UsgsEvent R → String → PollStats × List Pending → Poll sys (PollStats × List Pending)
  produce_new event marker (stats, pending) = do
    produce_event sys event
    pure (stats, pending ++ (event.source_event_id, marker, updated_ms event) ∷ [])

  accept_event : UsgsEvent R → PollStats × List Pending → Poll sys (PollStats × List Pending)
  unfolding produce_new
  accept_event event (stats, pending) = do
    version ← lift (from_std (source_version R event))
    hash ← lift (from_std (payload_hash R sys.dumps sys.sha256 event))
    let marker = marker_for version hash
    seen ← on_store sys (sys.store.seen_marker event.source_event_id)
    if is_marker seen marker
        then pure (record stats { duplicates = stats.duplicates + 1 }, pending)
        else produce_new event marker (stats, pending)

  -- the body of the loop over the events
  unfoldable pub visit_event :
      R.Datetime → UsgsEvent R → PollStats × List Pending → Poll sys (PollStats × List Pending)
  unfolding reject_event accept_event
  visit_event now event acc =
      let reasons = check_event R event now sys.future_tolerance in
      if is_empty reasons then accept_event event acc else reject_event event reasons acc

  -- the body of the loop over the pending events
  unfoldable pub confirm : List String → Pending → PollStats × ℤ → Poll sys (PollStats × ℤ)
  confirm delivered (id, marker, updated) (stats, newest) =
      if contains id delivered
      then (do
        on_store sys (sys.store.record_marker id marker)
        pure (record stats { produced = stats.produced + 1 }, max_ℤ newest updated))
      else pure (stats, newest)

  -- the end of the last block
  pub save_cursor : R.Datetime → ℤ → Poll sys (Unit {0})
  save_cursor now newest = if is_zero_ℤ newest then pure tt else (do
    on_store sys (sys.store.set_cursor_ms newest)
    x ← lift (from_std (R.of_int newest))
    count (λ m. record m {
      cursor_lag = some (R.sub_f (R.timestamp now) (R.div_f x (R.lit (pos 1000) 0)));
    }))

  -- the block under `if pending or stats.invalid`
  unfoldable pub commit : R.Datetime → PollStats → List Pending → Poll sys PollStats
  unfolding confirm save_cursor
  commit now stats pending = do
    outcome ← flush_and_confirm sys
    cursor ← on_store sys sys.store.get_cursor_ms
    result ←
        for_each (confirm outcome.0) pending
          (record stats { undelivered = outcome.1 }, or_zero cursor)
    count (λ m. record m { records_produced_total = m.records_produced_total + result.0.produced })
    save_cursor now result.1
    pure result.0

  -- `_process`, once the feed is parsed
  unfoldable pub process_parsed : Gathered R → Poll sys PollStats
  unfolding report_error visit_event commit
  process_parsed (events, errors) = do
    let fetched = length events + length errors
    count (λ m. record m { records_fetched_total = m.records_fetched_total + fetched })
    stats ← for_each report_error errors (start_stats fetched)
    now ← on_env sys sys.utcnow
    visited ← for_each (visit_event now) events (stats, [])
    count (λ m. record m {
      records_invalid_total = m.records_invalid_total + visited.0.invalid;
      records_duplicate_total = m.records_duplicate_total + visited.0.duplicates;
    })
    if is_empty visited.1 && (visited.0.invalid == 0)
        then pure visited.0
        else commit now visited.0 visited.1

  abbrev pub count_failure : Poll sys (Unit {0})
  count_failure = count (λ m. record m { poll_failure_total = m.poll_failure_total + 1 })

  after_parse : Result (Raised R X) (Gathered R) → Poll sys PollStats
  unfolding process_parsed
  after_parse (ok gathered) = process_parsed gathered
  after_parse (err e) = if is_value_error e then count_failure >> raise e else raise e

  -- `_process`
  unfoldable pub process : Fields R.Float → Poll sys PollStats
  unfolding after_parse
  process body = after_parse (from_parse (parse_feed R body))

  after_fetch : Result X (Fields R.Float) → Poll sys PollStats
  unfolding process
  after_fetch (ok body) = process body
  after_fetch (err x) =
      if sys.is_exception x then count_failure >> raise (external x) else raise (external x)

  -- `poll_once`
  unfoldable pub poll_once : Poll sys PollStats
  unfolding after_fetch
  poll_once = do
    count (λ m. record m { poll_total = m.poll_total + 1 })
    fetched ← on_env sys sys.fetch_feed
    after_fetch fetched
