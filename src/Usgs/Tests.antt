-- ===== src/Usgs/Tests.antt =====
-- Runs of the ingestion service's theorems on a feed of two features.
use sentinel_chain.Base.{
  ℕ, false, ltb, if◌then◌else◌, arith, ◌+◌, ◌≡◌, ◌↔◌, refl, ◌⊎◌, String, true, none, some, List, [],
  ◌∷◌,
}
use sentinel_chain.Base.Runtime.{value_error}
use sentinel_chain.Usgs.Parser.{std, UsgsEvent, parse_feature, parse_feed, or_std}
use sentinel_chain.Base.Json.{int, str, arr, obj, nil, cons, end, field, Fields}
use sentinel_chain.Base.Int.{ℤ, pos, negsuc, ◌+ℤ◌}
use sentinel_chain.Base.Result.{ok, err}
use sentinel_chain.Base.Exec.{for_each, ◌>>=◌}
use sentinel_chain.Base.Dict.{lookup, insert}
use sentinel_chain.Common.Kafka.{produce, flush}
use sentinel_chain.Common.Kafka.Laws.{Acked}
use sentinel_chain.Samples.{micro}
use sentinel_chain.Samples.Clients.{
  broker_laws, sample_feature, sample_items, sample_feed, sample_system, sample_state,
}
use sentinel_chain.Usgs.System.{PollState}
use sentinel_chain.Usgs.Parser.Ids.{Attributed, parse_feature-Attributed}
use sentinel_chain.Usgs.Parser.Feed.{described, aborted, parsed, rejected, parse_feed-described}
use sentinel_chain.Usgs.Event.{source_version, payload_hash}
use sentinel_chain.Usgs.Event.Feature.{feature_json, parse_feature-feature_json}
use sentinel_chain.Usgs.Quality.{check_event}
use sentinel_chain.Usgs.Quality.Valid.{IsAcceptable, check_event-IsAcceptable}
use sentinel_chain.Usgs.Cursor.{marker_for}
use sentinel_chain.Usgs.Cursor.Laws.{Kept, in_memory_laws}
use sentinel_chain.Usgs.Producer.{produce_event, produce_data_quality, flush_and_confirm}
use sentinel_chain.Usgs.Poller.{
  Pending, count, process, poll_once, confirm, visit_event, start_stats,
}
use sentinel_chain.Samples.Retries.{quiet_effects, three_attempts, quiet_pause}
use sentinel_chain.Resilience.Breaker.{fresh}
use sentinel_chain.Usgs.Client.{Http, UsgsClient, fetch_feed}
use sentinel_chain.Usgs.Client.Requests.{IsFetch, fetch_feed-IsFetch}
use sentinel_chain.Usgs.Main.{Service, started, poll_round, wait, here, round, at_head, stopped}
use sentinel_chain.Usgs.Main.Lifetime.{stopped-markers}
use sentinel_chain.Usgs.Poller.Account.{IsAccount, process-IsAccount}
use sentinel_chain.Usgs.Poller.Markers.{poll_once-markers}
use sentinel_chain.Usgs.Poller.Dedup.{with_memory, confirm_all-saved_marker, confirm_then_skip}

abbrev sample_event : UsgsEvent micro
sample_event = record {
  source_event_id = "us1";
  magnitude = some (pos 5200000);
  latitude = negsuc 29999999;
  longitude = negsuc 70999999;
  depth_km = none;
  place = some "Chile";
  event_time = (pos 1700000000000000, true);
  updated_time = (pos 1700000001000000, true);
  source_url = none;
}

sample_feature-parses : parse_feature micro sample_feature ≡ ok sample_event
unfolding parse_feature
sample_feature-parses = refl

parse_feature-Attributed_example :
    Attributed micro (some "us1") (parse_feature micro sample_feature)
parse_feature-Attributed_example = parse_feature-Attributed micro sample_feature

parse_feed-described_example :
    parse_feed micro sample_feed
    ≡ or_std (
        described micro
          (aborted micro sample_items)
          (parsed micro sample_items, rejected micro sample_items))
parse_feed-described_example = parse_feed-described micro sample_feed sample_items refl

parse_feature-feature_json_example :
    parse_feature micro
      (feature_json micro sample_event (pos 1700000000000000000) (pos 1700000001000000000))
    ≡ ok sample_event
parse_feature-feature_json_example =
    parse_feature-feature_json micro sample_event (pos 1700000000000000000)
      (pos 1700000001000000000) refl refl refl

check_event-IsAcceptable_example :
    (check_event micro sample_event (pos 1700000100000000, true) (pos 300000000) ≡ [])
    ↔ IsAcceptable micro sample_event (pos 1700000100000000, true) (pos 300000000)
check_event-IsAcceptable_example =
    check_event-IsAcceptable micro sample_event (pos 1700000100000000, true) (pos 300000000)

process-IsAccount_example : IsAccount 2 (record (start_stats 2) { produced = 1; invalid = 1 })
unfolding process parse_feed ◌>>=◌ count for_each produce_data_quality produce check_event ◌+ℤ◌
    source_version payload_hash lookup produce_event flush_and_confirm flush
process-IsAccount_example =
    process-IsAccount sample_system sample_feed sample_items sample_state
      (process sample_system sample_feed sample_state).1
      (record (start_stats 2) { produced = 1; invalid = 1 }) refl refl

poll_once-markers_example :
    Kept none (lookup "us1" (poll_once sample_system sample_state).1.store.markers)
    ⊎ Acked broker_laws (poll_once sample_system sample_state).1.client "us1"
unfolding lookup
poll_once-markers_example =
    poll_once-markers sample_system (in_memory_laws String) broker_laws "us1" sample_state tt

-- Two pending events of one id: an acknowledgement for the id saves the marker of the second.
abbrev two_pending : List Pending
two_pending = ("us1", "first", pos 1) ∷ ("us1", "second", pos 2) ∷ []

confirm_all-saved_marker_example :
    (acc' : _) × (s' : PollState (with_memory sample_system)) × (for_each
        (confirm (with_memory sample_system) ("us1" ∷ []))
        two_pending
        (start_stats 2, pos 0)
        sample_state
      ≡ (ok acc', s'))
    × (lookup "us1" s'.store.markers ≡ some "second")
unfolding lookup
confirm_all-saved_marker_example =
    confirm_all-saved_marker sample_system "us1" ("us1" ∷ []) two_pending (start_stats 2, pos 0)
      sample_state

confirm_then_skip_example :
    let s' =
      (confirm
        (with_memory sample_system)
        ("us1" ∷ [])
        ("us1", marker_for "1700000001000000" "hash of fields", pos 3)
        (start_stats 1, pos 0)
        sample_state).1 in
    visit_event
      (with_memory sample_system)
      (pos 1700000100000000, true)
      sample_event
      (start_stats 1, [])
      s'
    ≡ (ok (record (start_stats 1) { duplicates = 1 }, []), s')
unfolding check_event source_version payload_hash ◌+ℤ◌
confirm_then_skip_example =
    confirm_then_skip sample_system (pos 1700000100000000, true) sample_event ("us1" ∷ []) (pos 3)
      (pos 0) (start_stats 1) (start_stats 1) [] sample_state "1700000001000000" "hash of fields"
      refl refl refl refl

-- A world that counts the requests; the first two are refused.
abbrev counting_http : Http ℤ String ℕ
counting_http = record {
  Response = Fields ℤ;
  get = λ url n. (if ltb n 2 then err "refused" else ok sample_feed, n + 1);
  raise_for_status = λ response. ok tt;
  json = λ response. ok response;
  is_exception = λ e. true;
}

abbrev sample_client : UsgsClient micro String
sample_client = record {
  url = "feed";
  breaker = fresh 5 (pos 60000000) (λ e. false);
  retry = three_attempts;
}

fetch_feed-IsFetch_example :
    IsFetch
      (λ n. n)
      sample_client
      0
      (fetch_feed counting_http (quiet_effects micro) (λ n. pos 0) sample_client 0)
fetch_feed-IsFetch_example =
    fetch_feed-IsFetch counting_http (quiet_effects micro) (λ n. pos 0) (λ n. n) sample_client 0
      (λ url n. refl) (quiet_pause three_attempts) omega arith

-- The process polls twice and stops.
abbrev polled_twice : Service sample_system
polled_twice =
    wait sample_system (λ n. n + 1)
      (poll_round sample_system (
        wait sample_system (λ n. n)
          (poll_round sample_system (started sample_system 0 sample_state.store))))

stopped-markers_example :
    (Kept none (lookup "us1" (stopped sample_system polled_twice).poll.store.markers)
      ⊎ Acked broker_laws (stopped sample_system polled_twice).poll.client "us1")
    × (Kept none (lookup "us1" polled_twice.poll.store.markers)
        ⊎ Acked broker_laws polled_twice.poll.client "us1")
unfolding poll_once poll_round process parse_feed ◌>>=◌ count for_each produce_data_quality produce
    check_event ◌+ℤ◌ source_version payload_hash lookup produce_event flush_and_confirm flush insert
    marker_for
stopped-markers_example =
    stopped-markers sample_system (in_memory_laws String) broker_laws sample_state.store "us1" 0
      polled_twice (at_head (round (λ n. n + 1) (round (λ n. n) here refl) refl))

-- A feature whose time is beyond the dates ends the parse of the whole feed.
abbrev late_feature : Fields ℤ
late_feature = field "id" (str "us2") (
    field "properties"
      (obj
        (field "time" (int (pos 300000000000000)) (field "updated" (int (pos 1700000001000)) end)))
      (field "geometry"
        (obj (field "coordinates" (arr (cons (int (negsuc 70)) (cons (int (negsuc 29)) nil))) end))
        end))

late_feature-aborts :
    parse_feed micro
      (field "features" (arr (cons (obj sample_feature) (cons (obj late_feature) nil))) end)
    ≡ err (std value_error)
unfolding parse_feed
late_feature-aborts = refl
