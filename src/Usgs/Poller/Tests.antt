-- ===== src/Usgs/Poller/Tests.antt =====
-- Polls of the sample process that end well, and that fail.
use sentinel_chain.Base.{String, ◌≡◌, none}
use sentinel_chain.Base.Result.{err}
use sentinel_chain.Samples.{micro}
use sentinel_chain.Samples.Clients.{sample_feature, sample_system, sample_state}
use sentinel_chain.Usgs.System.{System, PollState}
use sentinel_chain.Usgs.Poller.{process, poll_once}
use sentinel_chain.Base.Int.{ℤ}
use sentinel_chain.Base.Json.{Fields, Items, arr, obj, cons, nil, field, end}
use sentinel_chain.Usgs.Poller.Failure.{poll_once-counts}

-- The feed is down.
abbrev down : System micro String
down = record sample_system { fetch_feed = λ n. (err "timeout", n) }

abbrev down_state : PollState down
down_state = record {
  env = 0;
  client = none;
  delivered = sample_state.delivered;
  store = sample_state.store;
  metrics = sample_state.metrics;
}

poll_once-counts_example :
    ((poll_once down down_state).1.metrics.poll_total ≡ 1)
    × ((poll_once down down_state).1.metrics.poll_failure_total ≡ 1)
poll_once-counts_example = poll_once-counts down down_state

-- A feed of one feature, polled twice.
abbrev one_item : Items ℤ
one_item = cons (obj sample_feature) nil

abbrev one_feature : Fields ℤ
one_feature = field "features" (arr one_item) end

abbrev polled : PollState sample_system
polled = (process sample_system one_feature sample_state).1
