-- ===== src/Probes/Tests.antt =====
-- The readiness of the sample process, and of a database that refuses its second connection.
use sentinel_chain.Base.{refl, ℕ, ◌+◌, String, ◌≡◌, ◌↔◌, ◌==◌, if◌then◌else◌}
use sentinel_chain.Base.Result.{ok, err}
use sentinel_chain.Samples.Clients.{sample_system, sample_state}
use sentinel_chain.Usgs.Poller.{poll_once, process, count}
use sentinel_chain.Usgs.Main.{Service, started, poll_round, wait}
use sentinel_chain.Simulator.Connection.{Sqlalchemy, select_one}
use sentinel_chain.Base.Int.{◌+ℤ◌}
use sentinel_chain.Base.Exec.{◌>>=◌, for_each}
use sentinel_chain.Base.Dict.{lookup}
use sentinel_chain.Common.Kafka.{produce, flush}
use sentinel_chain.Usgs.Parser.{parse_feed}
use sentinel_chain.Usgs.Quality.{check_event}
use sentinel_chain.Usgs.Event.{source_version, payload_hash}
use sentinel_chain.Usgs.Producer.{produce_event, produce_data_quality, flush_and_confirm}
use sentinel_chain.Probes.Services.{usgs_get, simulator_get, Returned, IsReady-Returned}

-- An engine that counts its connections.
abbrev one_connection : Sqlalchemy String
one_connection = record {
  Engine = ℕ;
  Connection = ℕ;
  create_engine = λ url options. ok 0;
  connect = λ n. (if n == 0 then ok n else err "too many connections", n + 1);
  execute = λ conn sql n. (ok tt, n);
  close = λ conn n. (ok tt, n);
}

abbrev at_start : Service sample_system
at_start = started sample_system 0 sample_state.store

IsReady-Returned_example :
    ((usgs_get sample_system "/health/ready" at_start).0.code ≡ 503)
    × ((((usgs_get sample_system "/health/ready"
              (wait sample_system (λ n. n) (poll_round sample_system at_start))).0.code
            ≡ 200)
          ↔ Returned (poll_once sample_system at_start.poll).0)
        × (((simulator_get one_connection "/health/ready" 0).0.code ≡ 200)
            ↔ Returned (select_one one_connection 0).0))
unfolding poll_once process parse_feed ◌>>=◌ count for_each produce_data_quality produce check_event
    ◌+ℤ◌ source_version payload_hash lookup produce_event flush_and_confirm flush
IsReady-Returned_example =
    IsReady-Returned sample_system one_connection 0 sample_state.store at_start (λ n. n) 0 refl
