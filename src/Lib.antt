-- ===== src/Lib.antt =====
-- Verification library of SentinelChain, the Python services that turn earthquake reports and
-- supply-chain rows into streams of events.
--
-- libs/common holds what the services share, in libs/common/src/sentinelchain_common/. The circuit
-- breaker, the retry policy and the operation ids (resilience.py) are Resilience. The UTC times
-- (time.py), the event envelope (envelope.py), its mapping to Avro records and the serializer
-- classes (avro.py, the classes in Common.Avro.Codec), the envelope producer over Kafka (kafka.py),
-- the health registry (health.py), the LLM providers (llm.py) and the settings of all three
-- packages (config.py of each, in Common.Settings) are Common.
--
-- services/ingestion-usgs polls the USGS feed: its parser, quality checks, cursor stores, raw event
-- producer, poller, feed client and loop (services/ingestion-usgs/src/ingestion_usgs/, one file
-- each, the loop in main.py) are the modules of Usgs with the same names; the methods of UsgsEvent
-- are Usgs.Event, and Usgs.System holds the state of the process and what it uses of other
-- software.
--
-- services/supply-chain-simulator changes an operational database tick by tick. In
-- services/supply-chain-simulator/src/supply_chain_simulator/ its rows (models.py) are
-- Simulator.Models and the tables of these rows' classes Simulator.Schema.Metadata; its decision
-- functions and its class Simulator (simulator.py) are Simulator.Decisions and Simulator.Tick; its
-- demo scenario (seed.py), its engine (db.py) and its loop (main.py) are Simulator.Seed,
-- Simulator.Connection and Simulator.Main. The first migration
-- (services/supply-chain-simulator/migrations/versions/0001_initial_schema.py) is
-- Simulator.Migration, over the table definitions of Simulator.Schema. The health servers of both
-- services (health.py of each) are Probes.
--
-- Base holds shared names, results, code that changes a state and may raise (Base.Exec) and triples
-- for it. Samples holds instances of the parameters that compute, for the modules of tests.
--
-- Definitions keep the names of the functions, without a leading underscore: `_allow` is `allow`,
-- `Poller._process` is `Usgs.Poller.process`. A method is a function of the state that its object
-- keeps; `record` of a cursor store is `record_marker`, the state OPEN is `opened`, and the
-- argument of a callback that adds an id to a set is that id. The body of a `for` loop is a
-- definition of its own, and so is the block of a test where a proof speaks of it. Exceptions are
-- values, and a state that was changed before an exception stays changed.
--
-- A text is a list of Unicode scalar values, so its encoding in UTF-8 does not raise: Python's
-- texts with lone surrogates are outside the model.
--
-- Floats, dates and their texts are the record Base.Runtime, about which nothing is assumed: a
-- theorem that needs a law of them has it as a hypothesis. Kafka and its registry client, Redis,
-- the HTTP client, the engine of the database, its table operations and transactions, the random
-- generator, JSON texts, hashes, clocks and ids are parameters too. What the code relies on of
-- them are records of laws: KafkaLaws and KafkaDelivers of the Kafka client, WireLaws of the
-- registry's serializers, CursorLaws of a cursor store, RedisLaws of Redis, DdlLaws of the table
-- operations, SampleLaws of a random sample, ValidationLaws of pydantic; Reliable says that the
-- clients of a poll do not raise from a sound store, whose cursors convert to floats. Each has
-- an instance in Samples or in a module of tests.
--
-- Natural numbers are native, and integers are unbounded as Python's are. A retried call is
-- recursion on the attempts that are left, which start at the maximum, so no other fuel is needed.
-- The loops of the two processes are the relations Usgs.Main.Runs and Simulator.Main.Ticks over
-- any number of rounds, Usgs.Main.Leaves and Simulator.Main.Main the ways to leave them; every
-- other loop is over a list.
--
-- An await is a step of the state. Two calls through one breaker may overlap, so a call is also
-- split at its await in two halves, which a history interleaves; everything else runs alone in its
-- process, and the answers of a health server are functions of the state at the request.
--
-- Not modelled: log lines, latency histograms, tracing and the metrics server, which are single
-- calls of other packages without a result; the sockets and threads of the health servers, the
-- signal handlers, and the reading of settings from the environment, which pydantic and the
-- standard library do; the bytes of Avro; the offline mode of the migrations, which prints their
-- statements; the Flink jobs, the SQL, the scripts and the dashboards, which are not Python
-- services.
pub mod Base
pub mod Resilience
pub mod Usgs
pub mod Common
pub mod Probes
pub mod Simulator
pub mod Samples
