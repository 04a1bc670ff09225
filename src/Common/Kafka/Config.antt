-- ===== src/Common/Kafka/Config.antt =====
-- The configurations of libs/common/src/sentinelchain_common/kafka.py that a client is made with.
use sentinel_chain.Base.{String, Bool, true, false, [], ◌∷◌}
use sentinel_chain.Base.Int.{ℤ, pos}
use sentinel_chain.Base.Dict.{Dict}
use sentinel_chain.Common.Settings.{BaseServiceSettings}

-- A value of a configuration.
pub data ConfigValue : Type 0 where
  text : String → ConfigValue
  number : ℤ → ConfigValue
  flag : Bool → ConfigValue

abbrev pub producer_config : BaseServiceSettings → Dict ConfigValue
producer_config settings =
    ("bootstrap.servers", text settings.kafka_bootstrap_servers)
    ∷ ("enable.idempotence", flag true)
    ∷ ("acks", text "all")
    ∷ ("max.in.flight.requests.per.connection", number (pos 5))
    ∷ ("retries", number (pos 2147483647))
    ∷ ("compression.type", text "zstd")
    ∷ ("linger.ms", number (pos 20))
    ∷ []

abbrev pub consumer_config : BaseServiceSettings → String → Dict ConfigValue
consumer_config settings group_id =
    ("bootstrap.servers", text settings.kafka_bootstrap_servers)
    ∷ ("group.id", text group_id)
    ∷ ("enable.auto.commit", flag false)
    ∷ ("auto.offset.reset", text "earliest")
    ∷ ("isolation.level", text "read_committed")
    ∷ []
