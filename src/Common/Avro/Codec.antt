-- ===== src/Common/Avro/Codec.antt =====
-- `load_schema` and the two serializer classes of libs/common/src/sentinelchain_common/avro.py,
-- over Confluent's client and the file system.
pub mod Contract
mod Tests
use sentinel_chain.Base.{String, Bool, true, false, Option, none, some, [], ◌∷◌, if◌then◌else◌}
use sentinel_chain.Base.Text.{concat}
use sentinel_chain.Base.Result.{Result, ok, err}
use sentinel_chain.Base.Exec.{Exec, raise, lift, pure, gets, ◌>>=◌, ◌>>◌}
use sentinel_chain.Base.Runtime.{Runtime, StdError, value_error}
use sentinel_chain.Base.Dict.{Dict}
use sentinel_chain.Common.Settings.{BaseServiceSettings}
use sentinel_chain.Common.Envelope.{EventEnvelope}
use sentinel_chain.Common.Avro.{Value, AvroError, Validation, envelope_to_avro, envelope_from_avro}

-- What these raise: `SchemaNotFoundError` with the topic and the path, a `ValueError` with its
-- text, what a mapping raised, or an exception of the library or of a file.
pub data CodecFault (X : Type 0) : Type 0 where
  schema_not_found : String → String → CodecFault X
  no_value : String → CodecFault X
  to_record : StdError → CodecFault X
  from_record : AvroError → CodecFault X
  outside : X → CodecFault X

-- The file system, and Confluent's classes: a registry's client, serializers and deserializers over
-- the text of a schema, called with a mapping, the topic and a value. A call works on the world
-- `World`, which holds the registry.
pub record Confluent (R : Runtime) (X : Type 0) : Type 1 where
  pub World : Type 0
  pub is_file : String → World → Bool
  pub read_text : String → Exec X World String
  -- `Path(directory) / name`
  pub join_path : String → String → String
  pub Client : Type 0
  -- `SchemaRegistryClient({"url": url})`
  pub connect : String → Result X Client
  pub Bytes : Type 0
  pub Serializer : Type 0
  pub Deserializer : Type 0
  -- with `auto.register.schemas` and `normalize.schemas`
  pub avro_serializer : Client → String → Bool → Bool → Exec X World Serializer
  pub avro_deserializer : Client → String → Exec X World Deserializer
  pub serialize :
      Serializer
      → (EventEnvelope R → Result StdError (Dict (Value R)))
      → String
      → EventEnvelope R
      → Exec (CodecFault X) World (Option Bytes)
  pub deserialize :
      Deserializer
      → (Dict (Value R) → Result AvroError (EventEnvelope R))
      → String
      → Bytes
      → Exec (CodecFault X) World (Option (EventEnvelope R))

module _ {R : Runtime} {X : Type 0} (lib : Confluent R X) where
  abbrev pub Codec : Type 0 → Type 0
  Codec A = Exec (CodecFault X) lib.World A

  abbrev pub from_outside : {A : Type 0} → Result X A → Result (CodecFault X) A
  from_outside (ok a) = ok a
  from_outside (err x) = err (outside x)

  abbrev pub on_world : {A : Type 0} → Exec X lib.World A → Codec A
  on_world m s = let (r, s') = m s in (from_outside r, s')

  abbrev pub schema_path : String → String → String
  schema_path topic directory = lib.join_path directory (concat (topic ∷ ".avsc" ∷ []))

  unfoldable pub load_schema : String → String → Codec String
  load_schema topic directory s =
      if lib.is_file (schema_path topic directory) s
      then on_world (lib.read_text (schema_path topic directory)) s
      else (err (schema_not_found topic (schema_path topic directory)), s)

  -- `client or schema_registry_client(settings)`
  abbrev pub client_or : Option lib.Client → BaseServiceSettings → Result (CodecFault X) lib.Client
  client_or (some client) settings = ok client
  client_or none settings = from_outside (lib.connect settings.schema_registry_url)

  -- `AvroEnvelopeSerializer`: its topic and the library's serializer
  pub record AvroEnvelopeSerializer : Type 0 where
    pub topic : String
    pub serializer : lib.Serializer

  unfoldable pub new_serializer :
      BaseServiceSettings → String → Option lib.Client → Codec AvroEnvelopeSerializer
  new_serializer settings topic client = do
    registry ← lift (client_or client settings)
    schema ← load_schema topic settings.avro_schema_dir
    serializer ←
        on_world (lib.avro_serializer registry schema settings.avro_auto_register_schemas true)
    pure (record { topic = topic; serializer = serializer })

  -- a value that is `None` is an error
  abbrev pub present : {A : Type 0} → String → Option A → Result (CodecFault X) A
  present complaint none = err (no_value complaint)
  present complaint (some a) = ok a

  -- `__call__`
  unfoldable pub to_bytes : AvroEnvelopeSerializer → EventEnvelope R → Codec lib.Bytes
  to_bytes self envelope = do
    data_of ← lib.serialize self.serializer (envelope_to_avro R) self.topic envelope
    lift (present "Avro serialization produced no bytes" data_of)

  pub record AvroEnvelopeDeserializer : Type 0 where
    pub topic : String
    pub deserializer : lib.Deserializer

  unfoldable pub new_deserializer :
      BaseServiceSettings → String → Option lib.Client → Codec AvroEnvelopeDeserializer
  new_deserializer settings topic client = do
    registry ← lift (client_or client settings)
    schema ← load_schema topic settings.avro_schema_dir
    deserializer ← on_world (lib.avro_deserializer registry schema)
    pure (record { topic = topic; deserializer = deserializer })

  unfoldable pub from_bytes :
      Validation R → AvroEnvelopeDeserializer → lib.Bytes → Codec (EventEnvelope R)
  from_bytes valid self bytes = do
    envelope ← lib.deserialize self.deserializer (envelope_from_avro R valid) self.topic bytes
    lift (present "Avro deserialization produced no envelope (tombstone?)" envelope)
