-- ===== src/Common/Avro/Codec/Tests.antt =====
-- The sample envelope on a topic whose schema keeps the milliseconds of a time.
use sentinel_chain.Base.{[]}
use sentinel_chain.Base.Result.{ok, err}
use sentinel_chain.Base.Dict.{Dict}
use sentinel_chain.Samples.{micro}
use sentinel_chain.Samples.Envelopes.{sample_envelope, record_registry}
use sentinel_chain.Common.Avro.{Value, envelope_to_avro}
use sentinel_chain.Common.Avro.Codec.{AvroEnvelopeSerializer, AvroEnvelopeDeserializer}

abbrev writer : AvroEnvelopeSerializer record_registry
writer = record { topic = "usgs"; serializer = "schema" }

abbrev reader : AvroEnvelopeDeserializer record_registry
reader = record { topic = "usgs"; deserializer = "schema" }

abbrev sample_record : Dict (Value micro)
sample_record = elim (envelope_to_avro micro sample_envelope) [ ok d ↦ d | err x ↦ [] ]
