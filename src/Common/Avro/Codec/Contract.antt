-- ===== src/Common/Avro/Codec/Contract.antt =====
-- What a producer may put on a topic, and what a consumer reads of it.
use sentinel_chain.Base.{String, [], ◌∷◌, ◌≡◌, Option, none, some}
use sentinel_chain.Base.Result.{Result, ok, err}
use sentinel_chain.Base.Runtime.{Runtime, StdError}
use sentinel_chain.Base.Dict.{Dict}
use sentinel_chain.Common.Envelope.{EventEnvelope}
use sentinel_chain.Base.Json.{Fields}
use sentinel_chain.Common.Avro.{
  Value, nothing, text, number, time, fields, optional, AvroError, Validation, envelope_from_avro,
}
use sentinel_chain.Common.Avro.RoundTrip.{ValidationLaws}
use sentinel_chain.Common.Avro.Codec.{Confluent, CodecFault, from_record}

-- What a mapping of a decoded record makes of it.
abbrev pub mapped :
    {R : Runtime} {X : Type 0}
    → Result AvroError (EventEnvelope R)
    → Result (CodecFault X) (Option (EventEnvelope R))
mapped (ok e) = ok (some e)
mapped (err x) = err (from_record x)

-- What encoding and decoding leaves of a value, given what it leaves of a time and of a payload.
abbrev pub carry_value :
    {R : Runtime}
    → (R.Datetime → R.Datetime)
    → (Fields R.Float → Fields R.Float)
    → Value R
    → Value R
carry_value stored carried (time t) = time (stored t)
carry_value stored carried (fields fs) = fields (carried fs)
carry_value stored carried nothing = nothing
carry_value stored carried (text s) = text s
carry_value stored carried (number n) = number n

abbrev pub carry :
    {R : Runtime}
    → (R.Datetime → R.Datetime)
    → (Fields R.Float → Fields R.Float)
    → Dict (Value R)
    → Dict (Value R)
carry stored carried [] = []
carry stored carried ((k, v) ∷ d) = (k, carry_value stored carried v) ∷ carry stored carried d

pub optional_carried :
    {R : Runtime} {valid : Validation R} (kept : ValidationLaws valid)
    (stored : R.Datetime → R.Datetime) (carried : Fields R.Float → Fields R.Float)
    (o : Option String)
    → valid.as_optional_text (carry_value stored carried (optional o)) ≡ ok o
optional_carried kept stored carried none = kept.optional_kept none
optional_carried kept stored carried (some s) = kept.optional_kept (some s)

-- `matched a b`: they were made from one schema. The schemas keep a time as its milliseconds, so
-- `stored` is what is left of one; `carried` is what is left of a payload, whose fields the topic's
-- schema types.
pub record WireLaws {R : Runtime} {X : Type 0} (lib : Confluent R X) : Type 1 where
  pub matched : lib.Serializer → lib.Deserializer → Type 0
  pub stored : R.Datetime → R.Datetime
  pub carried : Fields R.Float → Fields R.Float
  -- bytes are made of the record that the mapping gave
  pub written :
      (a : lib.Serializer) (to_dict : EventEnvelope R → Result StdError (Dict (Value R)))
      (topic : String) (e : EventEnvelope R) (w : lib.World) (b : lib.Bytes)
      → (lib.serialize a to_dict topic e w).0 ≡ ok (some b)
      → (d : Dict (Value R)) × (to_dict e ≡ ok d)
  -- and are decoded to what is left of it, for the mapping back
  pub read :
      (a : lib.Serializer) (c : lib.Deserializer)
      (to_dict : EventEnvelope R → Result StdError (Dict (Value R)))
      (from_dict : Dict (Value R) → Result AvroError (EventEnvelope R)) (topic : String)
      (e : EventEnvelope R) (d : Dict (Value R)) (b : lib.Bytes) (w w' : lib.World)
      → matched a c
      → to_dict e ≡ ok d
      → (lib.serialize a to_dict topic e w).0 ≡ ok (some b)
      → (lib.deserialize c from_dict topic b w').0 ≡ mapped (from_dict (carry stored carried d))

module _ {R : Runtime} {X : Type 0} (lib : Confluent R X) where
  -- What is left of an envelope: its times in UTC as the wire keeps them, and its payload as the
  -- wire keeps it.
  abbrev pub received : WireLaws lib → EventEnvelope R → EventEnvelope R
  received laws e = record e {
    event_time = laws.stored (R.as_utc e.event_time);
    ingested_at = laws.stored (R.as_utc e.ingested_at);
    payload = laws.carried e.payload;
  }

  abbrev through_wire :
      WireLaws lib
      → Validation R
      → Result StdError (Dict (Value R))
      → Result StdError (Result AvroError (EventEnvelope R))
  through_wire laws valid (ok d) =
      ok (envelope_from_avro R valid (carry laws.stored laws.carried d))
  through_wire laws valid (err e) = err e
