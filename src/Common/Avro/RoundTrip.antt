-- ===== src/Common/Avro/RoundTrip.antt =====
-- An envelope through its Avro record and back.
use sentinel_chain.Base.{String, ◌≡◌, Option, if◌then◌else◌, Bool-cases, inl, inr, ◌&&◌}
use sentinel_chain.Base.Int.{ℤ}
use sentinel_chain.Base.Result.{Result, ok, err}
use sentinel_chain.Base.Runtime.{Runtime, StdError, value_error}
use sentinel_chain.Base.Dict.{Dict, lookup}
use sentinel_chain.Base.Json.{Fields}
use sentinel_chain.Common.Time.{to_utc}
use sentinel_chain.Common.Envelope.{EventEnvelope}
use sentinel_chain.Common.Avro.{
  Value, text, number, time, fields, optional, AvroError, Validation, envelope_to_avro,
  envelope_from_avro, item, get_item,
}

-- A validation keeps a value that has the field's type.
pub record ValidationLaws {R : Runtime} (valid : Validation R) : Type 0 where
  pub text_kept : (s : String) → valid.as_text (text s) ≡ ok s
  pub optional_kept : (o : Option String) → valid.as_optional_text (optional o) ≡ ok o
  pub number_kept : (n : ℤ) → valid.as_number (number n) ≡ ok n
  pub time_kept : (t : R.Datetime) → valid.as_time (time t) ≡ ok t
  pub fields_kept : (fs : Fields R.Float) → valid.as_fields (fields fs) ≡ ok fs

module _ {R : Runtime} (valid : Validation R) where
  -- Mapping to a record and back.
  abbrev pub through :
      Result StdError (Dict (Value R)) → Result StdError (Result AvroError (EventEnvelope R))
  through (ok d) = ok (envelope_from_avro R valid d)
  through (err e) = err e

  -- What comes back of an envelope: itself with its two times in UTC, if both have a time zone; if
  -- one has not, the mapping to a record raises `ValueError`.
  abbrev pub in_utc : EventEnvelope R → Result StdError (Result AvroError (EventEnvelope R))
  in_utc e =
      if R.aware e.event_time && R.aware e.ingested_at
      then ok (
          ok
            (record e { event_time = R.as_utc e.event_time; ingested_at = R.as_utc e.ingested_at }))
      else err value_error

  -- Where the validation keeps values that have the fields' types: an envelope whose two times
  -- have a time zone comes back from its Avro record unchanged but for the times, which are then
  -- in UTC; an envelope with a time without one makes the mapping raise `ValueError`.
  pub envelope_from_avro-envelope_to_avro :
      ValidationLaws valid → (e : EventEnvelope R) → through (envelope_to_avro R e) ≡ in_utc e
  unfolding envelope_to_avro envelope_from_avro to_utc item get_item lookup
  envelope_from_avro-envelope_to_avro laws e = elim (Bool-cases (R.aware e.event_time)) [
    | inr naive ↦ rw naive
    | inl aware ↦ elim (Bool-cases (R.aware e.ingested_at)) [
      | inr naive ↦ rw (aware, naive)
      | inl aware' ↦
          rw (aware, aware') simp
            (laws.text_kept, laws.optional_kept, laws.number_kept, laws.time_kept, laws.fields_kept)
    ]
  ]
