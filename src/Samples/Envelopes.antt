-- ===== src/Samples/Envelopes.antt =====
-- A validation, an envelope, and a registry that keeps records as they are.
use sentinel_chain.Base.{
  ℕ, ◌+◌, ◌*◌, ◌/◌, Bool, ◌≡◌, refl, sym, ap, ◌∙◌, String, str_eq, true, Option, none, some, [],
  ◌∷◌,
}
use sentinel_chain.Base.Int.{ℤ, pos, negsuc}
use sentinel_chain.Base.Text.{concat}
use sentinel_chain.Base.Result.{Result, ok, err}
use sentinel_chain.Base.Runtime.{StdError}
use sentinel_chain.Base.Dict.{Dict}
use sentinel_chain.Base.Json.{end}
use sentinel_chain.Samples.{micro}
use sentinel_chain.Common.Envelope.{EventEnvelope, new_envelope}
use sentinel_chain.Common.Avro.{
  Value, nothing, text, number, time, fields, optional, invalid, Validation,
}
use sentinel_chain.Common.Avro.RoundTrip.{ValidationLaws}
use sentinel_chain.Common.Avro.Codec.{Confluent, CodecFault, to_record}
use sentinel_chain.Common.Avro.Codec.Contract.{carry, WireLaws, mapped}

-- A validation that makes no conversion.
abbrev pub strict : Validation micro
strict = record {
  as_text = λ v. elim v [ text s ↦ ok s | _ ↦ err invalid ];
  as_optional_text = λ v. elim v [ nothing ↦ ok none | text s ↦ ok (some s) | _ ↦ err invalid ];
  as_number = λ v. elim v [ number n ↦ ok n | _ ↦ err invalid ];
  as_time = λ v. elim v [ time t ↦ ok t | _ ↦ err invalid ];
  as_fields = λ v. elim v [ fields fs ↦ ok fs | _ ↦ err invalid ];
}

pub kept_optional : (o : Option String) → strict.as_optional_text (optional o) ≡ ok o
kept_optional none = refl
kept_optional (some s) = refl

pub strict_laws : ValidationLaws strict
strict_laws = record {
  text_kept = λ s. refl;
  optional_kept = kept_optional;
  number_kept = λ n. refl;
  time_kept = λ t. refl;
  fields_kept = λ fs. refl;
}

abbrev pub sample_envelope : EventEnvelope micro
sample_envelope =
    new_envelope micro "id" "trace" (pos 5, true) "usgs.earthquake.raw" "usgs" "us1" none
      (pos 3, true) end

-- The milliseconds of a time.
abbrev pub millis : ℤ × Bool → ℤ × Bool
millis (pos n, aware) = (pos (n / 1000 * 1000), aware)
millis (negsuc n, aware) = (negsuc (n / 1000 * 1000 + 999), aware)

-- Bytes are records; the world counts the calls of the registry.
abbrev pub as_bytes :
    Result StdError (Dict (Value micro)) → Result (CodecFault String) (Option (Dict (Value micro)))
as_bytes (ok d) = ok (some d)
as_bytes (err x) = err (to_record x)

abbrev pub record_registry : Confluent micro String
record_registry = record {
  World = ℕ;
  is_file = λ path w. str_eq path "schemas/avro/usgs.avsc";
  read_text = λ path w. (ok "schema", w);
  join_path = λ directory name. concat (directory ∷ "/" ∷ name ∷ []);
  Client = String;
  connect = λ url. ok url;
  Bytes = Dict (Value micro);
  Serializer = String;
  Deserializer = String;
  avro_serializer = λ client schema register normalize w. (ok schema, w + 1);
  avro_deserializer = λ client schema w. (ok schema, w + 1);
  serialize = λ schema to_dict topic e w. (as_bytes (to_dict e), w + 1);
  deserialize =
      λ schema from_dict topic b w. (mapped (from_dict (carry millis (λ fs. fs) b)), w + 1);
}

pub as_bytes-ok :
    (r : Result StdError (Dict (Value micro))) (b : Dict (Value micro))
    → as_bytes r ≡ ok (some b)
    → r ≡ ok b
as_bytes-ok (ok d) b h = ap (λ x. ok x) cc
as_bytes-ok (err x) b h = absurd (cc h)

pub same_record :
    (r : Result StdError (Dict (Value micro))) (d b : Dict (Value micro))
    → r ≡ ok d
    → as_bytes r ≡ ok (some b)
    → b ≡ d
same_record r d b made gave = cc (sym (as_bytes-ok r b gave) ∙ made)

abbrev pub record_registry_laws : WireLaws record_registry
record_registry_laws = record {
  matched = λ a c. a ≡ c;
  stored = millis;
  carried = λ fs. fs;
  written = λ a to_dict topic e w b h. (b, as_bytes-ok (to_dict e) b h);
  read = λ a c to_dict from_dict topic e d b w w' same made gave.
      ap (λ x. mapped (from_dict (carry millis (λ fs. fs) x)))
        (same_record (to_dict e) d b made gave);
}
