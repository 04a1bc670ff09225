-- ===== src/Common/Llm/Tests.antt =====
-- A mock provider that answers with a dict.
use sentinel_chain.Base.{str_eq, ◌≡◌, refl, none, some, [], ◌∷◌, if◌then◌else◌}
use sentinel_chain.Base.Int.{ℤ, pos}
use sentinel_chain.Base.Result.{ok, err}
use sentinel_chain.Base.Json.{str, obj, Fields, end, field}
use sentinel_chain.Common.Llm.{
  LlmRequest, LlmResponse, MockProvider, JsonText, malformed, user, generate, or_empty,
}
use sentinel_chain.Common.Llm.Agreement.{IsReply, generate-IsReply}

abbrev risk : Fields ℤ
risk = field "risk" (str "high") end

-- A codec that knows one text.
abbrev one_text : JsonText ℤ
one_text = record {
  dumps = λ fs. "{\"risk\": \"high\"}";
  loads = λ s. if str_eq s "{\"risk\": \"high\"}" then ok (obj risk) else err malformed;
}

abbrev provider : MockProvider ℤ
provider = record { model = "mock-1"; responder = none; canned_parsed = some risk }

abbrev request : LlmRequest ℤ
request = record {
  request_id = "r1";
  messages = record { role = user; content = "rate the supplier" } ∷ [];
  response_schema = some end;
  max_tokens = pos 2048;
  temperature = pos 0;
  tools = none;
  trace_id = "";
}

generate-IsReply_example :
    (r : LlmResponse ℤ) × ((generate one_text provider request ≡ ok r)
      × (IsReply one_text request r
          × ((schema : Fields ℤ)
              → request.response_schema ≡ some schema
              → r.parsed ≡ some (or_empty provider.canned_parsed))))
generate-IsReply_example = generate-IsReply one_text provider refl request refl
