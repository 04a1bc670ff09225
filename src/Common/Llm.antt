-- ===== src/Common/Llm.antt =====
-- libs/common/src/sentinelchain_common/llm.py
pub mod Agreement
mod Tests
use Prim.Native.String.{count}
use sentinel_chain.Base.{String, Bool, true, Option, none, some, List}
use sentinel_chain.Base.Int.{ℤ, pos, ◌+ℤ◌}
use sentinel_chain.Base.Result.{Result, ok, err, ◌>>=◌}
use sentinel_chain.Base.Runtime.{Runtime}
use sentinel_chain.Base.Json.{Json, null, bool, int, float, str, arr, obj, Fields, end, field}

pub data Role : Type 0 where
  system user assistant tool : Role

pub record ChatMessage : Type 0 where
  pub role : Role
  pub content : String

pub record ToolSpec (F : Type 0) : Type 0 where
  pub name : String
  pub description : String
  pub parameters_schema : Fields F

pub record TokenUsage : Type 0 where
  pub prompt_tokens : ℤ
  pub completion_tokens : ℤ

unfoldable pub total_tokens : TokenUsage → ℤ
total_tokens usage = usage.prompt_tokens +ℤ usage.completion_tokens

pub data FinishReason : Type 0 where
  stop length tool_call schema_violation error : FinishReason

pub record LlmRequest (F : Type 0) : Type 0 where
  pub request_id : String
  pub messages : List ChatMessage
  pub response_schema : Option (Fields F)
  pub max_tokens : ℤ
  pub temperature : F
  pub tools : Option (List (ToolSpec F))
  pub trace_id : String

pub record LlmResponse (F : Type 0) : Type 0 where
  pub request_id : String
  pub content : String
  pub parsed : Option (Fields F)
  pub usage : TokenUsage
  pub model : String
  pub finish_reason : FinishReason
  pub latency_ms : ℤ

pub record ProviderCapabilities : Type 0 where
  pub supports_tools : Bool
  pub supports_json_mode : Bool
  pub max_context_tokens : ℤ

-- What `json.loads` raises: a `ValueError`, which `JSONDecodeError` is, or a `RecursionError`.
pub data LoadError : Type 0 where
  malformed too_deep : LoadError

-- `json.dumps` of a dict, and `json.loads`
pub record JsonText (F : Type 0) : Type 0 where
  pub dumps : Fields F → String
  pub loads : String → Result LoadError (Json F)

-- `MockProvider`, with the arguments of its constructor
pub record MockProvider (F : Type 0) : Type 0 where
  pub model : String
  pub responder : Option (LlmRequest F → String)
  pub canned_parsed : Option (Fields F)

abbrev pub capabilities : ProviderCapabilities
capabilities = record {
  supports_tools = true;
  supports_json_mode = true;
  max_context_tokens = pos 8192;
}

-- The value of a dict that is true: `None` and the empty dict are not.
abbrev pub when_true : {F : Type 0} → Option (Fields F) → Option (Fields F)
when_true none = none
when_true (some end) = none
when_true (some (field k v fs)) = some (field k v fs)

-- `d or {}`
abbrev pub or_empty : {F : Type 0} → Option (Fields F) → Fields F
or_empty none = end
or_empty (some fs) = fs

-- `value if isinstance(value, dict) else None`
abbrev pub as_dict : {F : Type 0} → Json F → Option (Fields F)
as_dict (obj fs) = some fs
as_dict null = none
as_dict (bool b) = none
as_dict (int n) = none
as_dict (float x) = none
as_dict (str s) = none
as_dict (arr xs) = none

-- the answer that the provider makes of a text and its dict
abbrev pub response_of :
    {F : Type 0} → MockProvider F → LlmRequest F → String → Option (Fields F) → LlmResponse F
response_of p req content parsed = record {
  request_id = req.request_id;
  content = content;
  parsed = parsed;
  usage = record { prompt_tokens = pos (count content); completion_tokens = pos (count content) };
  model = p.model;
  finish_reason = stop;
  latency_ms = pos 0;
}

module _ {F : Type 0} (json : JsonText F) where
  -- only a `ValueError` is caught
  abbrev pub caught : Result LoadError (Json F) → Result LoadError (Option (Fields F))
  caught (ok value) = ok (as_dict value)
  caught (err malformed) = ok none
  caught (err too_deep) = err too_deep

  unfoldable pub safe_json : String → Result LoadError (Option (Fields F))
  safe_json text = caught (json.loads text)

  -- the text of an answer
  abbrev pub content_of : MockProvider F → LlmRequest F → String
  content_of p req = elim p.responder [
    | some respond ↦ respond req
    | none ↦ elim req.response_schema [
      | some schema ↦ json.dumps (or_empty p.canned_parsed)
      | none ↦ "mock response"
    ]
  ]

  abbrev pub parsed_or : Option (Fields F) → String → Result LoadError (Option (Fields F))
  parsed_or (some canned) text = ok (some canned)
  parsed_or none text = safe_json text

  abbrev pub parsed_of :
      MockProvider F → Option (Fields F) → String → Result LoadError (Option (Fields F))
  parsed_of p none text = ok none
  parsed_of p (some schema) text = parsed_or (when_true p.canned_parsed) text

  unfoldable pub generate : MockProvider F → LlmRequest F → Result LoadError (LlmResponse F)
  generate p req = do
    let content = content_of p req
    parsed ← parsed_of p req.response_schema content
    ok (response_of p req content parsed)
