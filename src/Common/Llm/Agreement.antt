-- ===== src/Common/Llm/Agreement.antt =====
-- What an answer of the mock provider says.
use Prim.Native.String.{count}
use sentinel_chain.Base.{ℕ, ◌*◌, ◌≡◌, refl, ap, ◌∙◌, Option, none, some, arith}
use sentinel_chain.Base.Int.{pos, ◌+ℤ◌}
use sentinel_chain.Base.Result.{ok}
use sentinel_chain.Base.Json.{obj, Fields, end, field}
use sentinel_chain.Common.Llm.{
  LlmRequest, LlmResponse, MockProvider, JsonText, when_true, or_empty, safe_json, parsed_or,
  parsed_of, generate, response_of, total_tokens,
}

-- An answer to a request: without a schema it has no parsed dict; with one, the dict that it has is
-- what its text decodes to.
pub record IsReply {F : Type 0} (json : JsonText F) (req : LlmRequest F) (r : LlmResponse F)
    : Type 0 where
  pub same_request : r.request_id ≡ req.request_id
  pub tokens : total_tokens r.usage ≡ pos (2 * count r.content)
  pub without : req.response_schema ≡ none → r.parsed ≡ none
  pub agrees : (fs : Fields F) → r.parsed ≡ some fs → json.loads r.content ≡ ok (obj fs)

or_empty-when_true :
    {F : Type 0} (o : Option (Fields F)) (fs : Fields F) → when_true o ≡ some fs → or_empty o ≡ fs
or_empty-when_true none fs h = absurd (cc h)
or_empty-when_true (some end) fs h = absurd (cc h)
or_empty-when_true (some (field k v rest)) fs h = cc

when_true-none : {F : Type 0} (o : Option (Fields F)) → when_true o ≡ none → or_empty o ≡ end
when_true-none none h = refl
when_true-none (some end) h = refl
when_true-none (some (field k v rest)) h = absurd (cc h)

doubled : (n : ℕ) → pos n +ℤ pos n ≡ pos (2 * n)
unfolding ◌+ℤ◌
doubled n = ground arith

module _ {F : Type 0} (json : JsonText F) (p : MockProvider F)
    (law : json.loads (json.dumps (or_empty p.canned_parsed))
      ≡ ok (obj (or_empty p.canned_parsed))) where
  -- What a provider without a responder finds in the text that it made of its dict.
  parsed_of-canned :
      (schema : Fields F)
      → parsed_of json p (some schema) (json.dumps (or_empty p.canned_parsed))
        ≡ ok (some (or_empty p.canned_parsed))
  unfolding safe_json
  parsed_of-canned schema = go (when_true p.canned_parsed) refl
    where
      go :
          (o : Option (Fields F))
          → when_true p.canned_parsed ≡ o
          → parsed_or json o (json.dumps (or_empty p.canned_parsed))
            ≡ ok (some (or_empty p.canned_parsed))
      go none e = rw law
      go (some fs) e = rw (or_empty-when_true p.canned_parsed fs e)

  -- Where `json.loads` undoes `json.dumps` on the provider's dict: a provider without a
  -- responder always answers; the answer has the id of the request and twice the letters of its
  -- text as tokens; without a schema it has no parsed dict, and with one it has the canned dict,
  -- or an empty one, and its text decodes to that dict.
  pub generate-IsReply :
      (req : LlmRequest F)
      → p.responder ≡ none
      → (r : LlmResponse F) × ((generate json p req ≡ ok r)
          × (IsReply json req r
              × ((schema : Fields F)
                  → req.response_schema ≡ some schema
                  → r.parsed ≡ some (or_empty p.canned_parsed))))
  unfolding generate total_tokens
  generate-IsReply req silent = go req.response_schema refl
    where
      go :
          (o : Option (Fields F))
          → req.response_schema ≡ o
          → (r : LlmResponse F) × ((generate json p req ≡ ok r)
              × (IsReply json req r
                  × ((schema : Fields F)
                      → req.response_schema ≡ some schema
                      → r.parsed ≡ some (or_empty p.canned_parsed))))
      go none e = (
        response_of p req "mock response" none,
        (
          rw (silent, e),
          (
            record {
              same_request = refl;
              tokens = doubled _;
              without = λ h. refl;
              agrees = λ fs h. absurd (cc h);
            },
            λ schema h. absurd (cc (e, h)),
          ),
        ),
      )
      go (some schema) e = (
        response_of p req (json.dumps (or_empty p.canned_parsed)) (some (or_empty p.canned_parsed)),
        (
          rw (silent, e, parsed_of-canned schema),
          (
            record {
              same_request = refl;
              tokens = doubled _;
              without = λ h. absurd (cc (e, h));
              agrees = λ fs h. law ∙ ap (λ x. ok (obj x)) cc;
            },
            λ s h. refl,
          ),
        ),
      )
