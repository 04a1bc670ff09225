-- ===== src/Usgs/Client.antt =====
-- services/ingestion-usgs/src/ingestion_usgs/client.py, over an HTTP client.
pub mod Requests
use sentinel_chain.Base.{String, Bool, true}
use sentinel_chain.Base.Result.{Result, ok, err}
use sentinel_chain.Base.Runtime.{Runtime}
use sentinel_chain.Base.Json.{Fields}
use sentinel_chain.Resilience.Breaker.{CircuitBreaker, CallError, call}
use sentinel_chain.Resilience.Retry.{RetryPolicy, Effects, RetryError, raised, retry_async}

-- `httpx.AsyncClient` and its responses, and which of its exceptions are an `Exception`.
pub record Http (F E W : Type 0) : Type 1 where
  pub Response : Type 0
  pub get : String → W → Result E Response × W
  pub raise_for_status : Response → Result E (Unit {0})
  pub json : Response → Result E (Fields F)
  pub is_exception : E → Bool

-- What the object keeps: the address, the breaker and the policy.
pub record UsgsClient (R : Runtime) (E : Type 0) : Type 0 where
  pub url : String
  pub breaker : CircuitBreaker R (RetryError E)
  pub retry : RetryPolicy R E

module _ {R : Runtime} {E W : Type 0} (http : Http R.Float E W) (fx : Effects R E W)
    (now : W → R.Float) where
  -- the response's data, unless its status is an error
  data_of : http.Response → Result E (Fields R.Float)
  data_of response = elim (http.raise_for_status response) [
    | ok u ↦ http.json response
    | err e ↦ err e
  ]

  received : Result E http.Response × W → Result E (Fields R.Float) × W
  received (ok response, w) = (data_of response, w)
  received (err e, w) = (err e, w)

  -- `_once`
  unfoldable pub once : String → W → Result E (Fields R.Float) × W
  unfolding received data_of
  once url w = received (http.get url w)

  -- an `AssertionError` and the errors of the arithmetic are `Exception`s
  abbrev pub counted : RetryError E → Bool
  counted (raised e) = http.is_exception e
  counted _ = true

  -- `fetch_feed`: the breaker's call, and the object after it
  unfoldable pub fetch_feed :
      UsgsClient R E → W → Result (CallError (RetryError E)) (Fields R.Float) × UsgsClient R E × W
  fetch_feed client w =
      let (r, b, w') =
        call counted now (retry_async fx client.retry (once client.url)) client.breaker w in
      (r, record client { breaker = b }, w')
