-- ===== src/Usgs/Client/Requests.antt =====
-- How many requests a fetch makes.
use sentinel_chain.Base.{ℕ, ◌+◌, ◌<◌, ◌≤◌, ◌≡◌, ap, ◌⊎◌, inl, inr, arith, String}
use sentinel_chain.Base.Result.{Result, err, Result-cases}
use sentinel_chain.Base.Runtime.{Runtime}
use sentinel_chain.Base.Json.{Fields}
use sentinel_chain.Resilience.Breaker.{CallError}
use sentinel_chain.Resilience.Breaker.Runs.{call-runs}
use sentinel_chain.Resilience.Retry.{Effects, RetryError, pause, retry_async}
use sentinel_chain.Resilience.Retry.Count.{retry_async-calls}
use sentinel_chain.Usgs.Client.{Http, UsgsClient, once, counted, fetch_feed}

-- The end of a fetch, against its start: it was rejected and nothing was requested, or there were
-- from one to `max_attempts` requests; and the breaker counts at most one failure more.
pub record IsFetch {R : Runtime} {E W : Type 0} (requests : W → ℕ) (client : UsgsClient R E) (w : W)
    (end_of : Result (CallError (RetryError E)) (Fields R.Float) × UsgsClient R E × W)
    : Type 0 where
  pub requested :
      ((x : CallError (RetryError E)) × (end_of.0 ≡ err x) × (end_of.2 ≡ w))
      ⊎ ((requests w < requests end_of.2)
          × (requests end_of.2 ≤ requests w + client.retry.max_attempts))
  pub one_failure : end_of.1.breaker.failures ≤ client.breaker.failures + 1

module _ {R : Runtime} {E W : Type 0} (http : Http R.Float E W) (fx : Effects R E W)
    (now : W → R.Float) (requests : W → ℕ) where
  once-requests :
      ((url : String) (w : W) → requests (http.get url w).1 ≡ requests w + 1)
      → (url : String) (w : W) → requests (once http fx now url w).1 ≡ requests w + 1
  unfolding once
  once-requests counts url w = elim (Result-cases (http.get url w).0) [
    | inl (r, e) ↦ ground (arith, counts url w)
    | inr (x, e) ↦ ground (arith, counts url w)
  ]

  -- Where `requests` counts the requests, and the pauses between attempts make none: a fetch with a
  -- positive number of attempts is rejected by the breaker without a request, or makes at least one
  -- request and at most `max_attempts`; and however many attempts fail, the breaker counts at most
  -- one failure more.
  pub fetch_feed-IsFetch :
      (client : UsgsClient R E) (w : W)
      → ((url : String) (v : W) → requests (http.get url v).1 ≡ requests v + 1)
      → ((a : ℕ) (e : E) (v : W) → requests (pause fx client.retry a e v).1 ≡ requests v)
      → 0 < client.retry.max_attempts
      → IsFetch requests client w (fetch_feed http fx now client w)
  unfolding fetch_feed
  fetch_feed-IsFetch client w counts quiet positive =
      let (runs, failures) =
        call-runs (counted http fx now) now
          (retry_async fx client.retry (once http fx now client.url)) client.breaker w in
      let (least, most) =
        retry_async-calls fx client.retry (once http fx now client.url) requests
          (once-requests counts client.url) quiet w positive in
      record {
        requested = elim runs [
          | inl rejected ↦ inl rejected
          | inr ran ↦ let same = ap requests ran in inr (omega arith, omega arith)
        ];
        one_failure = failures;
      }
