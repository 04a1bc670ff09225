-- ===== src/Resilience/Retry.antt =====
-- `RetryPolicy` and `retry_async` of libs/common/src/sentinelchain_common/resilience.py. A
-- suspended task is a step of a world `W`, which the awaited function, the sleeps and the
-- callback change.
use sentinel_chain.Base.{
  ℕ, zero, suc, ◌+◌, ◌-◌, ◌^◌, Bool, true, false, Option, none, some, ◌==◌, leb, if◌then◌else◌,
}
use sentinel_chain.Base.Int.{pos}
use sentinel_chain.Base.Result.{Result, ok, err}
use sentinel_chain.Base.Runtime.{Runtime, StdError}
pub mod Attempts
pub mod Count

-- `max_attempts` is a natural number: a negative one runs no attempt, as 0 does.
pub record RetryPolicy (R : Runtime) (E : Type 0) : Type 0 where
  pub max_attempts : ℕ
  pub base_delay_seconds : R.Float
  pub max_delay_seconds : R.Float
  pub jitter : Bool
  -- whether an exception is of one of the types to retry on
  pub retry_on : E → Bool

-- `random.uniform`, `asyncio.sleep` and the optional callback; a sleep may be cancelled, and the
-- callback may raise.
pub record Effects (R : Runtime) (E W : Type 0) : Type 0 where
  pub uniform : R.Float → R.Float → W → R.Float × W
  pub sleep : R.Float → W → Result E (Unit {0}) × W
  pub on_retry : Option (ℕ → E → W → Result E (Unit {0}) × W)

-- What a retried call raises: what the function, the callback or the sleep raised, the
-- `AssertionError` after no attempt, or what the float arithmetic of the delay raised.
pub data RetryError (E : Type 0) : Type 0 where
  raised : E → RetryError E
  assertion_failed : RetryError E
  arithmetic : StdError → RetryError E

-- Python's `min(a, b)`: the first unless the second is less.
abbrev pub min_f : (R : Runtime) → R.Float → R.Float → R.Float
min_f R a b = if R.ltb_f b a then b else a

module _ {R : Runtime} {E W : Type 0} (fx : Effects R E W) (policy : RetryPolicy R E) where
  -- `2 ** (attempt - 1)`, converted for the product with a float; at 0 it is the float 0.5
  abbrev pub backoff : ℕ → Result StdError R.Float
  backoff attempt =
      if attempt == 0 then ok (R.lit (pos 5) 1) else R.of_int (pos (2 ^ (attempt - 1)))

  delay_of : R.Float → W → R.Float × W
  delay_of raw w = if policy.jitter then fx.uniform (R.lit (pos 0) 0) raw w else (raw, w)

  -- `delay_for`
  unfoldable pub delay_for : ℕ → W → Result StdError R.Float × W
  unfolding delay_of
  delay_for attempt w = elim (backoff attempt) [
    | err e ↦ (err e, w)
    | ok factor ↦
        let raw = min_f R (R.mul_f policy.base_delay_seconds factor) policy.max_delay_seconds in
        let (d, w') = delay_of raw w in (ok d, w')
  ]

  notify : ℕ → E → W → Result E (Unit {0}) × W
  notify attempt e w = elim fx.on_retry [ none ↦ (ok tt, w) | some f ↦ f attempt e w ]

  slept : Result E (Unit {0}) × W → Result (RetryError E) (Unit {0}) × W
  slept (ok u, w) = (ok u, w)
  slept (err e, w) = (err (raised e), w)

  sleep_for : Result StdError R.Float × W → Result (RetryError E) (Unit {0}) × W
  unfolding slept
  sleep_for (ok d, w) = slept (fx.sleep d w)
  sleep_for (err e, w) = (err (arithmetic e), w)

  -- once the callback has ended
  wait_for : ℕ → Result E (Unit {0}) × W → Result (RetryError E) (Unit {0}) × W
  unfolding sleep_for
  wait_for attempt (ok u, w) = sleep_for (delay_for attempt w)
  wait_for attempt (err e, w) = (err (raised e), w)

  -- the callback and the sleep between two attempts
  unfoldable pub pause : ℕ → E → W → Result (RetryError E) (Unit {0}) × W
  unfolding notify wait_for
  pause attempt e w = wait_for attempt (notify attempt e w)

module _ {R : Runtime} {E T W : Type 0} (fx : Effects R E W) (policy : RetryPolicy R E)
    (func : W → Result E T × W) where
  resume :
      (E → W → Result (RetryError E) T × W)
      → E
      → Result (RetryError E) (Unit {0}) × W
      → Result (RetryError E) T × W
  resume rest e (ok _, w) = rest e w
  resume rest e (err x, w) = (err x, w)

  -- the body of the loop, once the attempt has ended; `rest` is the loop from the next attempt
  judge : ℕ → (E → W → Result (RetryError E) T × W) → Result E T × W → Result (RetryError E) T × W
  judge attempt rest (ok t, w) = (ok t, w)
  judge attempt rest (err e, w) =
      if policy.retry_on e
      then if leb policy.max_attempts attempt
        then (err (raised e), w)
        else resume rest e (pause fx policy attempt e w)
      else (err (raised e), w)

  -- what stands after the loop
  give_up : Option E → W → Result (RetryError E) T × W
  give_up none w = (err assertion_failed, w)
  give_up (some e) w = (err (raised e), w)

  -- The loop with `n` rounds left, from attempt number `attempt`.
  unfoldable pub retry_from : ℕ → ℕ → Option E → W → Result (RetryError E) T × W
  unfolding judge resume give_up
  retry_from zero attempt last w = give_up last w
  retry_from (suc n) attempt last w =
      judge attempt (λ e w'. retry_from n (attempt + 1) (some e) w') (func w)

  -- `retry_async` with a policy
  unfoldable pub retry_async : W → Result (RetryError E) T × W
  unfolding retry_from
  retry_async w = retry_from policy.max_attempts 1 none w
