-- ===== src/Samples/Retries.antt =====
-- A retry policy, and effects that leave the world alone.
use sentinel_chain.Base.{ℕ, String, ◌≡◌, true, none, inl, inr, arith}
use sentinel_chain.Base.Int.{pos}
use sentinel_chain.Base.Result.{Result-cases}
use sentinel_chain.Base.Result.{ok}
use sentinel_chain.Base.Runtime.{Runtime}
use sentinel_chain.Samples.{micro}
use sentinel_chain.Resilience.Retry.{RetryPolicy, Effects, pause, delay_for, backoff}

abbrev pub quiet_effects : (R : Runtime) → Effects R String ℕ
quiet_effects R = record {
  uniform = λ lo hi n. (hi, n);
  sleep = λ d n. (ok tt, n);
  on_retry = none;
}

abbrev pub three_attempts : RetryPolicy micro String
three_attempts = record {
  max_attempts = 3;
  base_delay_seconds = pos 500000;
  max_delay_seconds = pos 5000000;
  jitter = true;
  retry_on = λ e. true;
}

pub quiet_pause :
    {R : Runtime} (policy : RetryPolicy R String) (a : ℕ) (e : String) (n : ℕ)
    → (pause (quiet_effects R) policy a e n).1 ≡ n
unfolding pause delay_for
quiet_pause {R} policy a e n = elim (Result-cases (backoff (quiet_effects R) policy a)) [
  | inl (x, h) ↦ ground arith
  | inr (x, h) ↦ ground arith
]
