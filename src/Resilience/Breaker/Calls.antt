-- ===== src/Resilience/Breaker/Calls.antt =====
-- Whole calls through the breaker, one after another.
use sentinel_chain.Base.{
  ◌+◌, ◌≡◌, Bool, true, none, some, arith, if◌then◌else◌, inl, inr, Bool-cases,
}
use sentinel_chain.Resilience.Breaker.History.{counts}
use sentinel_chain.Base.Result.{Result, ok, err, Result-cases}
use sentinel_chain.Base.Runtime.{Runtime}
use sentinel_chain.Resilience.Breaker.{
  closed, opened, half_open, CircuitBreaker, CallError, breaker_open, raised, call,
}

-- What a trial call leaves, from what its function did: a success makes the breaker as good as
-- new, a counted failure opens it again from the moment `at`, and any other exception leaves it
-- HALF_OPEN.
abbrev pub trial_outcome :
    {R : Runtime} {E T W : Type 0}
    → (E → Bool)
    → (W → R.Float)
    → CircuitBreaker R E
    → Result E T × W
    → Result (CallError E) T × CircuitBreaker R E × W
trial_outcome is_exception now b (ok t, w') =
    (ok t, record b { failures = 0; state = closed; opened_at = none }, w')
trial_outcome is_exception now b (err e, w') = (
  err (raised e),
  if counts b.excluded is_exception e
      then record b { failures = b.failures + 1; state = opened; opened_at = some (now w') }
      else record b { state = half_open },
  w',
)

module _ {R : Runtime} {E T W : Type 0} (is_exception : E → Bool) (now : W → R.Float) where
  trial :
      (func : W → Result E T × W) (b : CircuitBreaker R E) (w : W) (at : R.Float)
      → b.state ≡ opened
      → b.opened_at ≡ some at
      → R.leb_f b.reset_timeout_seconds (R.sub_f (now w) at) ≡ true
      → call is_exception now func b w ≡ trial_outcome is_exception now b (func w)
  unfolding call
  trial func b w at s o elapsed = elim (Result-cases (func w).0) [
    | inl (t, e) ↦ ground arith
    | inr (x, e) ↦ ground arith
  ]

  -- Through an OPEN breaker a call raises `CircuitBreakerOpenError`, runs nothing and changes
  -- nothing while the timeout since the opening has not passed; once it has, the function runs
  -- once, and the call returns or raises what it did: a success makes the breaker as good as
  -- new, a counted failure opens it again from that moment, another exception leaves it
  -- HALF_OPEN.
  pub call_when_opened :
      (func : W → Result E T × W) (b : CircuitBreaker R E) (w : W) (at : R.Float)
      → b.state ≡ opened
      → b.opened_at ≡ some at
      → call is_exception now func b w ≡ (
          if R.leb_f b.reset_timeout_seconds (R.sub_f (now w) at)
          then trial_outcome is_exception now b (func w)
          else (err breaker_open, b, w))
  call_when_opened func b w at s o =
      elim (Bool-cases (R.leb_f b.reset_timeout_seconds (R.sub_f (now w) at))) [
        | inl elapsed ↦ rw elapsed (trial func b w at s o elapsed)
        | inr waiting ↦ rw waiting (unfold call in ground arith)
      ]
