-- ===== src/Resilience/Breaker/Runs.antt =====
-- Whether a call runs its function.
use sentinel_chain.Base.{◌+◌, ◌≤◌, ◌≡◌, refl, ◌⊎◌, inl, inr, arith, Bool}
use sentinel_chain.Base.Result.{Result, ok, err}
use sentinel_chain.Base.Runtime.{Runtime}
use sentinel_chain.Resilience.Breaker.{CircuitBreaker, CallError, allow, settle, proceed, call}

allow-failures :
    {R : Runtime} {E : Type 0} (t : R.Float) (b : CircuitBreaker R E)
    → (allow t b).1.failures ≡ b.failures
unfolding allow
allow-failures t b = ground arith

module _ {R : Runtime} {E T W : Type 0} (is_exception : E → Bool) (now : W → R.Float) where
  settle-failures :
      (r : Result E T) (t : R.Float) (b : CircuitBreaker R E)
      → (settle is_exception r t b).1.failures ≤ b.failures + 1
  unfolding settle
  settle-failures (ok x) t b = ground arith
  settle-failures (err e) t b = ground arith

  -- A call is rejected and leaves the world alone, or runs its function once in that world; its
  -- breaker counts at most one failure more.
  pub call-runs :
      (func : W → Result E T × W) (b : CircuitBreaker R E) (w : W)
      → (((x : CallError E) × ((call is_exception now func b w).0 ≡ err x)
            × ((call is_exception now func b w).2 ≡ w))
          ⊎ ((call is_exception now func b w).2 ≡ (func w).1))
        × ((call is_exception now func b w).1.failures ≤ b.failures + 1)
  unfolding call proceed
  call-runs func b w =
      let start : (allow (now w) b).1.failures ≡ b.failures = allow-failures (now w) b in
      go (allow (now w) b) start
    where
      go :
          (r : Result (CallError E) (Unit {0}) × CircuitBreaker R E)
          → r.1.failures ≡ b.failures
          → (((x : CallError E) × ((proceed is_exception now func r w).0 ≡ err x)
                × ((proceed is_exception now func r w).2 ≡ w))
              ⊎ ((proceed is_exception now func r w).2 ≡ (func w).1))
            × ((proceed is_exception now func r w).1.failures ≤ b.failures + 1)
      go (err x, b') h = (inl (x, refl, refl), omega arith)
      go (ok u, b') h =
          let settled = settle-failures (func w).0 (now (func w).1) b' in (inr refl, omega arith)
