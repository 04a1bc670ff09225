-- ===== src/Resilience/Retry/Count.antt =====
-- How often a retried call awaits its function.
use sentinel_chain.Base.{ℕ, ◌+◌, ◌<◌, ◌≤◌, ◌≡◌, ap, arith}
use sentinel_chain.Base.Result.{Result}
use sentinel_chain.Base.Runtime.{Runtime}
use sentinel_chain.Resilience.Retry.{RetryPolicy, Effects, RetryError, pause, retry_async}
use sentinel_chain.Resilience.Retry.Attempts.{
  Tries, start, again, Ends, stops, breaks, retry_async-Ends,
}

-- `calls` is any count kept by the world that one run of the function raises by one, and that the
-- pauses leave alone.
module _ {R : Runtime} {E T W : Type 0} (fx : Effects R E W) (policy : RetryPolicy R E)
    (func : W → Result E T × W) (calls : W → ℕ) (once : (w : W) → calls (func w).1 ≡ calls w + 1)
    (quiet : (a : ℕ) (e : E) (w : W) → calls (pause fx policy a e w).1 ≡ calls w) where
  Tries-calls : {n a : ℕ} {w w' : W} → Tries fx policy func n a w w' → calls w' ≡ calls w + n
  Tries-calls start = omega arith
  Tries-calls {a = a} {w = w} (again {w₁ = w₁} e f h p tr) =
      omega
        (arith, Tries-calls tr, ap (λ r. calls r.1) f, ap (λ r. calls r.1) p, once w, quiet a e w₁)

  Ends-calls :
      {w : W} {res : Result (RetryError E) T × W}
      → Ends fx policy func 1 w res
      → (calls w < calls res.1) × (calls res.1 ≤ calls w + policy.max_attempts)
  Ends-calls {w} (stops {w₁ = w₁} tr f h le eq) =
      let c = Tries-calls tr in
      let o = once w₁ in
      let x = ap (λ r. calls r.1) f in let y = ap (λ r. calls r.1) eq in (omega arith, omega arith)
  Ends-calls {w} (breaks {n} {w₁ = w₁} {w₂ = w₂} {e = e} tr f re lt p eq) =
      let c = Tries-calls tr in
      let o = once w₁ in
      let q = quiet (1 + n) e w₂ in
      let x = ap (λ r. calls r.1) f in
      let y = ap (λ r. calls r.1) eq in let z = ap (λ r. calls r.1) p in (omega arith, omega arith)

  -- With a positive number of attempts, and pauses that do not run it, a retried call awaits its
  -- function at least once and at most `max_attempts` times.
  pub retry_async-calls :
      (w : W)
      → 0 < policy.max_attempts
      → (calls w < calls (retry_async fx policy func w).1)
        × (calls (retry_async fx policy func w).1 ≤ calls w + policy.max_attempts)
  retry_async-calls w h = Ends-calls (retry_async-Ends fx policy func w h)
