-- ===== src/Resilience/Breaker/Invariant.antt =====
-- The invariant of the breaker under any interleaving of calls.
use sentinel_chain.Base.{ℕ, ◌≤◌, ◌<◌, ◌≡◌, refl, ◌≢◌, Bool, Option, none, some, arith}
use sentinel_chain.Base.Result.{err}
use sentinel_chain.Base.Runtime.{Runtime}
use sentinel_chain.Resilience.Breaker.{
  CircuitState, closed, opened, half_open, CircuitBreaker, assertion_failed, fresh, allow,
  on_success, on_failure,
}

-- How the three changing attributes belong together.
abbrev pub Agrees : {A : Type 0} → CircuitState → ℕ → ℕ → Option A → Type 0
Agrees closed threshold failures opened_at = (failures < threshold) × (opened_at ≡ none)
Agrees {A} opened threshold failures opened_at =
    (threshold ≤ failures) × ((t : A) × (opened_at ≡ some t))
Agrees {A} half_open threshold failures opened_at =
    (threshold ≤ failures) × ((t : A) × (opened_at ≡ some t))

module _ {R : Runtime} {E : Type 0} where
  pub record IsConsistent (b : CircuitBreaker R E) : Type 0 where
    pub positive : 0 < b.failure_threshold
    pub agrees : Agrees b.state b.failure_threshold b.failures b.opened_at

  pub fresh-IsConsistent :
      (threshold : ℕ) (timeout : R.Float) (excl : E → Bool)
      → 0 < threshold
      → IsConsistent (fresh threshold timeout excl)
  fresh-IsConsistent threshold timeout excl h = record { positive = h; agrees = (h, refl) }

  pub allow-IsConsistent :
      (now : R.Float) (b : CircuitBreaker R E) → IsConsistent b → IsConsistent (allow now b).1
  unfolding allow
  allow-IsConsistent now b h = ground arith

  pub on_success-IsConsistent :
      (b : CircuitBreaker R E) → IsConsistent b → IsConsistent (on_success b)
  unfolding on_success
  on_success-IsConsistent b h = ground arith

  pub on_failure-IsConsistent :
      (now : R.Float) (b : CircuitBreaker R E) → IsConsistent b → IsConsistent (on_failure now b)
  unfolding on_failure
  on_failure-IsConsistent now b h = ground arith

  -- The assertion of `_allow` holds.
  pub allow_no_assertion :
      (now : R.Float) (b : CircuitBreaker R E)
      → IsConsistent b
      → (allow now b).0 ≢ err assertion_failed
  unfolding allow
  allow_no_assertion now b h = ground arith
