-- ===== src/Resilience/Breaker/History.antt =====
-- The breaker against its history: what its attributes are after any interleaving of calls, from
-- the events alone.
use sentinel_chain.Base.{
  ℕ, suc, ◌<◌, ◌≡◌, ◌≢◌, Bool, Option, none, some, List, [], ◌∷◌, arith, ltb, if◌then◌else◌, ◌&&◌,
  ◌||◌, false, not,
}
use sentinel_chain.Base.Result.{Result, ok, err}
use sentinel_chain.Base.Runtime.{Runtime}
use sentinel_chain.Resilience.Breaker.{
  CircuitState, closed, opened, half_open, CircuitBreaker, assertion_failed, fresh, allow, settle,
}
use sentinel_chain.Resilience.Breaker.Invariant.{
  IsConsistent, fresh-IsConsistent, allow-IsConsistent, on_success-IsConsistent,
  on_failure-IsConsistent, allow_no_assertion,
}

-- The halves of calls, each with the clock reading at which it runs.
pub data Event (R : Runtime) (E T : Type 0) : Type 0 where
  begin : R.Float → Event R E T
  finish : Result E T → R.Float → Event R E T

-- Whether an exception is one that the breaker counts.
abbrev pub counts : {E : Type 0} → (E → Bool) → (E → Bool) → E → Bool
counts excl is_exception e = not (excl e) && is_exception e

module _ {R : Runtime} {E T : Type 0} (is_exception : E → Bool) where
  abbrev pub handle : Event R E T → CircuitBreaker R E → CircuitBreaker R E
  handle (begin now) b = (allow now b).1
  handle (finish r now) b = (settle is_exception r now b).1

  -- The newest event stands first.
  unfoldable pub after : List (Event R E T) → CircuitBreaker R E → CircuitBreaker R E
  after [] b = b
  after (e ∷ es) b = handle e (after es b)

  handle-IsConsistent :
      (e : Event R E T) (b : CircuitBreaker R E) → IsConsistent b → IsConsistent (handle e b)
  unfolding settle
  handle-IsConsistent (begin now) b h = allow-IsConsistent now b h
  handle-IsConsistent (finish (ok t) now) b h = on_success-IsConsistent b h
  handle-IsConsistent (finish (err e) now) b h = ground (arith, on_failure-IsConsistent now b h)

  after-IsConsistent :
      (es : List (Event R E T)) (b : CircuitBreaker R E)
      → IsConsistent b
      → IsConsistent (after es b)
  unfolding after
  after-IsConsistent [] b h = h
  after-IsConsistent (e ∷ es) b h = handle-IsConsistent e (after es b) (after-IsConsistent es b h)

  -- After any interleaving of calls of a new breaker whose threshold is positive, `_allow` does
  -- not fail its assertion.
  pub no_assertion_failure :
      (threshold : ℕ) (timeout : R.Float) (excl : E → Bool) (es : List (Event R E T))
      (now : R.Float)
      → 0 < threshold
      → (allow now (after es (fresh threshold timeout excl))).0 ≢ err assertion_failed
  no_assertion_failure threshold timeout excl es now h =
      allow_no_assertion now (after es (fresh threshold timeout excl)) (
        after-IsConsistent es (fresh threshold timeout excl)
          (fresh-IsConsistent threshold timeout excl h))

  module _ (excl : E → Bool) where
    -- The failures counted since the last success.
    unfoldable pub trailing : List (Event R E T) → ℕ
    trailing [] = 0
    trailing (begin now ∷ es) = trailing es
    trailing (finish (ok t) now ∷ es) = 0
    trailing (finish (err e) now ∷ es) =
        if counts excl is_exception e then suc (trailing es) else trailing es

    -- When the last counted failure was.
    unfoldable pub last_failure : List (Event R E T) → Option R.Float
    last_failure [] = none
    last_failure (begin now ∷ es) = last_failure es
    last_failure (finish (ok t) now ∷ es) = last_failure es
    last_failure (finish (err e) now ∷ es) =
        if counts excl is_exception e then some now else last_failure es

    -- Whether a call began, since the last counted failure or success, when the timeout had passed
    -- since the last counted failure.
    unfoldable pub tried : R.Float → List (Event R E T) → Bool
    unfolding last_failure
    tried timeout [] = false
    tried timeout (begin now ∷ es) =
        elim (last_failure es) as (λ o. Bool) [
          | none ↦ false
          | some at ↦ R.leb_f timeout (R.sub_f now at)
        ]
        || tried timeout es
    tried timeout (finish (ok t) now ∷ es) = false
    tried timeout (finish (err e) now ∷ es) =
        let before = tried timeout es in if counts excl is_exception e then false else before

    -- The state that the events give.
    abbrev pub state_after : ℕ → R.Float → List (Event R E T) → CircuitState
    state_after threshold timeout es =
        if ltb (trailing es) threshold
        then closed
        else if tried timeout es
        then half_open
        else opened

    -- The attributes of a breaker are those that the history gives.
    pub record Matches (threshold : ℕ) (timeout : R.Float) (es : List (Event R E T))
        (b : CircuitBreaker R E) : Type 0 where
      pub positive : 0 < threshold
      pub same_threshold : b.failure_threshold ≡ threshold
      pub same_timeout : b.reset_timeout_seconds ≡ timeout
      pub same_excluded : (e : E) → b.excluded e ≡ excl e
      pub failures : b.failures ≡ trailing es
      pub state : b.state ≡ state_after threshold timeout es
      pub opened_at : b.opened_at ≡ (if ltb (trailing es) threshold then none else last_failure es)

    fresh-Matches :
        (threshold : ℕ) (timeout : R.Float)
        → 0 < threshold
        → Matches threshold timeout [] (fresh threshold timeout excl)
    unfolding trailing last_failure tried
    fresh-Matches threshold timeout h = ground arith

    begin-Matches :
        (threshold : ℕ) (timeout now : R.Float) (es : List (Event R E T)) (b : CircuitBreaker R E)
        → Matches threshold timeout es b
        → Matches threshold timeout (begin now ∷ es) (allow now b).1
    unfolding trailing last_failure tried allow
    begin-Matches threshold timeout now es b h = ground arith

    finish-Matches :
        (threshold : ℕ) (timeout : R.Float) (r : Result E T) (now : R.Float)
        (es : List (Event R E T)) (b : CircuitBreaker R E)
        → Matches threshold timeout es b
        → Matches threshold timeout (finish r now ∷ es) (settle is_exception r now b).1
    unfolding trailing last_failure tried settle
    finish-Matches threshold timeout (ok t) now es b h = ground arith
    finish-Matches threshold timeout (err e) now es b h = ground (arith, h.same_excluded e)

    handle-Matches :
        (threshold : ℕ) (timeout : R.Float) (e : Event R E T) (es : List (Event R E T))
        (b : CircuitBreaker R E)
        → Matches threshold timeout es b
        → Matches threshold timeout (e ∷ es) (handle e b)
    handle-Matches threshold timeout (begin now) es b h = begin-Matches threshold timeout now es b h
    handle-Matches threshold timeout (finish r now) es b h =
        finish-Matches threshold timeout r now es b h

    after-Matches :
        (threshold : ℕ) (timeout : R.Float) (es : List (Event R E T)) (b : CircuitBreaker R E)
        → Matches threshold timeout [] b
        → Matches threshold timeout es (after es b)
    unfolding after
    after-Matches threshold timeout [] b h = h
    after-Matches threshold timeout (e ∷ es) b h =
        handle-Matches threshold timeout e es (after es b) (after-Matches threshold timeout es b h)

    -- After any interleaving of calls of a new breaker with a positive threshold: the failure
    -- count is that of the counted failures since the last success; the breaker is CLOSED if that
    -- is below the threshold, and otherwise HALF_OPEN if a call has begun since the last counted
    -- failure when the timeout had passed, and OPEN if not; and the opening time is none while the
    -- count is below, and that of the last counted failure otherwise.
    pub after-Matches_history :
        (threshold : ℕ) (timeout : R.Float) (es : List (Event R E T))
        → 0 < threshold
        → Matches threshold timeout es (after es (fresh threshold timeout excl))
    after-Matches_history threshold timeout es h =
        after-Matches threshold timeout es (fresh threshold timeout excl)
          (fresh-Matches threshold timeout h)
