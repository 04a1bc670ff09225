-- ===== src/Resilience/Breaker.antt =====
-- `CircuitBreaker` of libs/common/src/sentinelchain_common/resilience.py. A call suspends while
-- its function runs, so other calls of the same breaker may come between its two halves: `allow`
-- before the function, `settle` after it.
use sentinel_chain.Base.{ℕ, ◌+◌, Bool, true, false, ◌||◌, Option, none, some, leb, if◌then◌else◌}
use sentinel_chain.Base.Result.{Result, ok, err}
use sentinel_chain.Base.Runtime.{Runtime}
pub mod Invariant
pub mod History
pub mod Calls
pub mod Runs

-- `opened` is OPEN.
pub data CircuitState : Type 0 where
  closed opened half_open : CircuitState

-- The three attributes of the dataclass that configure it, and the three that change.
pub record CircuitBreaker (R : Runtime) (E : Type 0) : Type 0 where
  pub failure_threshold : ℕ
  pub reset_timeout_seconds : R.Float
  -- whether an exception is of one of the excluded types
  pub excluded : E → Bool
  pub state : CircuitState
  pub failures : ℕ
  pub opened_at : Option R.Float

-- What a call raises: `CircuitBreakerOpenError`, the `AssertionError` of `_allow`, or what the
-- function raised.
pub data CallError (E : Type 0) : Type 0 where
  breaker_open assertion_failed : CallError E
  raised : E → CallError E

abbrev pub is_closed : CircuitState → Bool
is_closed closed = true
is_closed _ = false

abbrev pub is_half_open : CircuitState → Bool
is_half_open half_open = true
is_half_open _ = false

module _ {R : Runtime} {E : Type 0} where
  -- `CircuitBreaker(failure_threshold, reset_timeout_seconds, excluded)`
  abbrev pub fresh : ℕ → R.Float → (E → Bool) → CircuitBreaker R E
  fresh threshold timeout excl = record {
    failure_threshold = threshold;
    reset_timeout_seconds = timeout;
    excluded = excl;
    state = closed;
    failures = 0;
    opened_at = none;
  }

  allow_opened :
      Option R.Float
      → R.Float
      → CircuitBreaker R E
      → Result (CallError E) (Unit {0}) × CircuitBreaker R E
  allow_opened none now b = (err assertion_failed, b)
  allow_opened (some at) now b =
      if R.leb_f b.reset_timeout_seconds (R.sub_f now at)
      then (ok tt, record b { state = half_open })
      else (err breaker_open, b)

  -- `_allow`, at the clock reading `now`
  unfoldable pub allow :
      R.Float → CircuitBreaker R E → Result (CallError E) (Unit {0}) × CircuitBreaker R E
  unfolding allow_opened
  allow now b = elim b.state [ opened ↦ allow_opened b.opened_at now b | _ ↦ (ok tt, b) ]

  -- `_on_success`
  unfoldable pub on_success : CircuitBreaker R E → CircuitBreaker R E
  on_success b = record b { failures = 0; state = closed; opened_at = none }

  -- `_on_failure`
  unfoldable pub on_failure : R.Float → CircuitBreaker R E → CircuitBreaker R E
  on_failure now b =
      if is_half_open b.state || leb b.failure_threshold (b.failures + 1)
      then record b { failures = b.failures + 1; state = opened; opened_at = some now }
      else record b { failures = b.failures + 1 }

-- Whether an exception is an `Exception`, as against a mere `BaseException` such as cancellation.
module _ {R : Runtime} {E T : Type 0} (is_exception : E → Bool) where
  -- the `try` statement of `call`, once the function has ended
  unfoldable pub settle :
      Result E T → R.Float → CircuitBreaker R E → Result (CallError E) T × CircuitBreaker R E
  unfolding on_success on_failure
  settle (ok t) now b = (ok t, on_success b)
  settle (err e) now b =
      if b.excluded e
      then (err (raised e), b)
      else if is_exception e
      then (err (raised e), on_failure now b)
      else (err (raised e), b)

-- `call`, where nothing else uses the breaker meanwhile. `now` reads the clock of the world.
module _ {R : Runtime} {E T W : Type 0} (is_exception : E → Bool) (now : W → R.Float) where
  unfoldable pub proceed :
      (W → Result E T × W)
      → Result (CallError E) (Unit {0}) × CircuitBreaker R E
      → W
      → Result (CallError E) T × CircuitBreaker R E × W
  proceed func (err e, b) w = (err e, b, w)
  proceed func (ok _, b) w =
      let (r, w') = func w in let (r', b') = settle is_exception r (now w') b in (r', b', w')

  unfoldable pub call :
      (W → Result E T × W)
      → CircuitBreaker R E
      → W
      → Result (CallError E) T × CircuitBreaker R E × W
  unfolding allow settle proceed
  call func b w = proceed func (allow (now w) b) w
