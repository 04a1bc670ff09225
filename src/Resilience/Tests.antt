-- ===== src/Resilience/Tests.antt =====
-- Runs of the breaker and of retried calls.
use sentinel_chain.Base.{
  ℕ, ◌+◌, ◌<◌, ◌≤◌, ◌≡◌, ◌≢◌, refl, Bool, true, false, some, List, [], ◌∷◌, arith, ltb,
  if◌then◌else◌, String,
}
use sentinel_chain.Base.Int.{ℤ, pos, ◌+ℤ◌, ◌-ℤ◌}
use sentinel_chain.Base.Result.{Result, ok, err}
use sentinel_chain.Samples.{micro}
use sentinel_chain.Samples.Retries.{quiet_effects, three_attempts, quiet_pause}
use sentinel_chain.Resilience.Breaker.{CircuitBreaker, fresh, allow, call, opened, assertion_failed}
use sentinel_chain.Resilience.Breaker.History.{
  Event, begin, finish, after, no_assertion_failure, Matches, after-Matches_history,
}
use sentinel_chain.Resilience.Breaker.Calls.{call_when_opened}
use sentinel_chain.Resilience.Retry.{retry_async, pause, delay_for}
use sentinel_chain.Resilience.Retry.Attempts.{Ends, retry_async-Ends}
use sentinel_chain.Resilience.Retry.Count.{retry_async-calls}

-- Every exception is an `Exception`, and none is excluded.
abbrev always : String → Bool
always e = true

abbrev never : String → Bool
never e = false

-- Two calls that began together both fail, and a third begins after the timeout.
abbrev overlapping : List (Event micro String ℕ)
overlapping =
    begin (pos 90000000)
    ∷ finish (err "refused") (pos 3000000)
    ∷ finish (err "refused") (pos 2000000)
    ∷ begin (pos 1000000)
    ∷ begin (pos 1000000)
    ∷ []

no_assertion_failure_example :
    (allow (pos 91000000) (after always overlapping (fresh 2 (pos 30000000) never))).0
    ≢ err assertion_failed
no_assertion_failure_example =
    no_assertion_failure always 2 (pos 30000000) never overlapping (pos 91000000) omega arith

after-Matches_history_example :
    Matches always never 2
      (pos 30000000)
      overlapping
      (after always overlapping (fresh 2 (pos 30000000) never))
after-Matches_history_example =
    after-Matches_history always never 2 (pos 30000000) overlapping omega arith

-- A world that is the time, and a function that takes a second and returns.
abbrev one_second : ℤ → Result String ℕ × ℤ
one_second t = (ok 7, t +ℤ pos 1000000)

abbrev tripped : CircuitBreaker micro String
tripped = record (fresh 2 (pos 30000000) never) {
  state = opened;
  failures = 2;
  opened_at = some (pos 3000000);
}

call_when_opened_example :
    call always (λ t. t) one_second tripped (pos 40000000)
    ≡ (ok 7, fresh 2 (pos 30000000) never, pos 41000000)
unfolding ◌-ℤ◌ ◌+ℤ◌
call_when_opened_example =
    call_when_opened always (λ t. t) one_second tripped (pos 40000000) (pos 3000000) refl refl

-- A world that counts the attempts; the third returns.
abbrev third_time : ℕ → Result String ℕ × ℕ
third_time n = (if ltb n 2 then err "busy" else ok n, n + 1)

retry_async-Ends_example : Ends (quiet_effects micro) three_attempts third_time 1 0 (ok 2, 3)
unfolding retry_async pause delay_for
retry_async-Ends_example =
    retry_async-Ends (quiet_effects micro) three_attempts third_time 0 omega arith

retry_async-calls_example :
    (0 < (retry_async (quiet_effects micro) three_attempts third_time 0).1)
    × ((retry_async (quiet_effects micro) three_attempts third_time 0).1 ≤ 3)
retry_async-calls_example =
    retry_async-calls (quiet_effects micro) three_attempts third_time (λ n. n) (λ n. refl)
      (quiet_pause three_attempts) 0 omega arith
