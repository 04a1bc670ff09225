-- ===== src/Resilience/Retry/Attempts.antt =====
-- How a retried call ends, from what its attempts do.
use sentinel_chain.Base.{
  sym, ℕ, zero, suc, ◌+◌, ◌<◌, ◌≤◌, ◌≡◌, refl, ◌⊎◌, inl, inr, true, false, Option, none, some,
  arith, Bool-cases,
}
use mathlib.Core.Path.{subst}
use native.Mathlib.Decide.{dec_lt}
use sentinel_chain.Base.Result.{Result, ok, err, Result-cases}
use sentinel_chain.Base.Runtime.{Runtime}
use sentinel_chain.Resilience.Retry.{
  RetryPolicy, Effects, RetryError, raised, pause, retry_from, retry_async,
}

-- What an attempt did, as what the retried call does.
abbrev pub passed_on : {E T : Type 0} → Result E T → Result (RetryError E) T
passed_on (ok t) = ok t
passed_on (err e) = err (raised e)

module _ {R : Runtime} {E T W : Type 0} (fx : Effects R E W) (policy : RetryPolicy R E)
    (func : W → Result E T × W) where
  -- `Tries n a w w'`: from the world `w`, the `n` attempts numbered from `a` each raised an
  -- exception to retry on and were followed by their pause, which left the world `w'`.
  pub data Tries : ℕ → ℕ → W → W → Type 0 where
    start : {a : ℕ} {w : W} → Tries zero a w w
    again :
        {n a : ℕ} {w w₁ w₂ w₃ : W} (e : E)
        → func w ≡ (err e, w₁)
        → policy.retry_on e ≡ true
        → pause fx policy a e w₁ ≡ (ok tt, w₂)
        → Tries n (a + 1) w₂ w₃
        → Tries (suc n) a w w₃

  -- An attempt that no other follows, by its number: it returned, raised an exception that is not
  -- to retry on, or was the last.
  abbrev pub IsLast : ℕ → Result E T → Type 0
  IsLast a (ok t) = Unit
  IsLast a (err e) = (policy.retry_on e ≡ false) ⊎ (a ≡ policy.max_attempts)

  retry_from-last :
      (k a : ℕ) (last : Option E) (w w' : W) (r : Result E T)
      → func w ≡ (r, w')
      → IsLast a r
      → retry_from fx policy func (suc k) a last w ≡ (passed_on r, w')
  unfolding retry_from
  retry_from-last k a last w w' (ok t) f h = ground arith
  retry_from-last k a last w w' (err e) f h = ground arith

  retry_from-again :
      (k a : ℕ) (last : Option E) (e : E) (w w₁ w₂ : W)
      → func w ≡ (err e, w₁)
      → policy.retry_on e ≡ true
      → pause fx policy a e w₁ ≡ (ok tt, w₂)
      → a < policy.max_attempts
      → retry_from fx policy func (suc k) a last w ≡ retry_from fx policy func k (a + 1) (some e) w₂
  unfolding retry_from
  retry_from-again k a last e w w₁ w₂ f h p lt = ground arith

  retry_from-broken :
      (k a : ℕ) (last : Option E) (e : E) (x : RetryError E) (w w₁ w₂ : W)
      → func w ≡ (err e, w₁)
      → policy.retry_on e ≡ true
      → pause fx policy a e w₁ ≡ (err x, w₂)
      → a < policy.max_attempts
      → retry_from fx policy func (suc k) a last w ≡ (err x, w₂)
  unfolding retry_from
  retry_from-broken k a last e x w w₁ w₂ f h p lt = ground arith

  -- How a call that starts at attempt `a` in the world `w` ends. `stops`: some attempts fail and
  -- are retried, and the next is the last. `breaks`: some attempts fail and are retried, the next
  -- fails, and its pause raises.
  pub data Ends (a : ℕ) (w : W) (res : Result (RetryError E) T × W) : Type 0 where
    stops :
        {n : ℕ} {w₁ w₂ : W} {r : Result E T}
        → Tries n a w w₁
        → func w₁ ≡ (r, w₂)
        → IsLast (a + n) r
        → a + n ≤ policy.max_attempts
        → res ≡ (passed_on r, w₂)
        → Ends a w res
    breaks :
        {n : ℕ} {w₁ w₂ w₃ : W} {e : E} {x : RetryError E}
        → Tries n a w w₁
        → func w₁ ≡ (err e, w₂)
        → policy.retry_on e ≡ true
        → a + n < policy.max_attempts
        → pause fx policy (a + n) e w₂ ≡ (err x, w₃)
        → res ≡ (err x, w₃)
        → Ends a w res

  -- One more retried attempt before an end.
  Ends-again :
      {a : ℕ} {w w₁ w₂ : W} {res : Result (RetryError E) T × W} (e : E)
      → func w ≡ (err e, w₁)
      → policy.retry_on e ≡ true
      → pause fx policy a e w₁ ≡ (ok tt, w₂)
      → Ends (a + 1) w₂ res
      → Ends a w res
  Ends-again {a} {w} {w₁} {w₂} e f h p (stops {n} {w₁ = u₁} {w₂ = u₂} {r} tr fin is_last le eq) =
      let shift : a + 1 + n ≡ a + suc n = omega arith in
      stops (again e f h p tr) fin (rw shift at is_last) (omega arith) eq
  Ends-again {a} {w} {w₁} {w₂} e f h p (breaks {n} tr fin re lt stuck eq) =
      let shift : a + 1 + n ≡ a + suc n = omega arith in
      breaks (again e f h p tr) fin re (omega arith) (rw shift at stuck) eq

  -- The loop ends at this attempt.
  last-Ends :
      (k a : ℕ) (last : Option E) (w w' : W) (r : Result E T)
      → func w ≡ (r, w')
      → IsLast a r
      → a ≤ policy.max_attempts
      → Ends a w (retry_from fx policy func (suc k) a last w)
  last-Ends k a last w w' r f h le =
      let here : a ≡ a + 0 = omega arith in
      stops start f (rw here at h) (omega arith) (retry_from-last k a last w w' r f h)

  module _ (k a : ℕ) (last : Option E) (e : E) (w w₁ : W) where
    -- The attempt raised an exception to retry on, and is not the last.
    retried-Ends :
        func w ≡ (err e, w₁)
        → policy.retry_on e ≡ true
        → a < policy.max_attempts
        → ((w₂ : W) → Ends (a + 1) w₂ (retry_from fx policy func k (a + 1) (some e) w₂))
        → Ends a w (retry_from fx policy func (suc k) a last w)
    retried-Ends f h lt ih =
        let p = pause fx policy a e w₁ in
        elim (Result-cases p.0) [
          | inl (u, q) ↦
              let p' : p ≡ (ok tt, p.1) = λ i. (q i, p.1) in
              subst (Ends a w) (sym (retry_from-again k a last e w w₁ p.1 f h p' lt))
                (Ends-again e f h p' (ih p.1))
          | inr (x, q) ↦
              let p' : p ≡ (err x, p.1) = λ i. (q i, p.1) in
              let here : a ≡ a + 0 = omega arith in
              breaks {w₃ = p.1} start f h (omega arith)
                (subst (λ m. pause fx policy m e w₁ ≡ (err x, p.1)) here p')
                (retry_from-broken k a last e x w w₁ p.1 f h p' lt)
        ]

  -- What the first attempt does decides, given how the rest of the loop would end.
  retry_from-Ends_step :
      (k a : ℕ) (last : Option E) (w : W)
      → suc k + a ≡ policy.max_attempts + 1
      → ((e : E) (w₂ : W)
          → 0 < k
          → Ends (a + 1) w₂ (retry_from fx policy func k (a + 1) (some e) w₂))
      → Ends a w (retry_from fx policy func (suc k) a last w)
  retry_from-Ends_step k a last w h ih =
      let w₁ = (func w).1 in
      elim (Result-cases (func w).0) [
        | inl (t, q) ↦ last-Ends k a last w w₁ (ok t) (λ i. (q i, w₁)) tt (omega arith)
        | inr (e, q) ↦ elim (Bool-cases (policy.retry_on e)) [
          | inl re ↦ elim (dec_lt 0 k) [
            | yes more ↦
                retried-Ends k a last e w w₁ (λ i. (q i, w₁)) re (omega arith) (λ w₂. ih e w₂ more)
            | no none_left ↦
                last-Ends k a last w w₁ (err e) (λ i. (q i, w₁)) (inr (omega arith)) (omega arith)
          ]
          | inr no_retry ↦
              last-Ends k a last w w₁ (err e) (λ i. (q i, w₁)) (inl no_retry) (omega arith)
        ]
      ]

  retry_from-Ends :
      (m a : ℕ) (last : Option E) (w : W)
      → 0 < m
      → m + a ≡ policy.max_attempts + 1
      → Ends a w (retry_from fx policy func m a last w)
  retry_from-Ends zero a last w pos h = absurd (omega arith)
  retry_from-Ends (suc k) a last w pos h =
      retry_from-Ends_step k a last w h
        (λ e w₂ more. retry_from-Ends k (a + 1) (some e) w₂ more (omega arith))

  -- Every call of `retry_async` with a positive number of attempts ends: some attempts, fewer
  -- than the maximum, raise exceptions to retry on and are each followed by the pause of their
  -- number; then either one more attempt decides the call, by returning, by raising an exception
  -- that is not to retry on or by being the last, and the call returns or raises what it did; or
  -- the pause after it raises, because the callback raises, the delay cannot be computed or the
  -- sleep is cancelled, and the call raises that.
  pub retry_async-Ends : (w : W) → 0 < policy.max_attempts → Ends 1 w (retry_async fx policy func w)
  unfolding retry_async
  retry_async-Ends w h = retry_from-Ends policy.max_attempts 1 none w h refl
