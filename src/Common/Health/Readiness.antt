-- ===== src/Common/Health/Readiness.antt =====
-- When a service is ready.
use sentinel_chain.Base.{String, ◌≡◌, refl, ap, Bool, true, false, ◌&&◌, List, [], ◌∷◌, ◌↔◌}
use sentinel_chain.Base.Result.{Result, ok, err}
use sentinel_chain.Base.Dict.{Dict}
use sentinel_chain.Common.Health.{ReadinessCheck, HealthRegistry, passed, run_all, all_pass, ready}

abbrev pub names : {V : Type 0} → Dict V → List String
names [] = []
names ((name, v) ∷ rest) = name ∷ names rest

module _ {E W : Type 0} where
  -- The checks all return true, each in the world that the one before leaves.
  pub data AllPass : Dict (ReadinessCheck E W) → W → Type 0 where
    no_checks : {w : W} → AllPass [] w
    passes :
        {name : String} {check : ReadinessCheck E W} {rest : Dict (ReadinessCheck E W)} {w w' : W}
        → check w ≡ (ok true, w')
        → AllPass rest w'
        → AllPass ((name, check) ∷ rest) w

  names-run_all :
      (checks : Dict (ReadinessCheck E W)) (w : W) → names (run_all checks w).0 ≡ names checks
  unfolding run_all
  names-run_all [] w = refl
  names-run_all ((name, check) ∷ rest) w = ap (λ ns. name ∷ ns) (names-run_all rest (check w).1)

  all_pass-AllPass :
      (checks : Dict (ReadinessCheck E W)) (w : W)
      → all_pass (run_all checks w).0 ≡ true
      → AllPass checks w
  unfolding all_pass run_all
  all_pass-AllPass [] w h = no_checks
  all_pass-AllPass ((name, check) ∷ rest) w h =
      go (check w) refl h (λ g. all_pass-AllPass rest (check w).1 g)
    where
      go :
          (r : Result E Bool × W)
          → check w ≡ r
          → (passed r.0 && all_pass (run_all rest (check w).1).0) ≡ true
          → (all_pass (run_all rest (check w).1).0 ≡ true → AllPass rest (check w).1)
          → AllPass ((name, check) ∷ rest) w
      go (ok true, w') e h ih = passes (rw e) (ih h)
      go (ok false, w') e h ih = absurd (cc h)
      go (err x, w') e h ih = absurd (cc h)

  AllPass-all_pass :
      {checks : Dict (ReadinessCheck E W)} {w : W}
      → AllPass checks w
      → all_pass (run_all checks w).0 ≡ true
  unfolding all_pass run_all
  AllPass-all_pass no_checks = refl
  AllPass-all_pass (passes {name} {check} {rest} {w} {w'} e h) = rw e (AllPass-all_pass h)

  -- The report of readiness lists the registered names in order, and says ready exactly if every
  -- check returns true: one that returns false or raises makes the service not ready, and raises
  -- nothing.
  pub ready-AllPass :
      (registry : HealthRegistry E W) (w : W)
      → (names (ready registry w).0.1 ≡ names registry.checks)
        × (((ready registry w).0.0 ≡ true) ↔ AllPass registry.checks w)
  unfolding ready
  ready-AllPass registry w = (
    names-run_all registry.checks w,
    (all_pass-AllPass registry.checks w, λ h. AllPass-all_pass h),
  )
