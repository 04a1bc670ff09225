-- ===== src/Common/Health.antt =====
-- libs/common/src/sentinelchain_common/health.py
pub mod Readiness
use sentinel_chain.Base.{String, Bool, true, false, ◌&&◌, List, [], ◌∷◌}
use sentinel_chain.Base.Result.{Result, ok, err}
use sentinel_chain.Base.Dict.{Dict, insert}

-- A readiness check: a step of a world `W`, which returns or raises an `Exception`.
abbrev pub ReadinessCheck : Type 0 → Type 0 → Type 0
ReadinessCheck E W = W → Result E Bool × W

-- `_checks`
pub record HealthRegistry (E W : Type 0) : Type 0 where
  pub checks : Dict (ReadinessCheck E W)

-- `_run`
abbrev pub passed : {E : Type 0} → Result E Bool → Bool
passed (ok b) = b
passed (err e) = false

-- `all(results)`, true of no results
unfoldable pub all_pass : Dict Bool → Bool
all_pass [] = true
all_pass ((name, b) ∷ rest) = b && all_pass rest

module _ {E W : Type 0} where
  unfoldable pub register : String → ReadinessCheck E W → HealthRegistry E W → HealthRegistry E W
  register name check registry = record { checks = insert name check registry.checks }

  abbrev pub live : HealthRegistry E W → Dict String
  live registry = ("status", "alive") ∷ []

  -- The gathered results under their names. The checks run at once; here each ends before the
  -- next begins.
  unfoldable pub run_all : Dict (ReadinessCheck E W) → W → Dict Bool × W
  run_all [] w = ([], w)
  run_all ((name, check) ∷ rest) w =
      let (r, w') = check w in
      let (detail, w'') = run_all rest w' in ((name, passed r) ∷ detail, w'')

  unfoldable pub ready : HealthRegistry E W → W → (Bool × Dict Bool) × W
  ready registry w = let (detail, w') = run_all registry.checks w in ((all_pass detail, detail), w')
