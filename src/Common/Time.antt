-- ===== src/Common/Time.antt =====
-- libs/common/src/sentinelchain_common/time.py
use sentinel_chain.Base.{String, if◌then◌else◌}
use sentinel_chain.Base.Result.{Result, ok, err, ◌>>=◌}
use sentinel_chain.Base.Runtime.{Runtime, StdError, value_error}

module _ (R : Runtime) where
  -- A naive datetime is rejected.
  unfoldable pub to_utc : R.Datetime → Result StdError R.Datetime
  to_utc dt = if R.aware dt then ok (R.as_utc dt) else err value_error

  unfoldable pub isoformat_utc : R.Datetime → Result StdError String
  unfolding to_utc
  isoformat_utc dt = do utc ← to_utc dt; ok (R.replace (R.isoformat utc) "+00:00" "Z")
