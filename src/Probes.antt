-- ===== src/Probes.antt =====
-- The health servers of the two services: services/ingestion-usgs/src/ingestion_usgs/health.py and
-- services/supply-chain-simulator/src/supply_chain_simulator/health.py, which are the same but for
-- a comment, and the probe that each `main.py` gives to its server.
pub mod Answers
pub mod Services
mod Tests
use Prim.Native.String.{len}
use sentinel_chain.Base.{ℕ, String, str_eq, Bool, true, false, if◌then◌else◌, List, [], ◌∷◌}
use sentinel_chain.Base.Text.{concat}

-- What `_respond` writes.
pub record Reply : Type 0 where
  pub code : ℕ
  pub content_type : String
  pub content_length : ℕ
  pub body : String

-- `json.dumps({"status": status})` of a text without letters to escape
abbrev pub status_body : String → String
status_body status = concat ("{\"status\": \"" ∷ status ∷ "\"}" ∷ [])

abbrev pub respond : ℕ → String → Reply
respond code status = record {
  code = code;
  content_type = "application/json";
  content_length = len (status_body status);
  body = status_body status;
}

abbrev pub respond_ready : Bool → Reply
respond_ready ok = respond (if ok then 200 else 503) (if ok then "ready" else "not_ready")

module _ {W : Type 0} (is_ready : W → Bool × W) where
  -- `do_GET` for a path, over the world that the probe reads and may change
  unfoldable pub do_get : String → W → Reply × W
  do_get path w =
      if str_eq path "/health/live"
      then (respond 200 "alive", w)
      else (if str_eq path "/health/ready"
          then (let (ok, w') = is_ready w in (respond_ready ok, w'))
          else (respond 404 "not_found", w))
