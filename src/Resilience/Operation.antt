-- ===== src/Resilience/Operation.antt =====
-- `operation_id` of libs/common/src/sentinelchain_common/resilience.py, over a digest.
pub mod Parts
mod Tests
use sentinel_chain.Base.{String, List, [], ◌∷◌}
use sentinel_chain.Base.Text.{concat}

-- `"|".join(parts)`
abbrev pub join_parts : List String → String
join_parts [] = ""
join_parts (s ∷ []) = s
join_parts (s ∷ t ∷ parts) = concat (s ∷ "|" ∷ join_parts (t ∷ parts) ∷ [])

unfoldable pub operation_id : (String → String) → List String → String
operation_id sha256 parts = sha256 (join_parts parts)
