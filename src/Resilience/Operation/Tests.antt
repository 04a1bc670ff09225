-- ===== src/Resilience/Operation/Tests.antt =====
-- Ids of operations with two parts, over the digest that is its text.
use sentinel_chain.Base.{String, ◌≡◌, refl, List, [], ◌∷◌, All, arith}
use sentinel_chain.Resilience.Operation.{operation_id}
use sentinel_chain.Resilience.Operation.Parts.{IsPart, operation_id-parts}

input_parts : All IsPart ("7" ∷ "v1" ∷ [])
input_parts = ((λ e. omega arith, tt), ((λ e. omega arith, (λ e. omega arith, tt)), tt))

operation_id-parts_example : ◌≡◌ {A = List String} ("7" ∷ "v1" ∷ []) ("7" ∷ "v1" ∷ [])
operation_id-parts_example =
    operation_id-parts (λ s. s) "7" "7" ("v1" ∷ []) ("v1" ∷ []) (λ e. e) input_parts input_parts
      refl

-- A part with the separator is taken for two parts.
separator_in_a_part :
    (sha256 : String → String)
    → operation_id sha256 ("7|v1" ∷ []) ≡ operation_id sha256 ("7" ∷ "v1" ∷ [])
unfolding operation_id
separator_in_a_part sha256 = refl
