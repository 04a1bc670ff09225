-- ===== src/Usgs/Producer/Delivered.antt =====
-- The set of delivered ids holds only acknowledged ones.
use mathlib.Core.Path.{subst}
use mathlib.Core.Bool.{false≢true}
use sentinel_chain.Base.{
  String, str_eq, eq_iff, ◌≡◌, true, List, [], ◌∷◌, All, Bool-cases, Option-cases, inl, inr,
}
use sentinel_chain.Common.Kafka.{Report}
use sentinel_chain.Common.Kafka.Laws.{Speaks}
use sentinel_chain.Usgs.Producer.{contains, add, on_delivery, on_deliveries}

-- The ids that the callbacks add are acknowledged.
module _ (acked : String → Type 0) where
  add-All : (id : String) (set : List String) → acked id → All acked set → All acked (add id set)
  add-All id set h hs = elim (Bool-cases (contains id set)) [
    | inl old ↦ rw old hs
    | inr new ↦ rw new (h, hs)
  ]

  on_delivery-All :
      {B : Type 0} (report : Report B) (set : List String)
      → Speaks acked report
      → All acked set
      → All acked (on_delivery report set)
  on_delivery-All report set says hs = elim (Bool-cases report.failed) [
    | inl lost ↦ rw lost hs
    | inr fine ↦ rw fine (elim (Option-cases report.message.on_delivery) [
      | inl silent ↦ rw silent hs
      | inr (id, named) ↦ rw named (add-All id set (says fine id named) hs)
    ])
  ]

  pub on_deliveries-All :
      {B : Type 0} (reports : List (Report B)) (set : List String)
      → All (Speaks acked) reports
      → All acked set
      → All acked (on_deliveries reports set)
  on_deliveries-All [] set says hs = hs
  on_deliveries-All (r ∷ rs) set says hs =
      on_deliveries-All rs (on_delivery r set) says.1 (on_delivery-All r set says.0 hs)

  pub contains-acked :
      (id : String) (set : List String) → All acked set → contains id set ≡ true → acked id
  contains-acked id [] hs h = absurd (false≢true h)
  contains-acked id (y ∷ ys) hs h = elim (Bool-cases (str_eq y id)) [
    | inl same ↦ subst acked ((eq_iff y id).0 same) hs.0
    | inr other ↦ contains-acked id ys hs.1 (rw other at h)
  ]

pub All-map {ℓ} :
    {A : Type ℓ} (P Q : A → Type 0) (xs : List A) → ((a : A) → P a → Q a) → All P xs → All Q xs
All-map P Q [] f h = tt
All-map P Q (x ∷ xs) f h = (f x h.0, All-map P Q xs f h.1)
