-- ===== src/Simulator/Tick/Rows.antt =====
-- Rows that a session replaces by their key.
use sentinel_chain.Base.{
  String, str_eq, eq_iff, ◌≡◌, refl, sym, Bool, true, false, Option, none, some, List, [], ◌∷◌, map,
  All, if◌then◌else◌, Bool-cases, inl, inr, ◌<◌, ◌≤◌, length, arith,
}
use sentinel_chain.Base.Runtime.{Runtime}
use sentinel_chain.Simulator.Models.{Shipment}
use sentinel_chain.Simulator.Tick.{
  sample_size, replace_row, put_shipment, active_shipments, is_active,
}

pub All-replace_row :
    {A : Type 0} (P : A → Type 0) (is_it : A → Bool) (row : A) (rows : List A)
    → P row
    → All P rows
    → All P (replace_row is_it row rows)
unfolding replace_row
All-replace_row P is_it row [] h hs = tt
All-replace_row P is_it row (r ∷ rows) h hs =
    (choose (is_it r), All-replace_row P is_it row rows h hs.1)
  where
    choose : (b : Bool) → P (if b then row else r)
    choose true = h
    choose false = hs.0

module _ {R : Runtime} where
  -- What a shipment's row says of its arrival: one that is delivered has arrived.
  unfoldable pub has_arrived : Shipment R → Bool
  has_arrived s = if str_eq s.status "delivered" then is_set s.actual_arrival_at else true
    where
      is_set : {A : Type 0} → Option A → Bool
      is_set none = false
      is_set (some a) = true

  abbrev pub HasArrived : Shipment R → Type 0
  HasArrived s = has_arrived s ≡ true

  pub ids : List (Shipment R) → List String
  ids rows = map (λ (r : Shipment R). r.shipment_id) rows

  pub ids-put_shipment :
      (s : Shipment R) (rows : List (Shipment R)) → ids (put_shipment s rows) ≡ ids rows
  unfolding put_shipment replace_row ids
  ids-put_shipment s [] = refl
  ids-put_shipment s (r ∷ rows) = elim (Bool-cases (str_eq r.shipment_id s.shipment_id)) [
    | inl e ↦
        let same : s.shipment_id ≡ r.shipment_id = sym ((eq_iff r.shipment_id s.shipment_id).0 e) in
        rw (e, same, ids-put_shipment s rows)
    | inr e ↦ rw (e, ids-put_shipment s rows)
  ]

  pub put_shipment-HasArrived :
      (s : Shipment R) (rows : List (Shipment R))
      → HasArrived s
      → All HasArrived rows
      → All HasArrived (put_shipment s rows)
  unfolding put_shipment
  put_shipment-HasArrived s rows h hs = All-replace_row HasArrived _ s rows h hs

  pub active_shipments-All :
      (P : Shipment R → Type 0) (rows : List (Shipment R))
      → All P rows
      → All P (active_shipments rows)
  unfolding active_shipments
  active_shipments-All P [] hs = tt
  active_shipments-All P (s ∷ rows) hs = elim (Bool-cases (is_active s)) [
    | inl e ↦ rw e (hs.0, active_shipments-All P rows hs.1)
    | inr e ↦ rw e (active_shipments-All P rows hs.1)
  ]

  -- Of a non-empty list of active shipments at least one is sampled, and no more than there are.
  pub sample_size-bounds :
      (active : List (Shipment R))
      → 0 < length active
      → (0 < sample_size active) × (sample_size active ≤ length active)
  unfolding sample_size
  sample_size-bounds active h = (ground arith, ground arith)
