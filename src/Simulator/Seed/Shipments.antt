-- ===== src/Simulator/Seed/Shipments.antt =====
-- The shipments after those of a list are merged into them.
use sentinel_chain.Base.{
  str_eq, eq_iff, ◌≡◌, refl, ap, ◌∙◌, ◌⊎◌, inl, inr, Bool, Bool-cases, Option, none, some, List, [],
  ◌∷◌, map, All, if◌then◌else◌, arith,
}
use sentinel_chain.Base.Runtime.{Runtime}
use sentinel_chain.Simulator.Models.{Uuid, Shipment}
use sentinel_chain.Simulator.Tick.Rows.{HasArrived}
use sentinel_chain.Simulator.Seed.{merge_row}
use sentinel_chain.Simulator.Seed.Keys.{text_keys, add_keys, keys-merge_row}

module _ {R : Runtime} where
  -- The rows with those of a list merged in.
  unfoldable pub put_shipments : List (Shipment R) → List (Shipment R) → List (Shipment R)
  put_shipments [] rows = rows
  put_shipments (r ∷ rs) rows =
      put_shipments rs (merge_row (λ (a b : Shipment R). str_eq a.shipment_id b.shipment_id) r rows)

  pub keys-put_shipments :
      (rs rows : List (Shipment R))
      → map (λ (r : Shipment R). r.shipment_id) (put_shipments rs rows)
        ≡ add_keys text_keys
            (map (λ (r : Shipment R). r.shipment_id) rs)
            (map (λ (r : Shipment R). r.shipment_id) rows)
  unfolding put_shipments add_keys
  keys-put_shipments [] rows = refl
  keys-put_shipments (r ∷ rs) rows =
      keys-put_shipments rs _
      ∙ ap (add_keys text_keys (map (λ (x : Shipment R). x.shipment_id) rs))
          (keys-merge_row text_keys (λ (x : Shipment R). x.shipment_id) r rows)

  -- The row with that key.
  unfoldable pub find_shipment : Uuid → List (Shipment R) → Option (Shipment R)
  find_shipment id [] = none
  find_shipment id (r ∷ rs) = if str_eq r.shipment_id id then some r else find_shipment id rs

  find_shipment-merge_row :
      (id : Uuid) (row : Shipment R) (rows : List (Shipment R))
      → find_shipment id
          (merge_row (λ (a b : Shipment R). str_eq a.shipment_id b.shipment_id) row rows)
        ≡ (if str_eq row.shipment_id id then some row else find_shipment id rows)
  unfolding find_shipment merge_row
  find_shipment-merge_row id row [] = refl
  find_shipment-merge_row id row (r ∷ rows) = ground (
    arith,
    eq_iff r.shipment_id row.shipment_id,
    eq_iff r.shipment_id id,
    eq_iff row.shipment_id id,
    find_shipment-merge_row id row rows,
  )

  -- A row on its way, as the seed makes it.
  pub record IsUnderWay (r : Shipment R) : Type 0 where
    pub in_transit : r.status ≡ "in_transit"
    pub not_arrived : r.actual_arrival_at ≡ none

  abbrev pub Restarted : Option (Shipment R) → Type 0
  Restarted none = ⊥
  Restarted (some r) = IsUnderWay r

  Restarted-merge_row :
      (id : Uuid) (row : Shipment R) (rows : List (Shipment R))
      → IsUnderWay row
      → (row.shipment_id ≡ id) ⊎ Restarted (find_shipment id rows)
      → Restarted (
          find_shipment id
            (merge_row (λ (a b : Shipment R). str_eq a.shipment_id b.shipment_id) row rows))
  Restarted-merge_row id row rows h here = elim (Bool-cases (str_eq row.shipment_id id)) [
    | inl e ↦ rw (find_shipment-merge_row id row rows, e) h
    | inr e ↦ elim here [
      | inl same ↦ absurd (cc ((eq_iff row.shipment_id id).1 same, e))
      | inr old ↦ rw (find_shipment-merge_row id row rows, e) old
    ]
  ]

  -- Whether a row with that key is among those merged.
  abbrev pub IsAmong : Uuid → List (Shipment R) → Type 0
  IsAmong id [] = ⊥
  IsAmong id (r ∷ rs) = (r.shipment_id ≡ id) ⊎ IsAmong id rs

  pub put_shipments-Restarted :
      (id : Uuid) (rs rows : List (Shipment R))
      → All IsUnderWay rs
      → IsAmong id rs ⊎ Restarted (find_shipment id rows)
      → Restarted (find_shipment id (put_shipments rs rows))
  unfolding put_shipments
  put_shipments-Restarted id [] rows hs (inl there) = absurd there
  put_shipments-Restarted id [] rows hs (inr old) = old
  put_shipments-Restarted id (r ∷ rs) rows hs (inl (inl same)) =
      put_shipments-Restarted id rs _ hs.1 (inr (Restarted-merge_row id r rows hs.0 (inl same)))
  put_shipments-Restarted id (r ∷ rs) rows hs (inl (inr later)) =
      put_shipments-Restarted id rs _ hs.1 (inl later)
  put_shipments-Restarted id (r ∷ rs) rows hs (inr old) =
      put_shipments-Restarted id rs _ hs.1 (inr (Restarted-merge_row id r rows hs.0 (inr old)))

  pub merge_row-All :
      (P : Shipment R → Type 0) (same : Shipment R → Shipment R → Bool) (row : Shipment R)
      (rows : List (Shipment R))
      → P row
      → All P rows
      → All P (merge_row same row rows)
  unfolding merge_row
  merge_row-All P same row [] h hs = (h, tt)
  merge_row-All P same row (r ∷ rows) h hs = elim (Bool-cases (same r row)) [
    | inl e ↦ rw e (h, hs.1)
    | inr e ↦ rw e (hs.0, merge_row-All P same row rows h hs.1)
  ]

  pub put_shipments-HasArrived :
      (rs rows : List (Shipment R))
      → All HasArrived rs
      → All HasArrived rows
      → All HasArrived (put_shipments rs rows)
  unfolding put_shipments
  put_shipments-HasArrived [] rows hs h = h
  put_shipments-HasArrived (r ∷ rs) rows hs h =
      put_shipments-HasArrived rs _ hs.1 (merge_row-All HasArrived _ r rows hs.0 h)
