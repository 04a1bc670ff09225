-- ===== src/Simulator/Decisions/Stock.antt =====
-- The quantity that `consume_inventory` leaves.
use sentinel_chain.Base.{◌≡◌, true, false, Bool-cases, inl, inr}
use sentinel_chain.Base.Int.{pos}
use sentinel_chain.Base.Runtime.{Runtime}
use sentinel_chain.Simulator.Decisions.{Random, consume_inventory, max_f}

module _ {R : Runtime} (rnd : Random R) where
  -- Where the order of the floats is asymmetric, the quantity left is never below zero, whatever
  -- the stock, the usage, the tick and the jitter are.
  pub consume_inventory_floor :
      ((a b : R.Float) → R.ltb_f a b ≡ true → R.ltb_f b a ≡ false)
      → (quantity usage tick : R.Float) (rng : rnd.Rng)
      → R.ltb_f (consume_inventory rnd quantity usage tick rng).0 (R.lit (pos 0) 0) ≡ false
  unfolding consume_inventory
  consume_inventory_floor asym quantity usage tick rng = floor _
    where
      zero_zero : R.ltb_f (R.lit (pos 0) 0) (R.lit (pos 0) 0) ≡ false
      zero_zero = elim (Bool-cases (R.ltb_f (R.lit (pos 0) 0) (R.lit (pos 0) 0))) [
        | inl less ↦ asym _ _ less
        | inr fine ↦ fine
      ]

      floor : (x : R.Float) → R.ltb_f (max_f R (R.lit (pos 0) 0) x) (R.lit (pos 0) 0) ≡ false
      floor x = elim (Bool-cases (R.ltb_f (R.lit (pos 0) 0) x)) [
        | inl more ↦ rw more (asym _ _ more)
        | inr less ↦ rw less zero_zero
      ]
