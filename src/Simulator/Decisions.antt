-- ===== src/Simulator/Decisions.antt =====
-- The decision functions of
-- services/supply-chain-simulator/src/supply_chain_simulator/simulator.py.
use sentinel_chain.Base.{
  ℕ, String, str_eq, Bool, true, false, Option, none, some, List, [], ◌∷◌, if◌then◌else◌,
}
use sentinel_chain.Base.Int.{ℤ, pos, negsuc}
use sentinel_chain.Base.Dict.{Dict, lookup}
use sentinel_chain.Base.Result.{Result}
use sentinel_chain.Base.Runtime.{Runtime, StdError}
pub mod Lifecycle
pub mod Stock

-- `random.Random`, with the draws that the simulator makes: `uniform(lo, hi)`, `random()`, and
-- `sample(xs, k=k)`.
pub record Random (R : Runtime) : Type 1 where
  pub Rng : Type 0
  pub uniform : R.Float → R.Float → Rng → R.Float × Rng
  pub random : Rng → R.Float × Rng
  -- which raises if the list has fewer than k items
  pub sample : {A : Type 0} → List A → ℕ → Rng → Result StdError (List A) × Rng

-- `SHIPMENT_STATUS_FLOW`
abbrev pub shipment_status_flow : Dict (Option String)
shipment_status_flow =
    ("created", some "in_transit")
    ∷ ("in_transit", some "customs")
    ∷ ("customs", some "out_for_delivery")
    ∷ ("out_for_delivery", some "delivered")
    ∷ ("delivered", none)
    ∷ []

-- `SHIPMENT_STATUS_FLOW.get(status)`: `None` for a terminal or an unknown status.
abbrev pub next_of : Option (Option String) → Option String
next_of none = none
next_of (some next) = next

unfoldable pub next_status : String → Option String
unfolding lookup
next_status status = next_of (lookup status shipment_status_flow)

-- Python's `max(0.0, x)`: the first unless the second is greater.
abbrev pub max_f : (R : Runtime) → R.Float → R.Float → R.Float
max_f R a b = if R.ltb_f a b then b else a

module _ {R : Runtime} (rnd : Random R) where
  unfoldable pub consume_inventory :
      (quantity_on_hand average_daily_usage tick_seconds : R.Float) → rnd.Rng → R.Float × rnd.Rng
  consume_inventory quantity usage tick rng =
      let fraction_of_day = R.div_f tick (R.lit (pos 86400) 0) in
      let (jitter, rng') = rnd.uniform (R.lit (pos 6) 1) (R.lit (pos 14) 1) rng in
      let consumed = R.mul_f (R.mul_f usage fraction_of_day) jitter in
      (max_f R (R.lit (pos 0) 0) (R.sub_f quantity consumed), rng')

  -- `timedelta(minutes=m)` is 60 m seconds.
  unfoldable pub drift_eta : R.Datetime → rnd.Rng → R.Datetime × rnd.Rng
  drift_eta eta rng =
      let (minutes, rng') = rnd.uniform (R.lit (negsuc 29) 0) (R.lit (pos 90) 0) rng in
      (R.plus_seconds eta (R.mul_f minutes (R.lit (pos 60) 0)), rng')

  maybe_advance : String → R.Float → Option String → rnd.Rng → String × rnd.Rng
  maybe_advance status probability none rng = (status, rng)
  maybe_advance status probability (some next) rng =
      let (x, rng') = rnd.random rng in (if R.ltb_f x probability then next else status, rng')

  -- A draw is made only if there is a next status.
  unfoldable pub advance_status : String → R.Float → rnd.Rng → String × rnd.Rng
  unfolding maybe_advance
  advance_status status probability rng = maybe_advance status probability (next_status status) rng
