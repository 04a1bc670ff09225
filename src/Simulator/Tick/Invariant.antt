-- ===== src/Simulator/Tick/Invariant.antt =====
-- What holds during a tick, and the rules by which its steps keep it.
use sentinel_chain.Base.{ℕ, ◌+◌, String, ◌≡◌, ◌∙◌, List, [], ◌∷◌, All, length, arith}
use sentinel_chain.Base.Result.{ok}
use sentinel_chain.Base.Exec.{pure, gets, ◌>>=◌, for_each}
use sentinel_chain.Base.Exec.Hoare.{
  Holds, Triple, Triple-pure, Triple-bind, Triple-for_each, Triple-if,
}
use sentinel_chain.Base.Runtime.{Runtime}
use sentinel_chain.Simulator.Models.{Inventory, Shipment, ShipmentEvent, Facility}
use sentinel_chain.Simulator.Decisions.{Random}
use sentinel_chain.Simulator.Tick.Rows.{HasArrived, ids, ids-put_shipment, put_shipment-HasArrived}
use sentinel_chain.Simulator.Tick.{
  World, SimState, Sim, on_rng, on_env, wrote, save_inventory, save_shipment, save_facility,
  add_event, consume_row,
}

-- A sample's items are items of the list, so what holds of all of these holds of them.
pub record SampleLaws {R : Runtime} (random : Random R) : Type 1 where
  pub sample-All :
      {A : Type 0} (P : A → Type 0) (xs ys : List A) (k : ℕ) (rng : random.Rng)
      → All P xs
      → (random.sample xs k rng).0 ≡ ok ys
      → All P ys

module _ {R : Runtime} {X : Type 0} (w : World R X) (start : SimState w) where
  -- In a tick that began at `start` and has counted `writes` rows.
  pub record IsTicking (writes : ℕ) (s : SimState w) : Type 0 where
    pub counted : length s.row_writes ≡ writes + length start.row_writes
    pub arrived : All HasArrived s.rows.shipments
    pub same_ids : ids s.rows.shipments ≡ ids start.rows.shipments
    pub uncommitted : s.committed ≡ start.committed
    pub ticks : s.ticks ≡ start.ticks

  -- After a tick that returned `writes`.
  pub record IsTicked (writes : ℕ) (s : SimState w) : Type 0 where
    pub counted : length s.row_writes ≡ writes + length start.row_writes
    pub arrived : All HasArrived s.rows.shipments
    pub same_ids : ids s.rows.shipments ≡ ids start.rows.shipments
    pub committed : s.committed ≡ s.rows
    pub ticks : s.ticks ≡ start.ticks + 1

  abbrev pub Uncommitted : SimState w → Type 0
  Uncommitted s = s.committed ≡ start.committed

  -- a step that keeps the count, and one that returns the next
  abbrev pub Step : {A : Type 0} → ℕ → Sim w A → Type 0
  Step n m = Triple (IsTicking n) m (λ a. IsTicking n) Uncommitted

  abbrev pub Counts : ℕ → Sim w ℕ → Type 0
  Counts n m = Triple (IsTicking n) m IsTicking Uncommitted

  pub on_rng-Step : {A : Type 0} (n : ℕ) (m : w.random.Rng → A × w.random.Rng) → Step n (on_rng w m)
  unfolding on_rng
  on_rng-Step n m = record { at = λ s h. ground arith }

  pub on_env-Step : {A : Type 0} (n : ℕ) (m : w.Env → A × w.Env) → Step n (on_env w m)
  unfolding on_env
  on_env-Step n m = record { at = λ s h. ground arith }

  pub gets-Step : {A : Type 0} (n : ℕ) (f : SimState w → A) → Step n (gets f)
  gets-Step n f = record { at = λ s h. h }

  pub wrote-Counts : (table op : String) (n : ℕ) → Counts n (wrote w table op n)
  unfolding wrote
  wrote-Counts table op n = record { at = λ s h. ground arith }

  pub save_inventory-Step : (n : ℕ) (inv : Inventory R) → Step n (save_inventory w inv)
  unfolding save_inventory
  save_inventory-Step n inv = record { at = λ s h. ground arith }

  pub save_facility-Step : (n : ℕ) (facility : Facility R) → Step n (save_facility w facility)
  unfolding save_facility
  save_facility-Step n facility = record { at = λ s h. ground arith }

  pub add_event-Step : (n : ℕ) (event : ShipmentEvent R) → Step n (add_event w event)
  unfolding add_event
  add_event-Step n event = record { at = λ s h. ground arith }

  pub save_shipment-Step :
      (n : ℕ) (shipment : Shipment R) → HasArrived shipment → Step n (save_shipment w shipment)
  unfolding save_shipment
  save_shipment-Step n shipment ok_row = record {
    at = λ s h. record {
      counted = h.counted;
      uncommitted = h.uncommitted;
      ticks = h.ticks;
      arrived = put_shipment-HasArrived shipment s.rows.shipments ok_row h.arrived;
      same_ids = ids-put_shipment shipment s.rows.shipments ∙ h.same_ids;
    };
  }

  pub Step-then :
      {A B : Type 0} {n : ℕ} {Q : B → SimState w → Type 0} (m : Sim w A) (f : A → Sim w B)
      → Step n m
      → ((a : A) → Triple (IsTicking n) (f a) Q Uncommitted)
      → Triple (IsTicking n) (m >>= f) Q Uncommitted
  Step-then m f hm hf = Triple-bind m f hm hf

  pub Counts-then :
      {B : Type 0} {n : ℕ} {Q : B → SimState w → Type 0} (m : Sim w ℕ) (f : ℕ → Sim w B)
      → Counts n m
      → ((n' : ℕ) → Triple (IsTicking n') (f n') Q Uncommitted)
      → Triple (IsTicking n) (m >>= f) Q Uncommitted
  Counts-then m f hm hf = Triple-bind m f hm hf

  -- A fact that a step has established beside the count.
  pub having :
      {B : Type 0} {n : ℕ} {Q : B → SimState w → Type 0} {m : Sim w B} (C : Type 0)
      → (C → Triple (IsTicking n) m Q Uncommitted)
      → Triple (λ s. C × IsTicking n s) m Q Uncommitted
  having C h = record { at = λ s k. (h k.0).at s k.1 }

  pub Counts-pure : (n : ℕ) → Counts n (pure n)
  Counts-pure n = record { at = λ s h. h }

  pub ruleset tick_rules = (
    Step-then, Counts-then, Counts-pure, Triple-if, on_rng-Step, on_env-Step, gets-Step,
    wrote-Counts, save_inventory-Step, save_facility-Step, add_event-Step,
  )

  pub consume_row-Counts :
      (now : R.Datetime) (inv : Inventory R) (n : ℕ) → Counts n (consume_row w now inv n)
  unfolding consume_row
  consume_row-Counts now inv n = search tick_rules depth 8

  pub for_each-Counts :
      {A : Type 0} (P : A → Type 0) (body : A → ℕ → Sim w ℕ)
      → ((x : A) (n : ℕ) → P x → Counts n (body x n))
      → (xs : List A) (n : ℕ) → All P xs
      → Counts n (for_each body xs n)
  unfolding for_each
  for_each-Counts P body step [] n hs = Counts-pure n
  for_each-Counts P body step (x ∷ xs) n hs =
      Counts-then (body x n) (λ n'. for_each body xs n') (step x n hs.0)
        (λ n'. for_each-Counts P body step xs n' hs.1)
