-- ===== src/Simulator/Tick.antt =====
-- The class `Simulator` of
-- services/supply-chain-simulator/src/supply_chain_simulator/simulator.py.
use sentinel_chain.Base.{
  ℕ, zero, suc, ◌+◌, ◌/◌, String, str_eq, Bool, true, false, not, ◌&&◌, Option, none, some, List,
  [], ◌∷◌, ◌++◌, length, if◌then◌else◌, ltb,
}
use sentinel_chain.Base.Int.{ℤ, pos}
use sentinel_chain.Base.Result.{Result, ok, err}
use sentinel_chain.Base.Exec.{Exec, pure, lift, gets, modify, ◌>>=◌, ◌>>◌, for_each}
use sentinel_chain.Base.Runtime.{Runtime, StdError}
use sentinel_chain.Simulator.Models.{Uuid, Database, Inventory, Shipment, ShipmentEvent, Facility}
use sentinel_chain.Simulator.Decisions.{Random, consume_inventory, drift_eta, advance_status}
pub mod Rows
pub mod Invariant
pub mod Parts
pub mod Whole

-- What the simulator works with: the generator, the clock, `uuid.uuid4`, `round(x, 4)`, and the
-- outcome of a commit of the rows.
pub record World (R : Runtime) (X : Type 0) : Type 1 where
  pub random : Random R
  pub tick_seconds : R.Float
  pub Env : Type 0
  pub utcnow : Env → R.Datetime × Env
  pub uuid4 : Env → Uuid × Env
  pub round4 : R.Float → R.Float
  pub try_commit : Database R → Env → Result X (Unit {0}) × Env

-- What the simulator raises: an exception of the database, one of the generator, or the violation
-- of a foreign key.
pub data Fault (X : Type 0) : Type 0 where
  database : X → Fault X
  generator : StdError → Fault X
  integrity : Fault X

-- The rows as the session sees them, those last committed, and the metrics: the labels of each
-- increment of ROW_WRITES, the newest first, and TICKS.
pub record SimState {R : Runtime} {X : Type 0} (w : World R X) : Type 0 where
  pub rows : Database R
  pub committed : Database R
  pub rng : w.random.Rng
  pub env : w.Env
  pub row_writes : List (String × String)
  pub ticks : ℕ

-- A change of the object that stands for a row: the row with its key is replaced.
unfoldable pub replace_row : {A : Type 0} → (A → Bool) → A → List A → List A
replace_row is_it row [] = []
replace_row is_it row (r ∷ rs) = (if is_it r then row else r) ∷ replace_row is_it row rs

-- `.first()`
abbrev pub first : {A : Type 0} → List A → Option A
first [] = none
first (x ∷ xs) = some x

module _ {R : Runtime} where
  unfoldable pub put_inventory : Inventory R → List (Inventory R) → List (Inventory R)
  put_inventory inv rows =
      replace_row
        (λ (r : Inventory R).
          str_eq r.warehouse_id inv.warehouse_id && str_eq r.product_id inv.product_id)
        inv rows

  unfoldable pub put_shipment : Shipment R → List (Shipment R) → List (Shipment R)
  put_shipment shipment rows =
      replace_row (λ (r : Shipment R). str_eq r.shipment_id shipment.shipment_id) shipment rows

  unfoldable pub put_facility : Facility R → List (Facility R) → List (Facility R)
  put_facility facility rows =
      replace_row (λ (r : Facility R). str_eq r.facility_id facility.facility_id) facility rows

  -- `Shipment.status.not_in(("delivered", "cancelled"))`
  abbrev pub is_active : Shipment R → Bool
  is_active s = not (str_eq s.status "delivered") && not (str_eq s.status "cancelled")

  unfoldable pub active_shipments : List (Shipment R) → List (Shipment R)
  active_shipments [] = []
  active_shipments (s ∷ rows) =
      let rest = active_shipments rows in if is_active s then s ∷ rest else rest

  -- `k=max(1, len(active) // 2)`
  unfoldable pub sample_size : List (Shipment R) → ℕ
  sample_size active = if ltb 1 (length active / 2) then length active / 2 else 1

module _ {R : Runtime} {X : Type 0} (w : World R X) where
  abbrev pub Sim : Type 0 → Type 0
  Sim A = Exec (Fault X) (SimState w) A

  module _ {A : Type 0} where
    unfoldable pub on_rng : (w.random.Rng → A × w.random.Rng) → Sim A
    on_rng m s = let (a, rng) = m s.rng in (ok a, record s { rng = rng })

    unfoldable pub on_env : (w.Env → A × w.Env) → Sim A
    on_env m s = let (a, env) = m s.env in (ok a, record s { env = env })

  -- `ROW_WRITES.labels(table, op).inc()` and `writes += 1`
  unfoldable pub wrote : String → String → ℕ → Sim ℕ
  wrote table op writes s = (ok (writes + 1), record s { row_writes = (table, op) ∷ s.row_writes })

  unfoldable pub save_inventory : Inventory R → Sim (Unit {0})
  save_inventory inv =
      modify
        (λ s. record s { rows = record s.rows { inventory = put_inventory inv s.rows.inventory } })

  unfoldable pub save_shipment : Shipment R → Sim (Unit {0})
  save_shipment shipment = modify (λ s. record s {
    rows = record s.rows { shipments = put_shipment shipment s.rows.shipments };
  })

  unfoldable pub save_facility : Facility R → Sim (Unit {0})
  save_facility facility = modify (λ s. record s {
    rows = record s.rows { facilities = put_facility facility s.rows.facilities };
  })

  unfoldable pub add_event : ShipmentEvent R → Sim (Unit {0})
  add_event event = modify (λ s. record s {
    rows = record s.rows { shipment_events = s.rows.shipment_events ++ event ∷ [] };
  })

  -- the body of the loop over the inventory
  unfoldable pub consume_row : R.Datetime → Inventory R → ℕ → Sim ℕ
  consume_row now inv writes = do
    new_qty ←
        on_rng
          (consume_inventory w.random inv.quantity_on_hand inv.average_daily_usage w.tick_seconds)
    save_inventory (record inv { quantity_on_hand = w.round4 new_qty; updated_at = now })
    wrote "inventory" "update" writes

  unfoldable pub consume_rows : Sim ℕ
  consume_rows = do
    now ← on_env w.utcnow
    rows ← gets (λ (s : SimState w). s.rows.inventory)
    for_each (consume_row now) rows 0

  -- the new ETA, if there is one
  unfoldable pub drift : Shipment R → Option R.Datetime → Sim (Shipment R)
  drift shipment none = pure shipment
  drift shipment (some eta) = do
    eta' ← on_rng (drift_eta w.random eta)
    pure (record shipment { estimated_arrival_at = some eta' })

  -- the block under `if new_status != shipment.status`
  unfoldable pub change_status : R.Datetime → Shipment R → String → ℕ → Sim (Shipment R × ℕ)
  change_status now shipment new_status writes = do
    let moved = record shipment { status = new_status }
    let arrived =
        if str_eq new_status "delivered"
        then record moved { actual_arrival_at = some now }
        else moved
    id ← on_env w.uuid4
    add_event (record {
      shipment_event_id = id;
      shipment_id = shipment.shipment_id;
      event_type = "status_change";
      status = some new_status;
      note = none;
      occurred_at = now;
      created_at = now;
    })
    writes' ← wrote "shipment_events" "insert" writes
    pure (arrived, writes')

  -- the body of the loop over the sample
  unfoldable pub progress_row : R.Datetime → Shipment R → ℕ → Sim ℕ
  unfolding drift
  progress_row now shipment writes = do
    drifted ← drift shipment shipment.estimated_arrival_at
    new_status ← on_rng (advance_status w.random drifted.status (R.lit (pos 3) 1))
    changed ←
        if str_eq new_status drifted.status
        then pure (drifted, writes)
        else change_status now drifted new_status writes
    save_shipment (record changed.0 { updated_at = now })
    wrote "shipments" "update" changed.1

  abbrev pub from_generator : {A : Type 0} → Result StdError A → Result (Fault X) A
  from_generator (ok a) = ok a
  from_generator (err e) = err (generator e)

  unfoldable pub progress : R.Datetime → List (Shipment R) → Sim ℕ
  progress now [] = pure 0
  progress now (s ∷ rest) = do
    drawn ← on_rng (w.random.sample (s ∷ rest) (sample_size (s ∷ rest)))
    chosen ← lift (from_generator drawn)
    for_each (progress_row now) chosen 0

  unfoldable pub progress_shipments : Sim ℕ
  progress_shipments = do
    now ← on_env w.utcnow
    rows ← gets (λ (s : SimState w). s.rows.shipments)
    progress now (active_shipments rows)

  unfoldable pub toggle : Option (Facility R) → Sim ℕ
  toggle none = pure 0
  toggle (some facility) = do
    now ← on_env w.utcnow
    save_facility (record facility {
      status = if str_eq facility.status "active" then "paused" else "active";
      updated_at = now;
    })
    wrote "facilities" "update" 0

  unfoldable pub maybe_toggle_facility : R.Float → Sim ℕ
  unfolding toggle
  maybe_toggle_facility probability = do
    x ← on_rng w.random.random
    facilities ← gets (λ (s : SimState w). s.rows.facilities)
    if R.ltb_f x probability then toggle (first facilities) else pure 0

  -- `session.commit()`
  unfoldable pub commit : Sim (Unit {0})
  commit s = let (r, env) = w.try_commit s.rows s.env in committed_as r env
    where
      committed_as : Result X (Unit {0}) → w.Env → Result (Fault X) (Unit {0}) × SimState w
      committed_as (ok u) env = (ok u, record s { committed = s.rows; env = env })
      committed_as (err x) env = (err (database x), record s { env = env })

  unfoldable pub tick : Sim ℕ
  tick = do
    consumed ← consume_rows
    progressed ← progress_shipments
    toggled ← maybe_toggle_facility (R.lit (pos 5) 2)
    commit
    modify (λ (s : SimState w). record s { ticks = s.ticks + 1 })
    pure (consumed + progressed + toggled)
