-- ===== src/Simulator/Tick/Parts.antt =====
-- The three parts of a tick.
use sentinel_chain.Base.{
  ℕ, String, str_eq, ◌≡◌, refl, Option, none, some, List, [], ◌∷◌, All, arith,
}
use sentinel_chain.Base.Result.{Result, ok, err}
use sentinel_chain.Base.Exec.{lift, gets, ◌>>=◌, for_each}
use sentinel_chain.Base.Exec.Hoare.{Holds, Triple, Triple-bind, Triple-if}
use sentinel_chain.Base.Runtime.{Runtime, StdError}
use sentinel_chain.Simulator.Models.{Shipment, Facility}
use sentinel_chain.Simulator.Tick.Rows.{HasArrived, has_arrived, active_shipments-All}
use sentinel_chain.Simulator.Tick.{
  World, Fault, SimState, drift, on_rng, on_env, wrote, add_event, consume_row, consume_rows,
  change_status, progress_row, progress, toggle, progress_shipments, maybe_toggle_facility,
  active_shipments, sample_size, from_generator,
}
use sentinel_chain.Simulator.Tick.Invariant.{
  SampleLaws, IsTicking, Uncommitted, Counts, on_rng-Step, on_env-Step, gets-Step, wrote-Counts,
  save_shipment-Step, Step-then, having, tick_rules, Counts-pure, consume_row-Counts,
  for_each-Counts,
}

module _ {R : Runtime} {X : Type 0} (w : World R X) (start : SimState w) where
  -- A row after the changes of a tick, before it is saved, and the rows counted so far.
  abbrev pub Changed : Shipment R × ℕ → SimState w → Type 0
  Changed (s, n) z = HasArrived s × IsTicking w start n z

  pub drift-HasArrived :
      (shipment : Shipment R) (o : Option R.Datetime) (n : ℕ)
      → HasArrived shipment
      → Triple
          (IsTicking w start n)
          (drift w shipment o)
          (λ s z. HasArrived s × IsTicking w start n z)
          (Uncommitted w start)
  unfolding drift on_rng ◌>>=◌ has_arrived
  drift-HasArrived shipment none n h = record { at = λ s k. (h, k) }
  drift-HasArrived shipment (some eta) n h = record { at = λ s k. ground arith }

  pub change_status-Changed :
      (now : R.Datetime) (s : Shipment R) (status : String) (n : ℕ)
      → Triple (IsTicking w start n) (change_status w now s status n) Changed (Uncommitted w start)
  unfolding change_status on_env add_event wrote ◌>>=◌ has_arrived
  change_status-Changed now s status n = record { at = λ z k. ground arith }

  pub kept_status-HasArrived :
      (s : Shipment R) (now : R.Datetime)
      → HasArrived s
      → HasArrived (record s { updated_at = now })
  unfolding has_arrived
  kept_status-HasArrived s now h = h

  pub progress_row-Counts :
      (now : R.Datetime) (s : Shipment R) (n : ℕ)
      → HasArrived s
      → Counts w start n (progress_row w now s n)
  unfolding progress_row
  progress_row-Counts now s n h =
      Triple-bind _ _ (drift-HasArrived s s.estimated_arrival_at n h) λ (drifted : Shipment R).
        having w start (HasArrived drifted) λ h'.
          Step-then w start _ _ (on_rng-Step w start n _) λ status.
            Triple-bind _ _
              (Triple-if (str_eq status drifted.status) _ _ (record { at = λ z k. (h', k) })
                (change_status-Changed now drifted status n))
              λ (changed : Shipment R × ℕ). (having w start) (HasArrived changed.0) λ h''.
                Step-then w start _ _
                  (save_shipment-Step w start changed.1 _
                    (kept_status-HasArrived changed.0 now h''))
                  λ u. wrote-Counts w start "shipments" "update" changed.1

  pub progress-Counts :
      (laws : SampleLaws w.random) (now : R.Datetime) (active : List (Shipment R))
      → All HasArrived active
      → Counts w start 0 (progress w now active)
  unfolding progress on_rng ◌>>=◌
  progress-Counts laws now [] hs = Counts-pure w start 0
  progress-Counts laws now (a ∷ rest) hs = record {
    at = λ s h.
        go s h (w.random.sample (a ∷ rest) (sample_size (a ∷ rest)) s.rng)
          (λ ys. laws.sample-All HasArrived (a ∷ rest) ys _ s.rng hs);
  }
    where
      go :
          (s : SimState w)
          → IsTicking w start 0 s
          → (r : Result StdError (List (Shipment R)) × w.random.Rng)
          → ((ys : List (Shipment R)) → r.0 ≡ ok ys → All HasArrived ys)
          → Holds (IsTicking w start) (Uncommitted w start) (
              (lift (from_generator w r.0) >>= λ chosen. for_each (progress_row w now) chosen 0)
                (record s { rng = r.1 }))
      go s h (ok ys, rng) all =
          (for_each-Counts w start HasArrived (progress_row w now)
              (λ x n hx. progress_row-Counts now x n hx) ys 0 (all ys refl)).at
            (record s { rng = rng }) ground arith
      go s h (err e, rng) all = h.uncommitted

  pub consume_rows-Counts : (Counts w start) 0 (consume_rows w)
  unfolding consume_rows
  consume_rows-Counts = Step-then w start _ _ (on_env-Step w start 0 w.utcnow) λ now.
      Step-then w start _ _ (gets-Step w start 0 _) λ rows.
        for_each-Counts w start (λ inv. Unit {0}) (consume_row w now)
          (λ inv n u. consume_row-Counts w start now inv n) rows 0 (All-unit rows)
    where
      All-unit : {A : Type 0} (xs : List A) → All (λ x. Unit {0}) xs
      All-unit [] = tt
      All-unit (x ∷ xs) = (tt, All-unit xs)

  pub progress_shipments-Counts : SampleLaws w.random → Counts w start 0 (progress_shipments w)
  unfolding progress_shipments
  progress_shipments-Counts laws = Step-then w start _ _ (on_env-Step w start 0 w.utcnow) λ now.
      Triple-bind _ _ gets-arrived λ (rows : List (Shipment R)).
        having w start (All HasArrived rows) λ hs.
          progress-Counts laws now (active_shipments rows) (active_shipments-All HasArrived rows hs)
    where
      gets-arrived :
          Triple {E = Fault X}
            (IsTicking w start 0)
            (gets (λ (s : SimState w). s.rows.shipments))
            (λ rows s. All HasArrived rows × IsTicking w start 0 s)
            (Uncommitted w start)
      gets-arrived = record { at = λ s h. (h.arrived, h) }

  pub toggle-Counts : (o : Option (Facility R)) → Counts w start 0 (toggle w o)
  unfolding toggle
  toggle-Counts none = Counts-pure w start 0
  toggle-Counts (some facility) = search tick_rules depth 8

  pub maybe_toggle_facility-Counts :
      (probability : R.Float) → Counts w start 0 (maybe_toggle_facility w probability)
  unfolding maybe_toggle_facility
  maybe_toggle_facility-Counts probability = search (tick_rules, toggle-Counts) depth 8
