-- ===== src/Simulator/Tick/Whole.antt =====
-- A whole tick.
use sentinel_chain.Base.{ℕ, ◌+◌, ◌≡◌, refl, ◌∙◌, All, arith}
use sentinel_chain.Base.Int.{pos}
use sentinel_chain.Base.Result.{Result, ok, err}
use sentinel_chain.Base.Exec.{pure, modify, ◌>>=◌}
use sentinel_chain.Base.Exec.Hoare.{Holds, Triple, Triple-bind}
use sentinel_chain.Base.Runtime.{Runtime}
use sentinel_chain.Simulator.Tick.Rows.{HasArrived}
use sentinel_chain.Simulator.Tick.{
  World, Fault, SimState, Sim, progress_shipments, maybe_toggle_facility, commit, tick,
}
use sentinel_chain.Simulator.Tick.Invariant.{SampleLaws, IsTicking, IsTicked}
use sentinel_chain.Simulator.Tick.Parts.{
  consume_rows-Counts, progress_shipments-Counts, maybe_toggle_facility-Counts,
}

module _ {R : Runtime} {X : Type 0} (w : World R X) where
  IsTicking-start : (s : SimState w) → All HasArrived s.rows.shipments → IsTicking w s 0 s
  IsTicking-start s hs = record {
    counted = omega arith;
    arrived = hs;
    same_ids = refl;
    uncommitted = refl;
    ticks = refl;
  }

  IsTicking-trans :
      (start s t : SimState w) (n m : ℕ)
      → IsTicking w start n s
      → IsTicking w s m t
      → IsTicking w start (n + m) t
  IsTicking-trans start s t n m h k = record {
    counted = omega (arith, h.counted, k.counted);
    arrived = k.arrived;
    same_ids = k.same_ids ∙ h.same_ids;
    uncommitted = k.uncommitted ∙ h.uncommitted;
    ticks = k.ticks ∙ h.ticks;
  }

  -- A part of the tick, after parts that counted `n` rows.
  after-Counts :
      (start : SimState w) (n : ℕ) (m : Sim w ℕ)
      → ((s : SimState w)
          → Triple (IsTicking w s 0) m (IsTicking w s) (λ t. t.committed ≡ s.committed))
      → Triple
          (IsTicking w start n)
          m
          (λ k. IsTicking w start (n + k))
          (λ t. t.committed ≡ start.committed)
  after-Counts start n m h = record {
    at = λ s p. go s p (m s) ((h s).at s (IsTicking-start s p.arrived));
  }
    where
      go :
          (s : SimState w)
          → IsTicking w start n s
          → (r : Result (Fault X) ℕ × SimState w)
          → Holds (IsTicking w s) (λ t. t.committed ≡ s.committed) r
          → Holds (λ k. IsTicking w start (n + k)) (λ t. t.committed ≡ start.committed) r
      go s p (ok k, t) q = IsTicking-trans start s t n k p q
      go s p (err e, t) q = q ∙ p.uncommitted

  commit-IsTicked :
      (start : SimState w) (n : ℕ)
      → Triple
          (IsTicking w start n)
          (commit w >>= λ u.
            modify (λ (s : SimState w). record s { ticks = s.ticks + 1 }) >>= λ u'. pure n)
          (IsTicked w start)
          (λ t. t.committed ≡ start.committed)
  unfolding commit ◌>>=◌
  commit-IsTicked start n = record { at = λ s h. ground arith }

  -- A tick from a state where each delivered shipment has an arrival time: when it returns a
  -- number, that is how many row writes it has added to the metric, each delivered shipment still
  -- has an arrival time, the shipments are the same rows in the same order, all rows are
  -- committed, and the tick is counted; when it raises, what was committed is as before.
  pub tick-IsTicked :
      SampleLaws w.random
      → (s : SimState w) → All HasArrived s.rows.shipments
      → Holds (IsTicked w s) (λ t. t.committed ≡ s.committed) (tick w s)
  unfolding tick
  tick-IsTicked laws s hs =
      let t = Triple-bind _ _ (consume_rows-Counts w s) λ consumed.
        Triple-bind _ _
          (after-Counts s consumed (progress_shipments w) (λ z. progress_shipments-Counts w z laws))
          λ progressed.
            Triple-bind _ _
              (after-Counts s (consumed + progressed) (maybe_toggle_facility w (R.lit (pos 5) 2))
                (λ z. maybe_toggle_facility-Counts w z (R.lit (pos 5) 2)))
              λ toggled. commit-IsTicked s (consumed + progressed + toggled) in
      t.at s (IsTicking-start s hs)
