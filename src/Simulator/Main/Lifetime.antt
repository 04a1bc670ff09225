-- ===== src/Simulator/Main/Lifetime.antt =====
-- What holds of the committed rows through any number of ticks.
use sentinel_chain.Base.{ℕ, ◌≡◌, refl, sym, ap, ◌∙◌, All}
use mathlib.Core.Path.{subst}
use sentinel_chain.Base.Result.{Result, ok, err}
use sentinel_chain.Base.Exec.Hoare.{Holds}
use sentinel_chain.Base.Runtime.{Runtime}
use sentinel_chain.Simulator.Models.{Database}
use sentinel_chain.Simulator.Tick.{World, Fault, SimState, tick}
use sentinel_chain.Simulator.Tick.Rows.{HasArrived, ids}
use sentinel_chain.Simulator.Tick.Invariant.{SampleLaws, IsTicked}
use sentinel_chain.Simulator.Tick.Whole.{tick-IsTicked}
use sentinel_chain.Simulator.Main.{open_session, tick_round, Ticks, none_yet, ticked}

module _ {R : Runtime} {X : Type 0} (w : World R X) (laws : SampleLaws w.random)
    (start : SimState w) where
  -- The committed rows, against those of the start.
  pub record IsKept (s : SimState w) : Type 0 where
    pub arrived : All HasArrived s.committed.shipments
    pub same_ids : ids s.committed.shipments ≡ ids start.committed.shipments

  pub tick_round-IsKept : (s : SimState w) → IsKept s → IsKept (tick_round w s)
  unfolding tick_round
  tick_round-IsKept s h =
      go (tick w (open_session w s)) (tick-IsTicked w laws (open_session w s) h.arrived)
    where
      go :
          (r : Result (Fault X) ℕ × SimState w)
          → Holds (IsTicked w (open_session w s)) (λ t. t.committed ≡ s.committed) r
          → IsKept (open_session w r.1)
      go (ok n, t) k = record {
        arrived =
            subst (λ (db : Database R). All HasArrived db.shipments) (sym k.committed) k.arrived;
        same_ids =
            ap (λ (db : Database R). ids db.shipments) k.committed ∙ (k.same_ids ∙ h.same_ids);
      }
      go (err e, t) k = record {
        arrived = subst (λ (db : Database R). All HasArrived db.shipments) (sym k) h.arrived;
        same_ids = ap (λ (db : Database R). ids db.shipments) k ∙ h.same_ids;
      }

  -- From committed rows in which each delivered shipment has an arrival time, through any number of
  -- ticks, whether they return or raise, and any waits between them: in the committed rows each
  -- delivered shipment has an arrival time, and the shipments are the same rows in the same order.
  pub Ticks-IsKept :
      (s : SimState w) → All HasArrived start.committed.shipments → Ticks w start s → IsKept s
  Ticks-IsKept s hs none_yet = record { arrived = hs; same_ids = refl }
  Ticks-IsKept _ hs (ticked {s} pass runs returned) =
      let kept = tick_round-IsKept s (Ticks-IsKept s hs runs) in
      record { arrived = kept.arrived; same_ids = kept.same_ids }
