-- ===== src/Usgs/Poller/Markers/Commit.antt =====
-- The end of a poll saves markers only of acknowledged events.
use sentinel_chain.Base.{
  ℕ, String, ◌≡◌, ◌≢◌, inl, inr, true, false, List, All, arith, Bool-cases, str_eq, eq_iff,
}
use mathlib.Core.Path.{subst}
use sentinel_chain.Base.Int.{ℤ}
use sentinel_chain.Base.Result.{Result, ok, err, Result-cases}
use sentinel_chain.Base.Exec.{Exec, ◌>>=◌}
use sentinel_chain.Base.Exec.Hoare.{
  Holds, Triple, Triple-bind, Keeps, Keeps-of, Keeps-at, Keeps-if, Keeps-bind, Keeps-pure,
  Keeps-lift, Keeps-for_each,
}
use sentinel_chain.Base.Runtime.{Runtime}
use sentinel_chain.Common.Kafka.{flush}
use sentinel_chain.Common.Kafka.Laws.{KafkaLaws, Acked, Speaks, flush-Acked, flush-Speaks}
use sentinel_chain.Usgs.Cursor.Laws.{CursorLaws, Kept}
use sentinel_chain.Usgs.System.{Raised, System, Metrics, PollState, Poll, on_store, on_client}
use sentinel_chain.Usgs.Producer.{contains, flush_and_confirm}
use sentinel_chain.Usgs.Producer.Delivered.{on_deliveries-All, contains-acked}
use sentinel_chain.Usgs.Poller.{PollStats, Pending, count, confirm, save_cursor, commit}
use sentinel_chain.Usgs.Poller.Safety.{IsSafe, on_store-IsSafe, lasting}

str_eq-ne : (a b : String) → str_eq a b ≡ false → a ≢ b
str_eq-ne a b h e = ground (arith, eq_iff a b)

module _ {R : Runtime} {X : Type 0} (sys : System R X) (laws : CursorLaws sys.store)
    (kafka_laws : KafkaLaws sys.kafka) (start : sys.store.State) (id : String) where
  abbrev Safe : PollState sys → Type 0
  Safe = IsSafe sys laws kafka_laws start id

  -- `ids` are acknowledged.
  abbrev pub AllAcked : List String → PollState sys → Type 0
  AllAcked ids s = All (Acked kafka_laws s.client) ids

  -- What the flush leaves before its callbacks run.
  flush-Safe :
      (t : R.Float)
      → Triple Safe
          (on_client sys (flush sys.kafka t))
          (λ outcome s. Safe s × All (Speaks (Acked kafka_laws s.client)) outcome.0)
          Safe
  flush-Safe t = record {
    at = λ s h.
        let r = flush sys.kafka t s.client in
        let safe : Safe (record s { client = r.1 }) =
          lasting sys laws kafka_laws start id s r.1 s.env (flush-Acked kafka_laws t s.client) h in
        elim (Result-cases r.0) [
          | inl (outcome, e) ↦ rw e (safe, flush-Speaks kafka_laws t s.client outcome.0 outcome.1 e)
          | inr (x, e) ↦ rw e safe
        ];
  }

  pub flush_and_confirm-Safe :
      Triple Safe (flush_and_confirm sys) (λ out s. Safe s × AllAcked out.0 s) Safe
  unfolding flush_and_confirm
  flush_and_confirm-Safe = Triple-bind _ _ (flush-Safe _) (λ outcome.
      unfold ◌>>=◌ in
      record {
        at = λ s h. (
          record { markers = h.0.markers; confirmed = tt },
          on_deliveries-All (Acked kafka_laws s.client) outcome.0 s.delivered h.1 h.0.confirmed,
        );
      })

  pub flush_and_confirm-Keeps : Keeps Safe (flush_and_confirm sys)
  flush_and_confirm-Keeps = record {
    at = λ s h. dropped (flush_and_confirm sys s) (flush_and_confirm-Safe.at s h);
  }
    where
      dropped :
          (r : Result (Raised R X) (List String × ℕ) × PollState sys)
          → Holds (λ out s. Safe s × AllAcked out.0 s) Safe r
          → Holds (λ out. Safe) Safe r
      dropped (ok out, s) h = h.0
      dropped (err e, s) h = h

  -- While the pending events are confirmed, the ids that the flush returned are acknowledged.
  abbrev SafeWith : List String → PollState sys → Type 0
  SafeWith delivered s = Safe s × AllAcked delivered s

  other_store-SafeWith :
      (delivered : List String) {A : Type 0} (m : Exec X sys.store.State A)
      → ((st : sys.store.State) → Kept (laws.marker st id) (laws.marker (m st).1 id))
      → Keeps (SafeWith delivered) (on_store sys m)
  other_store-SafeWith delivered m keeps =
      Keeps-of (on_store sys m)
        (λ s h. (Keeps-at (on_store-IsSafe sys laws kafka_laws start id m keeps) s h.0, h.1))

  record_marker-SafeWith :
      (delivered : List String) (j marker : String)
      → contains j delivered ≡ true
      → Keeps (SafeWith delivered) (on_store sys (sys.store.record_marker j marker))
  record_marker-SafeWith delivered j marker here =
      Keeps-of (on_store sys (sys.store.record_marker j marker)) (λ s h.
        elim (Bool-cases (str_eq j id)) [
          | inl same ↦ (
            record {
              markers = inr (
                  subst (Acked kafka_laws s.client) ((eq_iff j id).0 same)
                    (contains-acked (Acked kafka_laws s.client) j delivered h.1 here));
              confirmed = h.0.confirmed;
            },
            h.1,
          )
          | inr other ↦
              Keeps-at
                (other_store-SafeWith delivered (sys.store.record_marker j marker)
                  (λ st. laws.record_kept j marker id st (str_eq-ne j id other)))
                s h
        ])

  confirm-SafeWith :
      (delivered : List String) (p : Pending) (acc : PollStats × ℤ)
      → Keeps (SafeWith delivered) (confirm sys delivered p acc)
  unfolding confirm
  confirm-SafeWith delivered (j, marker, updated) (st, newest) =
      elim (Bool-cases (contains j delivered)) [
        | inl here ↦
            rw here
              (Keeps-bind _ _ (record_marker-SafeWith delivered j marker here) (λ u. Keeps-pure _))
        | inr missing ↦ rw missing (Keeps-pure _)
      ]

  count-SafeWith :
      (delivered : List String) (f : Metrics R → Metrics R)
      → Keeps (SafeWith delivered) (count sys f)
  unfolding count
  count-SafeWith delivered f = record {
    at = λ s h. (record { markers = h.0.markers; confirmed = h.0.confirmed }, h.1);
  }

  set_cursor-SafeWith :
      (delivered : List String) (v : ℤ)
      → Keeps (SafeWith delivered) (on_store sys (sys.store.set_cursor_ms v))
  set_cursor-SafeWith delivered v =
      other_store-SafeWith delivered (sys.store.set_cursor_ms v) (λ st. laws.set_kept v id st)

  get_cursor-SafeWith :
      (delivered : List String) → Keeps (SafeWith delivered) (on_store sys sys.store.get_cursor_ms)
  get_cursor-SafeWith delivered =
      other_store-SafeWith delivered sys.store.get_cursor_ms (λ st. laws.get_kept id st)

  save_cursor-SafeWith :
      (delivered : List String) (now : R.Datetime) (newest : ℤ)
      → Keeps (SafeWith delivered) (save_cursor sys now newest)
  unfolding save_cursor
  save_cursor-SafeWith delivered now newest =
      search (Keeps-bind, Keeps-pure, Keeps-lift, Keeps-if, count-SafeWith, set_cursor-SafeWith)

  forget :
      {A : Type 0} {m : Poll sys A} (delivered : List String)
      → Keeps (SafeWith delivered) m
      → Triple (SafeWith delivered) m (λ a. Safe) Safe
  forget {m = m} delivered k = record { at = λ s h. Holds_fst (m s) (k.at s h) }
    where
      Holds_fst :
          {A : Type 0} (r : Result (Raised R X) A × PollState sys)
          → Holds (λ a. SafeWith delivered) (SafeWith delivered) r
          → Holds (λ a. Safe) Safe r
      Holds_fst (ok a, s) h = h.0
      Holds_fst (err e, s) h = h.0

  pub commit-Safe :
      (now : R.Datetime) (st : PollStats) (pending : List Pending)
      → Keeps Safe (commit sys now st pending)
  unfolding commit
  commit-Safe now st pending = Triple-bind _ _ flush_and_confirm-Safe (λ outcome. forget outcome.0 (
      search
        (
          Keeps-bind, Keeps-pure, Keeps-for_each, confirm-SafeWith, count-SafeWith,
          save_cursor-SafeWith, get_cursor-SafeWith,
        )
        depth 9))
