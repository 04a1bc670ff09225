-- ===== src/Usgs/Poller/Again/Visits.antt =====
-- What each event of the feed does to the markers and to the pending events.
use sentinel_chain.Base.{◌≡◌, inl, inr, String, List, ◌∷◌, All-append, Bool-cases}
use sentinel_chain.Base.Result.{ok}
use sentinel_chain.Base.Exec.Hoare.{
  Triple, Triple-bind, Triple-pure, Triple-if, Triple-both, Keeps-Triple,
}
use sentinel_chain.Base.Runtime.{Runtime}
use sentinel_chain.Common.Kafka.Delivers.{KafkaDelivers, Queued}
use sentinel_chain.Usgs.Parser.{UsgsEvent}
use sentinel_chain.Usgs.Event.{source_version, payload_hash}
use sentinel_chain.Usgs.Cursor.{marker_for}
use sentinel_chain.Usgs.System.{System, PollState, Poll}
use sentinel_chain.Usgs.Poller.{
  PollStats, Pending, is_marker, reject_event, accept_event, produce_new, visit_event,
}
use sentinel_chain.Usgs.Poller.Queue.{
  Waits, lift-Holding, store-Holding, produce_data_quality-Holding as produce_data_quality-Waits,
  produce_event-WaitsFor,
}
use sentinel_chain.Usgs.Poller.Dedup.{with_memory}
use sentinel_chain.Usgs.Poller.Again.Store.{
  produce_event-Holding, produce_data_quality-Holding, lift-gives, seen-gives,
}
use sentinel_chain.Usgs.Poller.Again.Saved.{
  Visited, Visited-invalid, Visited-duplicate, Visited-pending,
}

module _ {R : Runtime} {X : Type 0} (outside : System R X) (delivers : KafkaDelivers outside.kafka)
    (e₀ : UsgsEvent R) (version hash : String) (versioned : source_version R e₀ ≡ ok version)
    (hashed : payload_hash R outside.dumps outside.sha256 e₀ ≡ ok hash) where
  abbrev pub sys : System R X
  sys = with_memory outside

  abbrev pub Facts : List (UsgsEvent R) → PollStats × List Pending → List (String × String) → Type 0
  Facts = Visited outside e₀ version hash versioned hashed

  abbrev pub Visiting : List (UsgsEvent R) → PollStats × List Pending → PollState sys → Type 0
  Visiting rest acc s = Facts rest acc s.store.markers × Waits sys delivers acc.1 s

  abbrev pub Visit :
      (e : UsgsEvent R) (rest : List (UsgsEvent R)) (acc : PollStats × List Pending)
      → Poll sys (PollStats × List Pending)
      → Type 0
  Visit e rest acc m = Triple (Visiting (e ∷ rest) acc) m (Visiting rest) (λ s. Unit {0})

  reject_event-Visit :
      (e : UsgsEvent R) (rest : List (UsgsEvent R)) (reasons : List String)
      (acc : PollStats × List Pending)
      → Visit e rest acc (reject_event sys e reasons acc)
  unfolding reject_event
  reject_event-Visit e rest reasons (st, pending) =
      Triple-bind _ _
        (Triple-both (lift-gives outside (Facts (e ∷ rest) (st, pending)) _)
          (lift-Holding sys delivers pending _))
        (λ body.
          Triple-bind _ _
            (Triple-both
              (Keeps-Triple (
                produce_data_quality-Holding outside
                  (λ markers. Facts (e ∷ rest) (st, pending) markers × _) _ _ _))
              (produce_data_quality-Waits sys delivers pending _ _ _))
            (λ u.
              Triple-pure _
                (λ s h. (Visited-invalid outside e₀ version hash versioned hashed h.0.0, h.1))))

  produce_new-Visit :
      (e : UsgsEvent R) (rest : List (UsgsEvent R)) (v h : String) (acc : PollStats × List Pending)
      → source_version R e ≡ ok v
      → payload_hash R outside.dumps outside.sha256 e ≡ ok h
      → Visit e rest acc (produce_new sys e (marker_for v h) acc)
  unfolding produce_new
  produce_new-Visit e rest v h (st, pending) hv hh =
      Triple-bind _ _
        (Triple-both
          (Keeps-Triple (produce_event-Holding outside (Facts (e ∷ rest) (st, pending)) e))
          (produce_event-WaitsFor sys delivers pending e))
        (λ u. Triple-pure _ (λ s k. (
          Visited-pending outside e₀ version hash versioned hashed _ k.0 hv hh,
          All-append (λ (p : Pending). Queued delivers s.client p.0) pending _ k.1.0 (k.1.1, tt),
        )))

  accept_event-Visit :
      (e : UsgsEvent R) (rest : List (UsgsEvent R)) (acc : PollStats × List Pending)
      → Visit e rest acc (accept_event sys e acc)
  unfolding accept_event
  accept_event-Visit e rest (st, pending) =
      Triple-bind _ _
        (Triple-both (lift-gives outside (Facts (e ∷ rest) (st, pending)) (source_version R e))
          (lift-Holding sys delivers pending _))
        (λ v.
          Triple-bind _ _
            (Triple-both
              (lift-gives outside
                (λ markers. Facts (e ∷ rest) (st, pending) markers × (source_version R e ≡ ok v))
                (payload_hash R outside.dumps outside.sha256 e))
              (lift-Holding sys delivers pending _))
            (λ h.
              Triple-bind _ _
                (Triple-both
                  (seen-gives outside
                    (λ markers.
                      (Facts (e ∷ rest) (st, pending) markers × (source_version R e ≡ ok v))
                      × (payload_hash R outside.dumps outside.sha256 e ≡ ok h))
                    e.source_event_id)
                  (store-Holding sys delivers pending (sys.store.seen_marker e.source_event_id)))
                (λ seen. elim (Bool-cases (is_marker seen (marker_for v h))) [
                  | inl same ↦ rw same (
                      Triple-pure _ (λ s k. (
                        Visited-duplicate outside e₀ version hash versioned hashed k.0.0.0.0
                            k.0.0.0.1 k.0.0.1 k.0.1 same,
                        k.1,
                      )))
                  | inr other ↦ rw other (record {
                    at = λ s k.
                        (produce_new-Visit e rest v h (st, pending) k.0.0.0.1 k.0.0.1).at s
                          (k.0.0.0.0, k.1);
                  })
                ])))

  pub visit_event-Visit :
      (now : R.Datetime) (e : UsgsEvent R) (rest : List (UsgsEvent R))
      (acc : PollStats × List Pending)
      → Visit e rest acc (visit_event sys now e acc)
  unfolding visit_event
  visit_event-Visit now e rest acc =
      Triple-if _ _ _ (accept_event-Visit e rest acc) (reject_event-Visit e rest _ acc)
