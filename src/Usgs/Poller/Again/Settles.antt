-- ===== src/Usgs/Poller/Again/Settles.antt =====
-- A poll that finds no invalid record leaves the marker of each of its events in the store.
use sentinel_chain.Base.{
  ℕ, ◌≤◌, ◌==◌, ◌&&◌, ◌≡◌, refl, ◌∙◌, ◌⊎◌, inl, inr, String, true, Option, some, List, [], ◌∷◌, All,
  arith, if◌then◌else◌,
}
use sentinel_chain.Base.Int.{ℤ}
use sentinel_chain.Base.Result.{ok}
use sentinel_chain.Base.Exec.{for_each, pure}
use sentinel_chain.Base.Exec.Hoare.{
  Triple, Triple-bind, Triple-pure, Triple-for_each, Triple-if, Triple-skip, Triple-both,
  Keeps-Triple, Triple-weaken, Triple-return,
}
use sentinel_chain.Base.Runtime.{Runtime}
use sentinel_chain.Base.Dict.{lookup}
use sentinel_chain.Common.Kafka.Delivers.{KafkaDelivers}
use sentinel_chain.Usgs.Parser.{UsgsEvent, FeatureParseError}
use sentinel_chain.Usgs.Event.{source_version, payload_hash}
use sentinel_chain.Usgs.Cursor.{marker_for}
use sentinel_chain.Usgs.System.{System, PollState}
use sentinel_chain.Usgs.Producer.{contains}
use sentinel_chain.Usgs.Poller.{
  PollStats, Pending, is_empty, or_zero, visit_event, confirm, commit, process_parsed,
}
use sentinel_chain.Usgs.Poller.Queue.{
  Waits, count-Holding as count-Waits, flush_and_confirm-AreConfirmed,
}
use sentinel_chain.Usgs.Poller.Dedup.{with_memory, saved_marker, confirm_all-saved_marker}
use sentinel_chain.Usgs.Poller.Again.Store.{
  count-Holding, flush_and_confirm-Holding, save_cursor-Holding, get_cursor-Holding,
}
use sentinel_chain.Usgs.Poller.Again.Saved.{IsIn, IsWaiting, saved_marker-marked, Visited}
use sentinel_chain.Usgs.Poller.Again.Visits.{visit_event-Visit}

module _ {R : Runtime} {X : Type 0} (outside : System R X) (delivers : KafkaDelivers outside.kafka)
    (e₀ : UsgsEvent R) (version hash : String) (versioned : source_version R e₀ ≡ ok version)
    (hashed : payload_hash R outside.dumps outside.sha256 e₀ ≡ ok hash) where
  abbrev sys : System R X
  sys = with_memory outside

  abbrev Facts : List (UsgsEvent R) → PollStats × List Pending → List (String × String) → Type 0
  Facts = Visited outside e₀ version hash versioned hashed

  abbrev Visiting : List (UsgsEvent R) → PollStats × List Pending → PollState sys → Type 0
  Visiting rest acc s = Facts rest acc s.store.markers × Waits sys delivers acc.1 s

  -- The marker is in the store, or a record was invalid.
  abbrev Saved : PollStats → List (String × String) → Type 0
  Saved st markers =
      (lookup e₀.source_event_id markers ≡ some (marker_for version hash)) ⊎ (1 ≤ st.invalid)

  saved_marker-Saved :
      (st : PollStats) (pending : List Pending) (delivered : List String)
      (markers markers' : List (String × String))
      → Facts [] (st, pending) markers
      → All (λ (p : Pending). contains p.0 delivered ≡ true) pending
      → lookup e₀.source_event_id markers'
        ≡ saved_marker outside e₀.source_event_id delivered pending
            (lookup e₀.source_event_id markers)
      → Saved st markers'
  saved_marker-Saved st pending delivered markers markers' f all run = elim f.found [
    | inl none_left ↦ absurd none_left
    | inr (inl old) ↦ inl (run ∙ saves (inl old))
    | inr (inr (inl w)) ↦ inl (run ∙ saves (inr w))
    | inr (inr (inr invalid)) ↦ inr invalid
  ]
    where
      saves :
          (lookup e₀.source_event_id markers ≡ some (marker_for version hash))
            ⊎ IsWaiting e₀.source_event_id pending
          → saved_marker outside e₀.source_event_id delivered pending
              (lookup e₀.source_event_id markers)
            ≡ some (marker_for version hash)
      saves h =
          saved_marker-marked e₀.source_event_id (marker_for version hash) outside delivered pending
            _ f.marked all h

  confirm_each-Saved :
      (st : PollStats) (pending : List Pending) (delivered : List String) (acc : PollStats × ℤ)
      → Triple
          (λ s.
            Facts [] (st, pending) s.store.markers
            × All (λ (p : Pending). contains p.0 delivered ≡ true) pending)
          (for_each (confirm sys delivered) pending acc)
          (λ acc' s. Saved st s.store.markers)
          (λ s. Unit {0})
  confirm_each-Saved st pending delivered acc = record {
    at = λ s h.
        let (acc', s', run, saved) =
          confirm_all-saved_marker outside e₀.source_event_id delivered pending acc s in
        rw run
          (saved_marker-Saved st pending delivered s.store.markers s'.store.markers h.0 h.1 saved);
  }

  confirm-invalid :
      (delivered : List String) (n : ℕ) (p : Pending) (acc : PollStats × ℤ)
      → Triple
          (λ s. acc.0.invalid ≡ n)
          (confirm sys delivered p acc)
          (λ acc' s. acc'.0.invalid ≡ n)
          (λ s. Unit {0})
  unfolding confirm
  confirm-invalid delivered n (id, marker, updated) (st, newest) =
      Triple-if _ _ _ (Triple-skip _ _ (λ u. Triple-return _ (λ h. h))) (Triple-return _ (λ h. h))

  commit-Saved :
      (now : R.Datetime) (st : PollStats) (pending : List Pending)
      → Triple
          (Visiting [] (st, pending))
          (commit sys now st pending)
          (λ st' s. Saved st' s.store.markers)
          (λ s. Unit {0})
  unfolding commit
  commit-Saved now st pending =
      Triple-bind _ _
        (Triple-both (Keeps-Triple (flush_and_confirm-Holding outside (Facts [] (st, pending))))
          (flush_and_confirm-AreConfirmed sys delivers pending))
        (λ (outcome : List String × ℕ).
          Triple-bind _ _
            (Keeps-Triple (
              get_cursor-Holding outside (λ markers.
                Facts [] (st, pending) markers
                × All (λ (p : Pending). contains p.0 outcome.0 ≡ true) pending)))
            (λ (cursor : Option ℤ).
              Triple-bind _ _
                (Triple-weaken (λ s h. (h, refl)) (λ a s h. h)
                  (Triple-both
                    (confirm_each-Saved st pending outcome.0
                      (record st { undelivered = outcome.1 }, or_zero cursor))
                    (Triple-for_each (λ rest acc s. acc.0.invalid ≡ st.invalid)
                      (confirm sys outcome.0)
                      (λ p rest acc. confirm-invalid outcome.0 st.invalid p acc) pending
                      (record st { undelivered = outcome.1 }, or_zero cursor))))
                (λ result.
                  Triple-bind _ _
                    (Keeps-Triple (
                      count-Holding outside
                        (λ markers. Saved st markers × (result.0.invalid ≡ st.invalid)) _))
                    (λ u.
                      Triple-bind _ _
                        (Keeps-Triple (
                          save_cursor-Holding outside
                            (λ markers. Saved st markers × (result.0.invalid ≡ st.invalid)) now
                            result.1))
                        (λ u'. Triple-pure result.0 (λ s h. elim h.0 [
                          | inl here ↦ inl here
                          | inr some_invalid ↦ inr (omega (arith, some_invalid, h.1))
                        ]))))))

  finished :
      (now : R.Datetime) (st : PollStats) (pending : List Pending)
      → Triple
          (Visiting [] (st, pending))
          (if is_empty pending && (st.invalid == 0) then pure st else commit sys now st pending)
          (λ st' s. Saved st' s.store.markers)
          (λ s. Unit {0})
  finished now st (p ∷ pending) = commit-Saved now st (p ∷ pending)
  finished now st [] =
      Triple-if _ _ _
        (Triple-pure st (λ s h. elim h.0.found [
          | inl none_left ↦ absurd none_left
          | inr (inl here) ↦ inl here
          | inr (inr (inl w)) ↦ absurd w
          | inr (inr (inr invalid)) ↦ inr invalid
        ]))
        (commit-Saved now st [])

  -- Where the events of its id are equal to it, an event of the feed has its marker in the store
  -- after a poll that returns without an invalid record.
  pub process_parsed-Saved :
      (events : List (UsgsEvent R)) (errors : List (FeatureParseError R.Float))
      → All (λ (e : UsgsEvent R). e.source_event_id ≡ e₀.source_event_id → e ≡ e₀) events
      → IsIn e₀ events
      → Triple
          (λ s. Unit {0})
          (process_parsed sys (events, errors))
          (λ st s. Saved st s.store.markers)
          (λ s. Unit {0})
  unfolding process_parsed
  process_parsed-Saved events errors agree here = Triple-skip _ _ λ u.
      Triple-skip _ _ λ (st : PollStats). Triple-skip _ _ λ (now : R.Datetime).
        Triple-bind _ _
          (Triple-weaken (λ s v. (record { agree = agree; marked = tt; found = inl here }, tt))
            (λ a s h. h)
            (Triple-for_each (λ rest acc s. Visiting rest acc s) (visit_event sys now)
              (λ e rest acc.
                visit_event-Visit outside delivers e₀ version hash versioned hashed now e rest acc)
              events (st, [])))
          (λ visited.
            Triple-bind _ _
              (Triple-both (Keeps-Triple (count-Holding outside (Facts [] visited) _))
                (count-Waits sys delivers visited.1 _))
              (λ u'. finished now visited.0 visited.1))
