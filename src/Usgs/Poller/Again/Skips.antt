-- ===== src/Usgs/Poller/Again/Skips.antt =====
-- A poll of a feed whose events all have their markers in the store produces nothing.
use sentinel_chain.Base.{
  ℕ, ◌+◌, ◌==◌, ◌&&◌, ◌≡◌, refl, sym, ◌∙◌, String, true, eq_refl, Option, some, List, [], ◌∷◌, All,
  length, if◌then◌else◌,
}
use mathlib.Core.Path.{subst}
use sentinel_chain.Base.Int.{ℤ}
use sentinel_chain.Base.Result.{ok}
use sentinel_chain.Base.Exec.{for_each, pure}
use sentinel_chain.Base.Exec.Hoare.{
  Triple, Triple-bind, Triple-pure, Triple-for_each, Triple-if, Triple-skip, Keeps-Triple,
  Triple-weaken, Triple-return,
}
use sentinel_chain.Base.Runtime.{Runtime}
use sentinel_chain.Base.Dict.{lookup}
use sentinel_chain.Usgs.Parser.{UsgsEvent, FeatureParseError}
use sentinel_chain.Usgs.Event.{source_version, payload_hash}
use sentinel_chain.Usgs.Cursor.{marker_for}
use sentinel_chain.Usgs.System.{System, PollState, Poll}
use sentinel_chain.Usgs.Poller.{
  PollStats, Pending, is_empty, is_marker, start_stats, or_zero, report_error, reject_event,
  accept_event, visit_event, commit, process_parsed,
}
use sentinel_chain.Usgs.Poller.Dedup.{with_memory}
use sentinel_chain.Usgs.Poller.Again.Store.{
  count-Holding, on_env-Holding, produce_data_quality-Holding, lift-gives, seen-gives,
}

module _ {R : Runtime} {X : Type 0} (outside : System R X) where
  abbrev sys : System R X
  sys = with_memory outside

  -- The store has the marker of the event.
  abbrev pub IsStored : List (String × String) → UsgsEvent R → Type 0
  IsStored markers e =
      (v h : String)
      → source_version R e ≡ ok v
      → payload_hash R outside.dumps outside.sha256 e ≡ ok h
      → lookup e.source_event_id markers ≡ some (marker_for v h)

  -- While the events are visited, with `rest` left.
  record Quiet (rest : List (UsgsEvent R)) (acc : PollStats × List Pending)
      (markers : List (String × String)) : Type 0 where
    stored : All (IsStored markers) rest
    none_waits : acc.1 ≡ []
    none_produced : acc.0.produced ≡ 0

  abbrev Visit :
      (e : UsgsEvent R) (rest : List (UsgsEvent R)) (acc : PollStats × List Pending)
      → Poll sys (PollStats × List Pending)
      → Type 0
  Visit e rest acc m =
      Triple (λ (s : PollState sys). Quiet (e ∷ rest) acc s.store.markers) m
        (λ acc' s. Quiet rest acc' s.store.markers) (λ s. Unit {0})

  reject_event-Visit :
      (e : UsgsEvent R) (rest : List (UsgsEvent R)) (reasons : List String)
      (acc : PollStats × List Pending)
      → Visit e rest acc (reject_event sys e reasons acc)
  unfolding reject_event
  reject_event-Visit e rest reasons (st, pending) =
      Triple-bind _ _ (lift-gives outside (Quiet (e ∷ rest) (st, pending)) _) (λ body.
        Triple-bind _ _
          (Keeps-Triple (
            produce_data_quality-Holding outside
              (λ markers. Quiet (e ∷ rest) (st, pending) markers × _) _ _ _))
          (λ u. Triple-pure _ (λ s h. record {
            stored = h.0.stored.1;
            none_waits = h.0.none_waits;
            none_produced = h.0.none_produced;
          })))

  is_marker-found :
      (o found : Option String) (marker : String)
      → found ≡ o
      → found ≡ some marker
      → is_marker o marker ≡ true
  is_marker-found o found marker looked has =
      subst (λ x. is_marker x marker ≡ true) (sym has ∙ looked) (eq_refl marker)

  accept_event-Visit :
      (e : UsgsEvent R) (rest : List (UsgsEvent R)) (acc : PollStats × List Pending)
      → Visit e rest acc (accept_event sys e acc)
  unfolding accept_event
  accept_event-Visit e rest (st, pending) =
      Triple-bind _ _ (lift-gives outside (Quiet (e ∷ rest) (st, pending)) (source_version R e))
        (λ v.
          Triple-bind _ _
            (lift-gives outside
              (λ markers. Quiet (e ∷ rest) (st, pending) markers × (source_version R e ≡ ok v))
              (payload_hash R outside.dumps outside.sha256 e))
            (λ h.
              Triple-bind _ _
                (seen-gives outside
                  (λ markers.
                    (Quiet (e ∷ rest) (st, pending) markers × (source_version R e ≡ ok v))
                    × (payload_hash R outside.dumps outside.sha256 e ≡ ok h))
                  e.source_event_id)
                (λ seen. record {
                  at = λ s k.
                      rw
                        (is_marker-found seen _ (marker_for v h) k.1
                          (k.0.0.0.stored.0 v h k.0.0.1 k.0.1))
                        (record {
                          stored = k.0.0.0.stored.1;
                          none_waits = k.0.0.0.none_waits;
                          none_produced = k.0.0.0.none_produced;
                        });
                })))

  visit_event-Visit :
      (now : R.Datetime) (e : UsgsEvent R) (rest : List (UsgsEvent R))
      (acc : PollStats × List Pending)
      → Visit e rest acc (visit_event sys now e acc)
  unfolding visit_event
  visit_event-Visit now e rest acc =
      Triple-if _ _ _ (accept_event-Visit e rest acc) (reject_event-Visit e rest _ acc)

  report_error-Quiet :
      (F : List (String × String) → Type 0) (e : FeatureParseError R.Float) (st : PollStats)
      → Triple
          (λ (s : PollState sys). F s.store.markers × (st.produced ≡ 0))
          (report_error sys e st)
          (λ st' s. F s.store.markers × (st'.produced ≡ 0))
          (λ s. Unit {0})
  unfolding report_error
  report_error-Quiet F e st =
      Triple-bind _ _
        (Keeps-Triple
          (produce_data_quality-Holding outside (λ markers. F markers × (st.produced ≡ 0)) _ _ _))
        (λ u. Triple-pure _ (λ s h. h))

  commit-none :
      (now : R.Datetime) (st : PollStats)
      → Triple
          (λ (s : PollState sys). st.produced ≡ 0)
          (commit sys now st [])
          (λ st' s. st'.produced ≡ 0)
          (λ s. Unit {0})
  unfolding commit for_each
  commit-none now st = Triple-skip _ _ λ (outcome : List String × ℕ).
      Triple-skip _ _ λ (cursor : Option ℤ).
        Triple-bind _ _
          (Triple-return {Q = λ (r : PollStats × ℤ). r.0.produced ≡ 0}
            (record st { undelivered = outcome.1 }, or_zero cursor) (λ h. h))
          (λ result. Triple-skip _ _ λ u. Triple-skip _ _ λ u'. Triple-return result.0 (λ h. h))

  finished :
      (now : R.Datetime) (st : PollStats) (pending : List Pending)
      → Triple
          (λ (s : PollState sys). Quiet [] (st, pending) s.store.markers)
          (if is_empty pending && (st.invalid == 0) then pure st else commit sys now st pending)
          (λ st' s. st'.produced ≡ 0)
          (λ s. Unit {0})
  finished now st (p ∷ pending) = record { at = λ s h. absurd (cc (h.none_waits)) }
  finished now st [] =
      Triple-weaken (λ s h. h.none_produced) (λ a s h. h)
        (Triple-if _ _ _ (Triple-return st (λ h. h)) (commit-none now st))

  pub process_parsed-skips :
      (events : List (UsgsEvent R)) (errors : List (FeatureParseError R.Float))
      → Triple
          (λ (s : PollState sys). All (IsStored s.store.markers) events)
          (process_parsed sys (events, errors))
          (λ st s. st.produced ≡ 0)
          (λ s. Unit {0})
  unfolding process_parsed
  process_parsed-skips events errors =
      Triple-bind _ _
        (Keeps-Triple (count-Holding outside (λ markers. All (IsStored markers) events) _))
        (λ u.
          Triple-bind _ _
            (Triple-weaken (λ s h. (h, refl)) (λ a s h. h)
              (Triple-for_each
                (λ rest st s. All (IsStored s.store.markers) events × (st.produced ≡ 0))
                (report_error sys)
                (λ e rest st. report_error-Quiet (λ markers. All (IsStored markers) events) e st)
                errors (start_stats (length events + length errors))))
            (λ (st : PollStats).
              Triple-bind _ _
                (Keeps-Triple (
                  on_env-Holding outside
                    (λ markers. All (IsStored markers) events × (st.produced ≡ 0)) outside.utcnow))
                (λ (now : R.Datetime).
                  Triple-bind _ _
                    (Triple-weaken
                      (λ s h. record { stored = h.0; none_waits = refl; none_produced = h.1 })
                      (λ a s h. h)
                      (Triple-for_each (λ rest acc s. Quiet rest acc s.store.markers)
                        (visit_event sys now) (λ e rest acc. visit_event-Visit now e rest acc)
                        events (st, [])))
                    (λ visited.
                      Triple-bind _ _ (Keeps-Triple (count-Holding outside (Quiet [] visited) _))
                        (λ u'. finished now visited.0 visited.1)))))
