-- ===== src/Usgs/Poller/Dedup.antt =====
-- The markers that a poll saves, and the events that it skips, over the store in memory.
use sentinel_chain.Base.{
  ◌+◌, String, str_eq, eq_refl, ◌≡◌, refl, ◌∙◌, ap, true, Option, some, List, [], ◌∷◌,
  if◌then◌else◌, Bool-cases, inl, inr,
}
use sentinel_chain.Base.Int.{ℤ, max_ℤ}
use sentinel_chain.Base.Result.{ok}
use sentinel_chain.Base.Exec.{◌>>=◌, for_each, for_each-cons}
use sentinel_chain.Base.Runtime.{Runtime}
use sentinel_chain.Base.Dict.{lookup, insert, lookup-insert, lookup-insert_self}
use sentinel_chain.Usgs.Parser.{UsgsEvent}
use sentinel_chain.Usgs.Event.{source_version, payload_hash}
use sentinel_chain.Usgs.Quality.{check_event}
use sentinel_chain.Usgs.Cursor.{in_memory, marker_for}
use sentinel_chain.Usgs.System.{System, PollState}
use sentinel_chain.Usgs.Producer.{contains}
use sentinel_chain.Usgs.Poller.{PollStats, Pending, visit_event, confirm}

module _ {R : Runtime} {X : Type 0} (outside : System R X) where
  -- The process over the store in memory.
  abbrev pub with_memory : System R X
  with_memory = record outside { store = in_memory X }

  -- The marker of an id once the pending events are confirmed: that of the last of them with the
  -- id, if the id is among the delivered ones.
  abbrev pub saved_marker : String → List String → List Pending → Option String → Option String
  saved_marker id delivered [] old = old
  saved_marker id delivered ((j, marker, updated) ∷ rest) old =
      saved_marker id delivered rest
        (if contains j delivered then (if str_eq j id then some marker else old) else old)

  confirm_marker :
      (id : String) (delivered : List String) (p : Pending) (acc : PollStats × ℤ)
      (s : PollState with_memory)
      → (acc' : PollStats × ℤ) × (s' : PollState with_memory) × (confirm with_memory delivered p acc
            s
          ≡ (ok acc', s'))
        × (lookup id s'.store.markers
            ≡ saved_marker id delivered (p ∷ []) (lookup id s.store.markers))
  unfolding confirm ◌>>=◌
  confirm_marker id delivered (j, marker, updated) (st, newest) s =
      elim (Bool-cases (contains j delivered)) [
        | inl here ↦ (
          (record st { produced = st.produced + 1 }, max_ℤ newest updated),
          record s { store = record s.store { markers = insert j marker s.store.markers } },
          rw here,
          rw here (lookup-insert j id marker s.store.markers),
        )
        | inr missing ↦ ((st, newest), s, rw missing, rw missing)
      ]

  -- Over the store in memory the loop that confirms the pending events ends without an exception,
  -- and the marker of every id is then that of the last pending event of the id, if the id is
  -- among the delivered ones, and what it was otherwise. Which of several messages of one id was
  -- delivered does not matter.
  pub confirm_all-saved_marker :
      (id : String) (delivered : List String) (pending : List Pending) (acc : PollStats × ℤ)
      (s : PollState with_memory)
      → (acc' : PollStats × ℤ) × (s' : PollState with_memory) × (for_each
            (confirm with_memory delivered)
            pending
            acc
            s
          ≡ (ok acc', s'))
        × (lookup id s'.store.markers
            ≡ saved_marker id delivered pending (lookup id s.store.markers))
  unfolding for_each
  confirm_all-saved_marker id delivered [] acc s = (acc, s, refl, refl)
  confirm_all-saved_marker id delivered (p ∷ rest) acc s =
      let (acc₁, s₁, run₁, marker₁) = confirm_marker id delivered p acc s in
      let (acc₂, s₂, run₂, marker₂) = confirm_all-saved_marker id delivered rest acc₁ s₁ in
      (
        acc₂,
        s₂,
        for_each-cons (confirm with_memory delivered) p rest acc acc₁ s s₁ run₁ run₂,
        marker₂ ∙ ap (saved_marker id delivered rest) marker₁,
      )

  -- What a poll stores for an event, and what it looks for.
  skipped :
      (now : R.Datetime) (e : UsgsEvent R) (st : PollStats) (pending : List Pending)
      (s : PollState with_memory) (version hash : String)
      → check_event R e now outside.future_tolerance ≡ []
      → source_version R e ≡ ok version
      → payload_hash R outside.dumps outside.sha256 e ≡ ok hash
      → lookup e.source_event_id s.store.markers ≡ some (marker_for version hash)
      → visit_event with_memory now e (st, pending) s
        ≡ (ok (record st { duplicates = st.duplicates + 1 }, pending), s)
  skipped now e st pending s version hash valid v h seen =
      unfold visit_event ◌>>=◌ in simp (valid, v, h, seen, eq_refl)

  -- A valid event whose marker a poll has confirmed is skipped as a duplicate when it is visited
  -- again unchanged: nothing is produced, and no state changes.
  pub confirm_then_skip :
      (now : R.Datetime) (e : UsgsEvent R) (delivered : List String) (updated newest : ℤ)
      (st st' : PollStats) (pending : List Pending) (s : PollState with_memory)
      (version hash : String)
      → check_event R e now outside.future_tolerance ≡ []
      → source_version R e ≡ ok version
      → payload_hash R outside.dumps outside.sha256 e ≡ ok hash
      → contains e.source_event_id delivered ≡ true
      → let s' =
          (confirm with_memory delivered
            (e.source_event_id, marker_for version hash, updated)
            (st, newest)
            s).1 in
        visit_event with_memory now e (st', pending) s'
        ≡ (ok (record st' { duplicates = st'.duplicates + 1 }, pending), s')
  unfolding confirm ◌>>=◌
  confirm_then_skip now e delivered updated newest st st' pending s version hash valid v h here =
      rw here (
        skipped now e st' pending
          (record s {
            store = record s.store {
              markers = insert e.source_event_id (marker_for version hash) s.store.markers;
            };
          })
          version hash valid v h
          (lookup-insert_self e.source_event_id (marker_for version hash) s.store.markers))
