-- ===== src/Usgs/Cursor/Calls.antt =====
-- Runs of calls of a cursor store, as a client sees them.
use sentinel_chain.Base.{String, Option, List, [], ◌∷◌}
use sentinel_chain.Base.Int.{ℤ}
use sentinel_chain.Base.Result.{Result, ok, err}
use sentinel_chain.Usgs.Cursor.{CursorStore}

pub data CursorCall : Type 0 where
  see : String → CursorCall
  mark : String → String → CursorCall
  read_cursor : CursorCall
  write_cursor : ℤ → CursorCall

-- What a call that returns gives: a marker, nothing, or the cursor.
pub data Answer : Type 0 where
  marker : Option String → Answer
  done : Answer
  cursor : Option ℤ → Answer

abbrev pub answers : {X A : Type 0} → (A → Answer) → Result X A → Result X Answer
answers f (ok a) = ok (f a)
answers f (err x) = err x

module _ {X : Type 0} (store : CursorStore X) where
  abbrev pub call : CursorCall → store.State → Result X Answer × store.State
  call (see id) s = let (r, s') = store.seen_marker id s in (answers marker r, s')
  call (mark id m) s = let (r, s') = store.record_marker id m s in (answers (λ u. done) r, s')
  call read_cursor s = let (r, s') = store.get_cursor_ms s in (answers cursor r, s')
  call (write_cursor n) s = let (r, s') = store.set_cursor_ms n s in (answers (λ u. done) r, s')

  -- The answers of calls made one after another.
  unfoldable pub answers_of : List CursorCall → store.State → List (Result X Answer)
  answers_of [] s = []
  answers_of (c ∷ cs) s = let (r, s') = call c s in r ∷ answers_of cs s'
