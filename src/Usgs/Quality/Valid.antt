-- ===== src/Usgs/Quality/Valid.antt =====
-- Which events `check_event` accepts.
use sentinel_chain.Base.{str_eq, ◌≡◌, ◌↔◌, true, false, some, [], arith}
use sentinel_chain.Base.Int.{pos, negsuc}
use sentinel_chain.Base.Runtime.{Runtime}
use sentinel_chain.Usgs.Parser.{UsgsEvent}
use sentinel_chain.Usgs.Quality.{check_event}

module _ (R : Runtime) where
  -- The rules of the docstring.
  abbrev pub IsAcceptable : UsgsEvent R → R.Datetime → R.Float → Type 0
  IsAcceptable e now tolerance =
      (str_eq e.source_event_id "" ≡ false)
      × (R.leb_f (R.lit (negsuc 89) 0) e.latitude ≡ true)
      × (R.leb_f e.latitude (R.lit (pos 90) 0) ≡ true)
      × (R.leb_f (R.lit (negsuc 179) 0) e.longitude ≡ true)
      × (R.leb_f e.longitude (R.lit (pos 180) 0) ≡ true)
      × ((m : R.Float) × (e.magnitude ≡ some m)
          × (R.leb_f (R.lit (negsuc 1) 0) m ≡ true)
          × (R.leb_f m (R.lit (pos 12) 0) ≡ true))
      × (R.later e.event_time (R.plus_seconds now tolerance) ≡ false)

  -- The check gives no reason exactly if the id is not empty, the coordinates and the magnitude
  -- are there and in range, and the event is not later than the tolerance allows.
  pub check_event-IsAcceptable :
      (e : UsgsEvent R) (now : R.Datetime) (tolerance : R.Float)
      → (check_event R e now tolerance ≡ []) ↔ IsAcceptable e now tolerance
  unfolding check_event
  check_event-IsAcceptable e now tolerance = (λ h. ground arith, λ h. ground arith)
