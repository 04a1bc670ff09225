-- ===== src/Usgs/Quality.antt =====
-- services/ingestion-usgs/src/ingestion_usgs/quality.py
use sentinel_chain.Base.{
  String, str_eq, Bool, true, false, not, ◌&&◌, Option, none, some, List, [], ◌∷◌, ◌++◌,
  if◌then◌else◌,
}
use sentinel_chain.Base.Int.{ℤ, pos, negsuc}
use sentinel_chain.Base.Text.{concat}
use sentinel_chain.Base.Runtime.{Runtime}
use sentinel_chain.Usgs.Parser.{UsgsEvent}
pub mod Valid

-- `if test: reasons.append(reason)`
abbrev pub when : Bool → String → List String
when test reason = if test then reason ∷ [] else []

module _ (R : Runtime) where
  -- `lo <= x <= hi`
  abbrev pub between : R.Float → R.Float → R.Float → Bool
  between lo x hi = R.leb_f lo x && R.leb_f x hi

  abbrev pub degrees : ℤ → R.Float
  degrees n = R.lit n 0

  -- `MIN_MAGNITUDE`
  abbrev pub min_magnitude : R.Float
  min_magnitude = R.lit (negsuc 1) 0

  -- `MAX_MAGNITUDE`
  abbrev pub max_magnitude : R.Float
  max_magnitude = R.lit (pos 12) 0

  abbrev pub check_magnitude : Option R.Float → List String
  check_magnitude none = "magnitude is missing" ∷ []
  check_magnitude (some m) = when (not (between min_magnitude m max_magnitude)) (
      concat (
        "magnitude "
        ∷ R.show_float m
        ∷ " out of range ["
        ∷ R.show_float min_magnitude
        ∷ ", "
        ∷ R.show_float max_magnitude
        ∷ "]"
        ∷ []))

  unfoldable pub check_event : UsgsEvent R → R.Datetime → R.Float → List String
  check_event event now future_tolerance =
      when (str_eq event.source_event_id "") "source_event_id is empty"
      ++ (when (not (between (degrees (negsuc 89)) event.latitude (degrees (pos 90))))
            (concat ("latitude " ∷ R.show_float event.latitude ∷ " out of range [-90, 90]" ∷ []))
          ++ (when (not (between (degrees (negsuc 179)) event.longitude (degrees (pos 180)))) (
                concat
                  ("longitude " ∷ R.show_float event.longitude ∷ " out of range [-180, 180]" ∷ []))
              ++ (check_magnitude event.magnitude
                  ++ when (R.later event.event_time (R.plus_seconds now future_tolerance)) (
                      concat (
                        "event_time "
                        ∷ R.isoformat event.event_time
                        ∷ " is too far in the future"
                        ∷ [])))))
