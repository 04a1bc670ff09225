-- ===== src/Usgs/Parser.antt =====
-- services/ingestion-usgs/src/ingestion_usgs/parser.py. A parse raises `FeatureParseError`, which
-- the feed's loop catches, or one of the runtime's own errors, which it does not: a conversion of
-- a number beyond the floats, or a timestamp beyond the dates.
use sentinel_chain.Base.{
  String, str_eq, Bool, true, false, Option, none, some, List, [], ◌∷◌, ◌++◌, if◌then◌else◌,
}
use sentinel_chain.Base.Int.{ℤ, pos}
use sentinel_chain.Base.Result.{Result, ok, err, ◌>>=◌}
use sentinel_chain.Base.Runtime.{Runtime, StdError}
use sentinel_chain.Base.Json.{
  Json, null, bool, int, float, str, arr, obj, Items, nil, cons, Fields, get,
}
pub mod Ids
pub mod Feed
pub mod Aware

pub record UsgsEvent (R : Runtime) : Type 0 where
  pub source_event_id : String
  pub magnitude : Option R.Float
  pub latitude : R.Float
  pub longitude : R.Float
  pub depth_km : Option R.Float
  pub place : Option String
  pub event_time : R.Datetime
  pub updated_time : R.Datetime
  pub source_url : Option String

-- The messages of `FeatureParseError`, one constructor for each format string, with its parts.
pub data ParseMessage (F : Type 0) : Type 0 where
  no_string_id no_properties no_geometry bad_coordinates no_features_array : ParseMessage F
  not_epoch_milliseconds not_a_number : String → Json F → ParseMessage F
  not_an_object : Json F → ParseMessage F

pub record FeatureParseError (F : Type 0) : Type 0 where
  pub message : ParseMessage F
  pub source_event_id : Option String

pub data ParseRaise (F : Type 0) : Type 0 where
  parse_error : FeatureParseError F → ParseRaise F
  std : StdError → ParseRaise F

abbrev pub reject : {F A : Type 0} → ParseMessage F → Option String → Result (ParseRaise F) A
reject message id = err (parse_error (record { message = message; source_event_id = id }))

abbrev pub or_std : {F A : Type 0} → Result StdError A → Result (ParseRaise F) A
or_std (ok a) = ok a
or_std (err e) = err (std e)

module _ (R : Runtime) where
  -- `_epoch_ms_to_utc`: `value / 1000.0` converts an int first
  unfoldable pub epoch_ms_to_utc :
      Json R.Float → String → Option String → Result (ParseRaise R.Float) R.Datetime
  epoch_ms_to_utc (int n) name id = do
    x ← or_std (R.of_int n)
    or_std (R.from_timestamp (R.div_f x (R.lit (pos 1000) 0)))
  epoch_ms_to_utc (float x) name id = or_std (R.from_timestamp (R.div_f x (R.lit (pos 1000) 0)))
  epoch_ms_to_utc value name id = reject (not_epoch_milliseconds name value) id

  -- `_as_float`
  unfoldable pub as_float :
      Json R.Float → String → Option String → Result (ParseRaise R.Float) R.Float
  as_float (int n) name id = or_std (R.of_int n)
  as_float (float x) name id = ok x
  as_float value name id = reject (not_a_number name value) id

  -- `_opt_float`
  unfoldable pub opt_float :
      Json R.Float → String → Option String → Result (ParseRaise R.Float) (Option R.Float)
  unfolding as_float
  opt_float null name id = ok none
  opt_float value name id = do x ← as_float value name id; ok (some x)

  -- `v if isinstance(v, str) else None`
  abbrev pub as_str : Json R.Float → Option String
  as_str (str s) = some s
  as_str _ = none

  -- The id, unless it is no text or empty.
  unfoldable pub checked_id : Option String → Result (ParseRaise R.Float) String
  checked_id none = reject no_string_id none
  checked_id (some s) = if str_eq s "" then reject no_string_id none else ok s

  abbrev pub as_object :
      Json R.Float → ParseMessage R.Float → String → Result (ParseRaise R.Float) (Fields R.Float)
  as_object (obj fs) message id = ok fs
  as_object _ message id = reject message (some id)

  -- The two coordinates that must be there, and the third if it is.
  abbrev pub coordinates :
      Json R.Float
      → String
      → Result (ParseRaise R.Float) (Json R.Float × Json R.Float × Option (Json R.Float))
  coordinates (arr (cons x (cons y nil))) id = ok (x, y, none)
  coordinates (arr (cons x (cons y (cons z rest)))) id = ok (x, y, some z)
  coordinates _ id = reject bad_coordinates (some id)

  abbrev pub depth : Option (Json R.Float) → String → Result (ParseRaise R.Float) (Option R.Float)
  unfolding opt_float
  depth none id = ok none
  depth (some z) id = opt_float z "depth_km" (some id)

  -- `parse_feature`, from the test of the id on
  unfoldable pub parse_fields : String → Fields R.Float → Result (ParseRaise R.Float) (UsgsEvent R)
  unfolding opt_float as_float epoch_ms_to_utc
  parse_fields id feature = do
    props ← as_object (get "properties" feature) no_properties id
    geometry ← as_object (get "geometry" feature) no_geometry id
    coords ← coordinates (get "coordinates" geometry) id
    longitude ← as_float coords.0 "longitude" (some id)
    latitude ← as_float coords.1 "latitude" (some id)
    depth_km ← depth coords.2 id
    magnitude ← opt_float (get "mag" props) "magnitude" (some id)
    event_time ← epoch_ms_to_utc (get "time" props) "time" (some id)
    updated_time ← epoch_ms_to_utc (get "updated" props) "updated" (some id)
    ok (record {
      source_event_id = id;
      magnitude = magnitude;
      latitude = latitude;
      longitude = longitude;
      depth_km = depth_km;
      place = as_str (get "place" props);
      event_time = event_time;
      updated_time = updated_time;
      source_url = as_str (get "url" props);
    })

  unfoldable pub parse_feature : Fields R.Float → Result (ParseRaise R.Float) (UsgsEvent R)
  unfolding checked_id parse_fields
  parse_feature feature = do id ← checked_id (as_str (get "id" feature)); parse_fields id feature

  -- What the loop of `parse_feed` has gathered.
  abbrev pub Gathered : Type 0
  Gathered = List (UsgsEvent R) × List (FeatureParseError R.Float)

  -- the `try` statement of the loop: other errors pass
  abbrev pub gather :
      Result (ParseRaise R.Float) (UsgsEvent R) → Gathered → Result StdError Gathered
  gather (ok event) (events, errors) = ok (events ++ event ∷ [], errors)
  gather (err (parse_error e)) (events, errors) = ok (events, errors ++ e ∷ [])
  gather (err (std e)) acc = err e

  -- the body of the loop
  unfoldable pub visit : Json R.Float → Gathered → Result StdError Gathered
  unfolding parse_feature
  visit (obj feature) acc = gather (parse_feature feature) acc
  visit feature (events, errors) =
      ok (events, errors ++ record { message = not_an_object feature; source_event_id = none } ∷ [])

  unfoldable pub parse_features : Items R.Float → Gathered → Result StdError Gathered
  unfolding visit
  parse_features nil acc = ok acc
  parse_features (cons feature features) acc =
      visit feature acc >>= λ acc'. parse_features features acc'

  unfoldable pub parse_feed : Fields R.Float → Result (ParseRaise R.Float) Gathered
  unfolding parse_features
  parse_feed payload = elim (get "features" payload) [
    | arr features ↦ or_std (parse_features features ([], []))
    | _ ↦ reject no_features_array none
  ]
