-- ===== src/Usgs/Event/Feature.antt =====
-- `parse_feature`: the feature that a record describes parses to that record.
use sentinel_chain.Base.{String, ◌≡◌, refl, false, Option, none, some, str_eq}
use sentinel_chain.Base.Int.{pos}
use sentinel_chain.Base.Result.{ok}
use sentinel_chain.Base.Runtime.{Runtime}
use sentinel_chain.Base.Json.{float, str, arr, obj, nil, cons, Fields, end, field}
use sentinel_chain.Usgs.Event.{text_json, float_json}
use sentinel_chain.Usgs.Parser.{UsgsEvent, parse_feature, opt_float, as_str}

module _ (R : Runtime) where
  -- The GeoJSON feature of an event whose times are `time` and `updated`, in epoch milliseconds.
  abbrev pub feature_json : UsgsEvent R → R.Float → R.Float → Fields R.Float
  feature_json e time updated = field "id" (str e.source_event_id) (
      field "properties"
        (obj (
          field "mag" (float_json e.magnitude) (
            field "place" (text_json e.place) (
              field "time" (float time)
                (field "updated" (float updated) (field "url" (text_json e.source_url) end))))))
        (field "geometry"
          (obj (
            field "coordinates"
              (arr (
                cons (float e.longitude)
                  (cons (float e.latitude) (cons (float_json e.depth_km) nil))))
              end))
          end))

  opt_float-float_json :
      (o : Option R.Float) (name : String) (id : Option String)
      → opt_float R (float_json o) name id ≡ ok o
  unfolding opt_float
  opt_float-float_json none name id = refl
  opt_float-float_json (some x) name id = refl

  as_str-text_json : (o : Option String) → as_str R (text_json o) ≡ o
  as_str-text_json none = refl
  as_str-text_json (some s) = refl

  -- A feature built from an event with a non-empty id, and from float times that convert to the
  -- event's times, parses to that event, with a missing magnitude, depth, place or url as `None`.
  pub parse_feature-feature_json :
      (e : UsgsEvent R) (time updated : R.Float)
      → str_eq e.source_event_id "" ≡ false
      → R.from_timestamp (R.div_f time (R.lit (pos 1000) 0)) ≡ ok e.event_time
      → R.from_timestamp (R.div_f updated (R.lit (pos 1000) 0)) ≡ ok e.updated_time
      → parse_feature R (feature_json e time updated) ≡ ok e
  parse_feature-feature_json e time updated id t u =
      unfold parse_feature in simp (id, opt_float-float_json, t, u, as_str-text_json)
