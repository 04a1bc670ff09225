-- ===== src/Usgs/Parser/Ids.antt =====
-- The ids that the events and the errors of `parse_feature` carry.
use sentinel_chain.Base.{
  String, str_eq, ◌≡◌, refl, Option, none, some, if◌then◌else◌, Bool-cases, inl, inr,
}
use sentinel_chain.Base.Result.{Result, ok, err, ◌>>=◌}
use sentinel_chain.Base.Runtime.{Runtime, StdError}
use sentinel_chain.Base.Json.{Json, null, int, float, arr, obj, nil, cons, Fields, get}
use sentinel_chain.Usgs.Parser.{
  UsgsEvent, ParseMessage, ParseRaise, parse_error, std, or_std, epoch_ms_to_utc, as_float,
  opt_float, as_str, checked_id, as_object, coordinates, depth, parse_fields, parse_feature,
}

-- What the end of a parse says of the id: `Q` of a value, and the id of a `FeatureParseError`.
abbrev Says : {F A : Type 0} → Option String → (A → Type 0) → Result (ParseRaise F) A → Type 0
Says id Q (ok a) = Q a
Says id Q (err (parse_error e)) = e.source_event_id ≡ id
Says id Q (err (std e)) = Unit

record Tagged {F A : Type 0} (id : Option String) (Q : A → Type 0) (r : Result (ParseRaise F) A)
    : Type 0 where
  says : Says id Q r

abbrev Any : {A : Type 0} → A → Type 0
Any a = Unit

module _ {F : Type 0} {id : Option String} where
  Tagged-bind :
      {A B : Type 0} {Q : B → Type 0} (m : Result (ParseRaise F) A)
      (f : A → Result (ParseRaise F) B)
      → Tagged id Any m
      → ((a : A) → Tagged id Q (f a))
      → Tagged id Q (m >>= f)
  Tagged-bind (ok a) f hm hf = hf a
  Tagged-bind (err (parse_error e)) f hm hf = record { says = hm.says }
  Tagged-bind (err (std e)) f hm hf = record { says = tt }

  Tagged-bind_using :
      {A B : Type 0} {P : A → Type 0} {Q : B → Type 0} (m : Result (ParseRaise F) A)
      (f : A → Result (ParseRaise F) B)
      → Tagged id P m
      → ((a : A) → P a → Tagged id Q (f a))
      → Tagged id Q (m >>= f)
  Tagged-bind_using (ok a) f hm hf = hf a hm.says
  Tagged-bind_using (err (parse_error e)) f hm hf = record { says = hm.says }
  Tagged-bind_using (err (std e)) f hm hf = record { says = tt }

  Tagged-ok : {A : Type 0} {Q : A → Type 0} (a : A) → Q a → Tagged {F = F} id Q (ok a)
  Tagged-ok a h = record { says = h }

  Tagged-or_std : {A : Type 0} (r : Result StdError A) → Tagged {F = F} id Any (or_std r)
  Tagged-or_std (ok a) = record { says = tt }
  Tagged-or_std (err e) = record { says = tt }

module _ (R : Runtime) (name : String) (id : Option String) where
  Tagged-epoch : (v : Json R.Float) → Tagged id Any (epoch_ms_to_utc R v name id)
  unfolding epoch_ms_to_utc
  Tagged-epoch (int n) =
      Tagged-bind (or_std (R.of_int n)) _ (Tagged-or_std (R.of_int n)) (λ x. Tagged-or_std _)
  Tagged-epoch (float x) = Tagged-or_std _
  Tagged-epoch _ = record { says = refl }

  Tagged-as_float : (v : Json R.Float) → Tagged id Any (as_float R v name id)
  unfolding as_float
  Tagged-as_float (int n) = Tagged-or_std (R.of_int n)
  Tagged-as_float (float x) = record { says = tt }
  Tagged-as_float _ = record { says = refl }

  Tagged-opt_float : (v : Json R.Float) → Tagged id Any (opt_float R v name id)
  unfolding opt_float
  Tagged-opt_float null = record { says = tt }
  Tagged-opt_float (int n) =
      Tagged-bind (or_std (R.of_int n)) (λ x. ok (some x)) (Tagged-or_std (R.of_int n))
        (λ x. Tagged-ok (some x) tt)
  Tagged-opt_float (float x) = record { says = tt }
  Tagged-opt_float _ = record { says = refl }

module _ (R : Runtime) (id : String) where
  Tagged-as_object :
      (v : Json R.Float) (message : ParseMessage R.Float)
      → Tagged (some id) Any (as_object R v message id)
  Tagged-as_object (obj fs) message = record { says = tt }
  Tagged-as_object _ message = record { says = refl }

  Tagged-coordinates : (v : Json R.Float) → Tagged (some id) Any (coordinates R v id)
  Tagged-coordinates (arr (cons x (cons y nil))) = record { says = tt }
  Tagged-coordinates (arr (cons x (cons y (cons z rest)))) = record { says = tt }
  Tagged-coordinates _ = record { says = refl }

  Tagged-depth : (z : Option (Json R.Float)) → Tagged (some id) Any (depth R z id)
  unfolding opt_float
  Tagged-depth none = record { says = tt }
  Tagged-depth (some z) = Tagged-opt_float R "depth_km" (some id) z

ruleset tagged_rules = (
  Tagged-bind, Tagged-ok, Tagged-epoch, Tagged-as_float, Tagged-opt_float, Tagged-as_object,
  Tagged-coordinates, Tagged-depth,
)

module _ (R : Runtime) where
  -- The text `id` of a feature, unless that is missing or empty.
  abbrev pub usable : Option String → Option String
  usable none = none
  usable (some s) = if str_eq s "" then none else some s

  abbrev pub usable_id : Fields R.Float → Option String
  usable_id feature = usable (as_str R (get "id" feature))

  checked_id-Tagged :
      (o : Option String) → Tagged (usable o) (λ id. usable o ≡ some id) (checked_id R o)
  unfolding checked_id
  checked_id-Tagged none = record { says = refl }
  checked_id-Tagged (some s) = elim (Bool-cases (str_eq s "")) [
    | inl empty ↦ rw empty (record { says = refl })
    | inr named ↦ rw named (record { says = refl })
  ]

  parse_fields-Tagged :
      (id : String) (feature : Fields R.Float)
      → Tagged (some id) (λ e. some id ≡ some e.source_event_id) (parse_fields R id feature)
  unfolding parse_fields
  parse_fields-Tagged id feature = search tagged_rules depth 14

  parse_feature-Tagged :
      (feature : Fields R.Float)
      → Tagged
          (usable_id feature)
          (λ e. usable_id feature ≡ some e.source_event_id)
          (parse_feature R feature)
  unfolding parse_feature
  parse_feature-Tagged feature =
      Tagged-bind_using (checked_id R (as_str R (get "id" feature)))
        (λ id. parse_fields R id feature) (checked_id-Tagged (as_str R (get "id" feature)))
        (λ id same. rw same (parse_fields-Tagged id feature))

  -- The ids of the outcomes of a feature: an event and a `FeatureParseError` both carry the text
  -- `id` of the feature if that is not empty; without one there is no event, and the error carries
  -- none.
  abbrev pub Attributed : Option String → Result (ParseRaise R.Float) (UsgsEvent R) → Type 0
  Attributed id (ok e) = id ≡ some e.source_event_id
  Attributed id (err (parse_error e)) = e.source_event_id ≡ id
  Attributed id (err (std e)) = Unit

  Attributed-of :
      (id : Option String) (r : Result (ParseRaise R.Float) (UsgsEvent R))
      → Tagged id (λ e. id ≡ some e.source_event_id) r
      → Attributed id r
  Attributed-of id (ok e) h = h.says
  Attributed-of id (err (parse_error e)) h = h.says
  Attributed-of id (err (std e)) h = tt

  -- An event carries the feature's text `id`, which is then not empty; a `FeatureParseError`
  -- carries it if it is not empty, and no id otherwise.
  pub parse_feature-Attributed :
      (feature : Fields R.Float) → Attributed (usable_id feature) (parse_feature R feature)
  parse_feature-Attributed feature =
      Attributed-of (usable_id feature) (parse_feature R feature) (parse_feature-Tagged feature)
