-- ===== src/Usgs/Parser/Aware.antt =====
-- The times of a parsed event have a time zone.
use sentinel_chain.Base.{String, ◌≡◌, refl, true, Option, All, All-append}
use sentinel_chain.Base.Result.{Result, ok, err, ◌>>=◌}
use sentinel_chain.Base.Runtime.{Runtime, StdError}
use sentinel_chain.Base.Json.{Json, int, float, obj, Items, nil, cons, Fields}
use sentinel_chain.Usgs.Parser.{
  UsgsEvent, ParseRaise, or_std, epoch_ms_to_utc, parse_fields, parse_feature,
}
use sentinel_chain.Usgs.Parser.Feed.{parsed, parse_item, event_of}

-- Whatever is returned has a property.
abbrev OfValue : {E A : Type 0} → (A → Type 0) → Result E A → Type 0
OfValue Q (ok a) = Q a
OfValue Q (err e) = Unit

record Yields {E A : Type 0} (Q : A → Type 0) (r : Result E A) : Type 0 where
  value : OfValue Q r

module _ {E A B : Type 0} {Q : B → Type 0} where
  Yields-bind :
      (m : Result E A) (f : A → Result E B) → ((a : A) → Yields Q (f a)) → Yields Q (m >>= f)
  Yields-bind (ok a) f h = h a
  Yields-bind (err e) f h = record { value = tt }

  Yields-bind_using :
      {P : A → Type 0} (m : Result E A) (f : A → Result E B)
      → Yields P m
      → ((a : A) → P a → Yields Q (f a))
      → Yields Q (m >>= f)
  Yields-bind_using (ok a) f p h = h a p.value
  Yields-bind_using (err e) f p h = record { value = tt }

module _ (R : Runtime) where
  -- `datetime.fromtimestamp(x, tz=UTC)` has a time zone.
  abbrev pub UtcDates : Type 0
  UtcDates = (x : R.Float) (d : R.Datetime) → R.from_timestamp x ≡ ok d → R.aware d ≡ true

  pub record IsAware (e : UsgsEvent R) : Type 0 where
    pub event_aware : R.aware e.event_time ≡ true
    pub updated_aware : R.aware e.updated_time ≡ true

  module _ (dates : UtcDates) where
    date-Yields :
        (x : R.Float)
        → Yields {E = ParseRaise R.Float} (λ d. R.aware d ≡ true) (or_std (R.from_timestamp x))
    date-Yields x = go (R.from_timestamp x) (dates x)
      where
        go :
            (r : Result StdError R.Datetime)
            → ((d : R.Datetime) → r ≡ ok d → R.aware d ≡ true)
            → Yields {E = ParseRaise R.Float} (λ d. R.aware d ≡ true) (or_std r)
        go (ok d) h = record { value = h d refl }
        go (err e) h = record { value = tt }

    epoch-Yields :
        (v : Json R.Float) (name : String) (id : Option String)
        → Yields (λ d. R.aware d ≡ true) (epoch_ms_to_utc R v name id)
    unfolding epoch_ms_to_utc
    epoch-Yields (int n) name id = Yields-bind (or_std (R.of_int n)) _ (λ x. date-Yields _)
    epoch-Yields (float x) name id = date-Yields _
    epoch-Yields _ name id = record { value = tt }

    aware_of :
        (e : UsgsEvent R)
        → R.aware e.event_time ≡ true
        → R.aware e.updated_time ≡ true
        → Yields {E = ParseRaise R.Float} IsAware (ok e)
    aware_of e h k = record { value = record { event_aware = h; updated_aware = k } }

    Yields-epoch :
        {B : Type 0} {Q : B → Type 0} (v : Json R.Float) (name : String) (id : Option String)
        (f : R.Datetime → Result (ParseRaise R.Float) B)
        → ((d : R.Datetime) → R.aware d ≡ true → Yields Q (f d))
        → Yields Q (epoch_ms_to_utc R v name id >>= f)
    Yields-epoch v name id f h =
        Yields-bind_using (epoch_ms_to_utc R v name id) f (epoch-Yields v name id) h

    parse_fields-Yields :
        (id : String) (feature : Fields R.Float) → Yields IsAware (parse_fields R id feature)
    unfolding parse_fields
    parse_fields-Yields id feature = search (Yields-epoch, aware_of, Yields-bind) depth 14

    parse_feature-Yields : (feature : Fields R.Float) → Yields IsAware (parse_feature R feature)
    unfolding parse_feature
    parse_feature-Yields feature = search (Yields-bind, parse_fields-Yields)

    parse_item-Yields : (x : Json R.Float) → Yields IsAware (parse_item R x)
    parse_item-Yields (obj feature) = parse_feature-Yields feature
    parse_item-Yields _ = record { value = tt }

    event_of-All :
        (r : Result (ParseRaise R.Float) (UsgsEvent R))
        → Yields IsAware r
        → All IsAware (event_of R r)
    event_of-All (ok e) h = (h.value, tt)
    event_of-All (err e) h = tt

    pub parsed-All : (features : Items R.Float) → All IsAware (parsed R features)
    unfolding parsed
    parsed-All nil = tt
    parsed-All (cons x xs) =
        All-append IsAware (event_of R (parse_item R x)) (parsed R xs)
          (event_of-All (parse_item R x) (parse_item-Yields x)) (parsed-All xs)
