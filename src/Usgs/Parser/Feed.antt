-- ===== src/Usgs/Parser/Feed.antt =====
-- `parse_feed` against a description of each of its lists.
use sentinel_chain.Base.{
  ◌+◌, ◌≡◌, refl, ap, ◌∙◌, Option, none, some, List, [], ◌∷◌, ◌++◌, arith, length, length-append,
}
use mathlib.Core.List.{append-nil, append_assoc}
use sentinel_chain.Base.Result.{Result, ok, err, ◌>>=◌}
use sentinel_chain.Base.Runtime.{Runtime, StdError}
use sentinel_chain.Base.Json.{
  Json, null, bool, int, float, str, arr, obj, Items, nil, cons, Fields, get, count,
}
use sentinel_chain.Usgs.Parser.{
  UsgsEvent, FeatureParseError, ParseRaise, parse_error, std, not_an_object, parse_feature,
  Gathered, gather, visit, parse_features, parse_feed, or_std,
}

module _ (R : Runtime) where
  -- One item of the array on its own.
  abbrev pub parse_item : Json R.Float → Result (ParseRaise R.Float) (UsgsEvent R)
  parse_item (obj feature) = parse_feature R feature
  parse_item item =
      err (parse_error (record { message = not_an_object item; source_event_id = none }))

  abbrev pub event_of : Result (ParseRaise R.Float) (UsgsEvent R) → List (UsgsEvent R)
  event_of (ok e) = e ∷ []
  event_of (err e) = []

  abbrev pub error_of : Result (ParseRaise R.Float) (UsgsEvent R) → List (FeatureParseError R.Float)
  error_of (err (parse_error e)) = e ∷ []
  error_of _ = []

  abbrev pub abort_of :
      Result (ParseRaise R.Float) (UsgsEvent R) → Option StdError → Option StdError
  abort_of (err (std e)) rest = some e
  abort_of _ rest = rest

  -- The events of the items that parse, the errors of those that do not, and the first error
  -- of another kind.
  unfoldable pub parsed : Items R.Float → List (UsgsEvent R)
  parsed nil = []
  parsed (cons x xs) = event_of (parse_item x) ++ parsed xs

  unfoldable pub rejected : Items R.Float → List (FeatureParseError R.Float)
  rejected nil = []
  rejected (cons x xs) = error_of (parse_item x) ++ rejected xs

  unfoldable pub aborted : Items R.Float → Option StdError
  aborted nil = none
  aborted (cons x xs) = abort_of (parse_item x) (aborted xs)

  visit-parse_item :
      (x : Json R.Float) (acc : Gathered R) → visit R x acc ≡ gather R (parse_item x) acc
  unfolding visit
  visit-parse_item (obj fs) acc = refl
  visit-parse_item null acc = refl
  visit-parse_item (bool b) acc = refl
  visit-parse_item (int n) acc = refl
  visit-parse_item (float x) acc = refl
  visit-parse_item (str s) acc = refl
  visit-parse_item (arr xs) acc = refl

  abbrev pub described : Option StdError → Gathered R → Result StdError (Gathered R)
  described none acc = ok acc
  described (some e) acc = err e

  parse_features-described :
      (xs : Items R.Float) (events : List (UsgsEvent R)) (errors : List (FeatureParseError R.Float))
      → parse_features R xs (events, errors)
        ≡ described (aborted xs) (events ++ parsed xs, errors ++ rejected xs)
  unfolding parse_features parsed rejected aborted
  parse_features-described nil events errors = simp append-nil
  parse_features-described (cons x xs) events errors =
      rw (visit-parse_item x (events, errors))
        (step (parse_item x) (λ es rs. parse_features-described xs es rs))
    where
      step :
          (r : Result (ParseRaise R.Float) (UsgsEvent R))
          → ((es : List (UsgsEvent R)) (rs : List (FeatureParseError R.Float))
              → parse_features R xs (es, rs)
                ≡ described (aborted xs) (es ++ parsed xs, rs ++ rejected xs))
          → (gather R r (events, errors) >>= λ acc'. parse_features R xs acc')
            ≡ described
                (abort_of r (aborted xs))
                (events ++ (event_of r ++ parsed xs), errors ++ (error_of r ++ rejected xs))
      step (ok e) ih = ih (events ++ e ∷ []) errors ∙ simp append_assoc
      step (err (parse_error e)) ih = ih events (errors ++ e ∷ []) ∙ simp append_assoc
      step (err (std e)) ih = refl

  -- `parse_feed` of a payload with a `features` array returns the events of the features that
  -- parse and the errors of those that raise `FeatureParseError`, each in the order of the array,
  -- unless some feature raises another error: then the whole feed raises the first of those.
  pub parse_feed-described :
      (payload : Fields R.Float) (features : Items R.Float)
      → get "features" payload ≡ arr features
      → parse_feed R payload
        ≡ or_std (described (aborted features) (parsed features, rejected features))
  unfolding parse_feed
  parse_feed-described payload features h =
      rw (h, parse_feed) (ap or_std (parse_features-described features [] []))

  count_item :
      (x : Json R.Float) (xs : Items R.Float)
      → aborted (cons x xs) ≡ none
      → length (event_of (parse_item x)) + length (error_of (parse_item x)) ≡ 1
  unfolding aborted
  count_item x xs h = one (parse_item x) h
    where
      one :
          (r : Result (ParseRaise R.Float) (UsgsEvent R))
          → abort_of r (aborted xs) ≡ none
          → length (event_of r) + length (error_of r) ≡ 1
      one (ok e) h = omega arith
      one (err (parse_error e)) h = omega arith
      one (err (std e)) h = absurd (cc h)

  rest_aborted :
      (x : Json R.Float) (xs : Items R.Float) → aborted (cons x xs) ≡ none → aborted xs ≡ none
  unfolding aborted
  rest_aborted x xs h = ground arith

  -- A feed that no other error ends accounts for every item of its array: as an event or as an
  -- error.
  pub parsed-rejected-count :
      (features : Items R.Float)
      → aborted features ≡ none
      → length (parsed features) + length (rejected features) ≡ count features
  unfolding parsed rejected
  parsed-rejected-count nil h = omega arith
  parsed-rejected-count (cons x xs) h = omega (
    arith,
    count_item x xs h,
    parsed-rejected-count xs (rest_aborted x xs h),
    length-append (event_of (parse_item x)) (parsed xs),
    length-append (error_of (parse_item x)) (rejected xs),
  )
