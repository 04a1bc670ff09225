-- ===== src/Usgs/Poller/Account.antt =====
-- What the returned statistics account for.
use sentinel_chain.Base.{
  ℕ, ◌+◌, ◌≤◌, ◌≡◌, refl, Option, none, some, List, [], ◌∷◌, ◌++◌, arith, length, length-append,
  String,
}
use mathlib.Core.Path.{subst, ◌∙◌, sym, ap}
use sentinel_chain.Base.Int.{ℤ}
use sentinel_chain.Base.Result.{ok}
use sentinel_chain.Base.Exec.Hoare.{
  Holds, Triple, Triple-bind, Triple-skip, Triple-for_each, Triple-if, Triple-return, Triple-pre,
  Triple-raise,
}
use sentinel_chain.Base.Runtime.{Runtime, StdError, value_error, overflow_error, os_error}
use sentinel_chain.Base.Json.{Fields, Items, arr, get, count}
use sentinel_chain.Usgs.Parser.Feed.{
  aborted, parsed, rejected, described, parsed-rejected-count, parse_feed-described,
}
use sentinel_chain.Usgs.Parser.{UsgsEvent, FeatureParseError, or_std}
use sentinel_chain.Usgs.System.{from_parse, System, PollState, Poll}
use sentinel_chain.Usgs.Poller.{
  PollStats, Pending, start_stats, or_zero, report_error, accept_event, visit_event, confirm,
  commit, process_parsed, after_parse, process,
}

-- After some of the parse errors, with `rest` left.
pub record Errors {F : Type 0} (fetched n : ℕ) (rest : List (FeatureParseError F)) (st : PollStats)
    : Type 0 where
  pub same : st.fetched ≡ fetched
  pub counted : st.invalid + length rest ≡ n
  pub no_produced : st.produced ≡ 0
  pub no_duplicates : st.duplicates ≡ 0

-- After some of the events, with `rest` left.
pub record Visits {R : Runtime} (fetched : ℕ) (rest : List (UsgsEvent R))
    (acc : PollStats × List Pending) : Type 0 where
  pub same : acc.0.fetched ≡ fetched
  pub counted : acc.0.invalid + acc.0.duplicates + length acc.1 + length rest ≡ fetched
  pub no_produced : acc.0.produced ≡ 0

-- After some of the pending events, with `rest` left.
record Confirms (fetched : ℕ) (rest : List Pending) (acc : PollStats × ℤ) : Type 0 where
  same : acc.0.fetched ≡ fetched
  counted : acc.0.produced + acc.0.duplicates + acc.0.invalid + length rest ≤ fetched

-- The produced, duplicate and invalid records are at most the fetched ones.
pub record IsAccount (fetched : ℕ) (st : PollStats) : Type 0 where
  pub same : st.fetched ≡ fetched
  pub counted : st.produced + st.duplicates + st.invalid ≤ fetched

Errors-next :
    {F : Type 0} {fetched n : ℕ} {e : FeatureParseError F} {rest : List (FeatureParseError F)}
    {st : PollStats}
    → Errors fetched n (e ∷ rest) st
    → Errors fetched n rest (record st { invalid = st.invalid + 1 })
Errors-next h = omega arith

module _ {R : Runtime} {fetched : ℕ} {e : UsgsEvent R} {rest : List (UsgsEvent R)} where
  pub Visits-invalid :
      {st : PollStats} {pending : List Pending}
      → Visits fetched (e ∷ rest) (st, pending)
      → Visits fetched rest (record st { invalid = st.invalid + 1 }, pending)
  Visits-invalid h = omega arith

  pub Visits-duplicate :
      {st : PollStats} {pending : List Pending}
      → Visits fetched (e ∷ rest) (st, pending)
      → Visits fetched rest (record st { duplicates = st.duplicates + 1 }, pending)
  Visits-duplicate h = omega arith

  pub Visits-pending :
      {st : PollStats} {pending : List Pending} (p : Pending)
      → Visits fetched (e ∷ rest) (st, pending)
      → Visits fetched rest (st, pending ++ p ∷ [])
  Visits-pending {pending = pending} p h = omega (arith, length-append pending (p ∷ []))

module _ {fetched : ℕ} {p : Pending} {rest : List Pending} {st : PollStats} {newest : ℤ} where
  Confirms-delivered :
      {newer : ℤ}
      → Confirms fetched (p ∷ rest) (st, newest)
      → Confirms fetched rest (record st { produced = st.produced + 1 }, newer)
  Confirms-delivered h = omega arith

  Confirms-missing : Confirms fetched (p ∷ rest) (st, newest) → Confirms fetched rest (st, newest)
  Confirms-missing h = omega arith

-- Where the loop over the pending events begins and ends.
Confirms-start :
    {R : Runtime} {fetched : ℕ} {st : PollStats} {pending : List Pending} (undelivered : ℕ)
    (newest : ℤ)
    → Visits {R = R} fetched [] (st, pending)
    → Confirms fetched pending (record st { undelivered = undelivered }, newest)
Confirms-start undelivered newest h = omega arith

Confirms-end :
    {fetched : ℕ} {acc : PollStats × ℤ} → Confirms fetched [] acc → IsAccount fetched acc.0
Confirms-end h = omega arith

pub Errors-start :
    {F : Type 0} {R : Runtime} (events : List (UsgsEvent R)) (errors : List (FeatureParseError F))
    → Errors
        (length events + length errors)
        (length errors)
        errors
        (start_stats (length events + length errors))
Errors-start events errors = omega arith

pub Visits-start :
    {R : Runtime} (events : List (UsgsEvent R)) (errors : List (FeatureParseError R.Float))
    {st : PollStats}
    → Errors {F = R.Float} (length events + length errors) (length errors) [] st
    → Visits (length events + length errors) events (st, [])
Visits-start events errors h = omega arith

Visits-end :
    {R : Runtime} {fetched : ℕ} {st : PollStats} {pending : List Pending}
    → Visits {R = R} fetched [] (st, pending)
    → IsAccount fetched st
Visits-end h = omega arith

ruleset account_rules = (
  Triple-skip, Triple-if, Triple-return, Errors-next, Visits-invalid, Visits-duplicate,
  Visits-pending, Confirms-delivered, Confirms-missing,
)

module _ {R : Runtime} {X : Type 0} (sys : System R X) where
  abbrev Then : {A : Type 0} → Type 0 → Poll sys A → (A → Type 0) → Type 0
  Then C m Q = Triple (λ s. C) m (λ a s. Q a) (λ s. Unit)

  pub report_error-Errors :
      (fetched n : ℕ) (e : FeatureParseError R.Float) (rest : List (FeatureParseError R.Float))
      (st : PollStats)
      → Then (Errors fetched n (e ∷ rest) st) (report_error sys e st) (Errors fetched n rest)
  unfolding report_error
  report_error-Errors fetched n e rest st = search account_rules

  accept_event-Visits :
      (fetched : ℕ) (e : UsgsEvent R) (rest : List (UsgsEvent R)) (acc : PollStats × List Pending)
      → Then (Visits fetched (e ∷ rest) acc) (accept_event sys e acc) (Visits fetched rest)
  unfolding accept_event
  accept_event-Visits fetched e rest (st, pending) = search account_rules depth 8

  visit_event-Visits :
      (now : R.Datetime) (fetched : ℕ) (e : UsgsEvent R) (rest : List (UsgsEvent R))
      (acc : PollStats × List Pending)
      → Then (Visits fetched (e ∷ rest) acc) (visit_event sys now e acc) (Visits fetched rest)
  unfolding visit_event
  visit_event-Visits now fetched e rest (st, pending) =
      search (account_rules, accept_event-Visits) depth 8

  confirm-Confirms :
      (delivered : List String) (fetched : ℕ) (p : Pending) (rest : List Pending)
      (acc : PollStats × ℤ)
      → Then (Confirms fetched (p ∷ rest) acc) (confirm sys delivered p acc) (Confirms fetched rest)
  unfolding confirm
  confirm-Confirms delivered fetched (id, marker, updated) rest (st, newest) = search account_rules

  commit-IsAccount :
      (now : R.Datetime) (fetched : ℕ) (st : PollStats) (pending : List Pending)
      → Then
          (Visits {R = R} fetched [] (st, pending))
          (commit sys now st pending)
          (IsAccount fetched)
  unfolding commit
  commit-IsAccount now fetched st pending = Triple-skip _ _ λ (outcome : List String × ℕ).
      Triple-skip _ _ λ (cursor : Option ℤ).
        Triple-pre (Confirms-start outcome.1 (or_zero cursor)) (
          Triple-bind _ _
            (Triple-for_each (λ rest acc s. Confirms fetched rest acc) (confirm sys outcome.0)
              (λ p rest acc. confirm-Confirms outcome.0 fetched p rest acc) pending
              (record st { undelivered = outcome.1 }, or_zero cursor))
            (λ result.
              Triple-skip _ _ λ u. Triple-skip _ _ λ u'. Triple-return result.0 Confirms-end))

  process_parsed-IsAccount :
      (events : List (UsgsEvent R)) (errors : List (FeatureParseError R.Float))
      → Then
          (Unit {0})
          (process_parsed sys (events, errors))
          (IsAccount (length events + length errors))
  unfolding process_parsed
  process_parsed-IsAccount events errors =
      let fetched = length events + length errors in
      Triple-skip _ _ λ u.
        Triple-pre (λ v. Errors-start events errors)
          (Triple-bind _ _
            (Triple-for_each (λ rest st s. Errors fetched (length errors) rest st)
              (report_error sys)
              (λ e rest st. report_error-Errors fetched (length errors) e rest st) errors
              (start_stats fetched))
            (λ (st : PollStats). Triple-skip _ _ λ (now : R.Datetime).
              Triple-pre (Visits-start events errors) (
                Triple-bind _ _
                  (Triple-for_each (λ rest acc s. Visits fetched rest acc) (visit_event sys now)
                    (visit_event-Visits now fetched) events (st, []))
                  (λ visited. Triple-skip _ _ λ u'.
                    Triple-if _ _ _ (Triple-return visited.0 Visits-end)
                      (commit-IsAccount now fetched visited.0 visited.1)))))

  after_parse-IsAccount :
      (features : Items R.Float) (o : Option StdError)
      → aborted R features ≡ o
      → Then
          (Unit {0})
          (after_parse sys
            (from_parse (or_std (described R o (parsed R features, rejected R features)))))
          (IsAccount (count features))
  unfolding after_parse
  after_parse-IsAccount features none h =
      rw (← parsed-rejected-count R features h)
        (process_parsed-IsAccount (parsed R features) (rejected R features))
  after_parse-IsAccount features (some value_error) h = Triple-skip _ _ λ u. Triple-raise
  after_parse-IsAccount features (some overflow_error) h = Triple-raise
  after_parse-IsAccount features (some os_error) h = Triple-raise

  -- When `_process` returns, its `fetched` is the number of items of the feed's array, and its
  -- produced, duplicates and invalid add up to at most that number.
  pub process-IsAccount :
      (body : Fields R.Float) (features : Items R.Float) (s s' : PollState sys) (st : PollStats)
      → get "features" body ≡ arr features
      → process sys body s ≡ (ok st, s')
      → IsAccount (count features) st
  unfolding process
  process-IsAccount body features s s' st has run =
      let t = after_parse-IsAccount features (aborted R features) refl in
      subst (Holds (λ st' z. IsAccount (count features) st') (λ z. Unit))
        (ap (λ r. after_parse sys (from_parse r) s) (sym (parse_feed-described R body features has))
          ∙ run)
        (t.at s tt)
