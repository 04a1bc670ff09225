-- ===== src/Usgs/Poller/Complete/Counting.antt =====
-- The count of the records while the pending events are confirmed.
use sentinel_chain.Base.{ℕ, ◌+◌, ◌≡◌, String, List, [], ◌∷◌, All, arith, length, true}
use sentinel_chain.Base.Int.{ℤ}
use sentinel_chain.Base.Runtime.{Runtime}
use sentinel_chain.Usgs.Producer.{contains}
use sentinel_chain.Usgs.Poller.{PollStats, Pending, is_empty}
use sentinel_chain.Usgs.Poller.Account.{Visits}

-- After some of the pending events, all of which are confirmed, with `rest` left.
pub record Confirmed (delivered : List String) (fetched : ℕ) (rest : List Pending)
    (acc : PollStats × ℤ) : Type 0 where
  pub counted : acc.0.produced + acc.0.duplicates + acc.0.invalid + length rest ≡ fetched
  pub confirmed : All (λ (p : Pending). contains p.0 delivered ≡ true) rest

pub Confirmed-next :
    {delivered : List String} {fetched : ℕ} {p : Pending} {rest : List Pending} {st : PollStats}
    {newest newer : ℤ}
    → Confirmed delivered fetched (p ∷ rest) (st, newest)
    → Confirmed delivered fetched rest (record st { produced = st.produced + 1 }, newer)
Confirmed-next h = record { counted = omega (arith, h.counted); confirmed = h.confirmed.1 }

-- Every fetched record is produced, a duplicate or invalid.
pub record IsComplete (fetched : ℕ) (st : PollStats) : Type 0 where
  pub complete : st.produced + st.duplicates + st.invalid ≡ fetched

pub Confirmed-start :
    {R : Runtime} {fetched : ℕ} {st : PollStats} {pending : List Pending} {delivered : List String}
    (undelivered : ℕ) (newest : ℤ)
    → Visits {R = R} fetched [] (st, pending)
      × All (λ (p : Pending). contains p.0 delivered ≡ true) pending
    → Confirmed delivered fetched pending (record st { undelivered = undelivered }, newest)
Confirmed-start undelivered newest h = record { counted = omega (arith, h.0); confirmed = h.1 }

pub Confirmed-end :
    {delivered : List String} {fetched : ℕ} {acc : PollStats × ℤ}
    → Confirmed delivered fetched [] acc
    → IsComplete fetched acc.0
Confirmed-end h = record { complete = omega (arith, h.counted) }

-- Where nothing was produced and nothing was invalid, all were duplicates.
pub IsComplete-empty :
    {R : Runtime} {fetched : ℕ} {st : PollStats} (pending : List Pending)
    → is_empty pending ≡ true
    → Visits {R = R} fetched [] (st, pending)
    → IsComplete fetched st
IsComplete-empty [] e h = record { complete = omega (arith, h) }
IsComplete-empty (p ∷ pending) e h = absurd (cc e)
