-- ===== src/Usgs/Poller/Reliable.antt =====
-- Clients that do not raise, and the rules for code over them that returns.
use sentinel_chain.Base.{String, ◌≡◌, true, Option, none, some, List, [], ◌∷◌}
use sentinel_chain.Base.Int.{ℤ}
use sentinel_chain.Base.Result.{Result, ok, err}
use sentinel_chain.Base.Exec.{pure, lift, gets, modify, ◌>>=◌, for_each}
use sentinel_chain.Base.Exec.Hoare.{Holds, Triple, Triple-bind}
use sentinel_chain.Base.Runtime.{Runtime, StdError}
use sentinel_chain.Base.Json.{Fields}
use sentinel_chain.Common.Envelope.{EventEnvelope}
use sentinel_chain.Common.Time.{to_utc, isoformat_utc}
use sentinel_chain.Common.Kafka.Reliable.{IsOk, KafkaReliable}
use sentinel_chain.Usgs.Parser.{UsgsEvent}
use sentinel_chain.Usgs.Parser.Aware.{IsAware}
use sentinel_chain.Usgs.Event.{source_version, payload, payload_hash}
use sentinel_chain.Usgs.System.{
  Raised, System, Metrics, PollState, Poll, from_outside, from_std, on_env,
}
use sentinel_chain.Usgs.Poller.{count}

-- A cursor that was read is none, or converts to a float.
abbrev pub IsRead : (R : Runtime) {X : Type 0} → Result X (Option ℤ) → Type 0
IsRead R (ok none) = Unit
IsRead R (ok (some n)) = IsOk (R.of_int n)
IsRead R (err x) = ⊥

-- What the process uses of other software does not raise. The store's state is `sound`, which no
-- call of the poll changes as long as the cursors that are set convert to floats.
pub record Reliable {R : Runtime} {X : Type 0} (sys : System R X) : Type 1 where
  pub kafka : KafkaReliable sys.kafka
  pub serializes :
      (topic : String) (e : EventEnvelope R) (v : sys.Env) → IsOk (sys.serialize topic e v).0
  pub sound : sys.store.State → Type 0
  pub sees :
      (id : String) (t : sys.store.State)
      → sound t
      → IsOk (sys.store.seen_marker id t).0 × sound (sys.store.seen_marker id t).1
  pub records :
      (id marker : String) (t : sys.store.State)
      → sound t
      → IsOk (sys.store.record_marker id marker t).0 × sound (sys.store.record_marker id marker t).1
  pub gets_cursor :
      (t : sys.store.State)
      → sound t
      → IsRead R (sys.store.get_cursor_ms t).0 × sound (sys.store.get_cursor_ms t).1
  pub sets_cursor :
      (n : ℤ) (t : sys.store.State)
      → IsOk (R.of_int n)
      → sound t
      → IsOk (sys.store.set_cursor_ms n t).0 × sound (sys.store.set_cursor_ms n t).1

isoformat_utc-IsOk : (R : Runtime) (d : R.Datetime) → R.aware d ≡ true → IsOk (isoformat_utc R d)
unfolding isoformat_utc to_utc
isoformat_utc-IsOk R d h = rw h tt

module _ {R : Runtime} {e : UsgsEvent R} (h : IsAware R e) where
  pub source_version-IsOk : IsOk (source_version R e)
  unfolding source_version
  source_version-IsOk = isoformat_utc-IsOk R e.updated_time h.updated_aware

  pub payload-IsOk : IsOk (payload R e)
  unfolding payload isoformat_utc to_utc
  payload-IsOk = rw (h.event_aware, h.updated_aware) tt

  pub payload_hash-IsOk :
      (dumps : Fields R.Float → String) (sha256 : String → String)
      → IsOk (payload_hash R dumps sha256 e)
  unfolding payload_hash payload isoformat_utc to_utc
  payload_hash-IsOk dumps sha256 = rw (h.event_aware, h.updated_aware) tt

module _ {R : Runtime} {X : Type 0} (sys : System R X) (reliable : Reliable sys) where
  -- From a sound store the code returns, and leaves it sound.
  abbrev pub Returns : {A : Type 0} → Poll sys A → Type 0
  Returns m = Triple (λ s. reliable.sound s.store) m (λ a s. reliable.sound s.store) (λ s. ⊥)

  -- And what it returns is of a kind.
  abbrev pub Gives : {A : Type 0} → (A → Type 0) → Poll sys A → Type 0
  Gives Q m = Triple (λ s. reliable.sound s.store) m (λ a s. reliable.sound s.store × Q a) (λ s. ⊥)

  pub Returns-run :
      {A : Type 0} (m : Poll sys A)
      → ((s : PollState sys) → reliable.sound s.store → IsOk (m s).0 × reliable.sound (m s).1.store)
      → Returns m
  Returns-run m h = record { at = λ s sound. go (m s) (h s sound) }
    where
      go :
          {A : Type 0} (r : Result (Raised R X) A × PollState sys)
          → IsOk r.0 × reliable.sound r.1.store
          → Holds (λ a z. reliable.sound z.store) (λ z. ⊥) r
      go (ok a, z) h = h.1
      go (err e, z) h = h.0

  pub Returns-bind :
      {A B : Type 0} (m : Poll sys A) (f : A → Poll sys B)
      → Returns m
      → ((a : A) → Returns (f a))
      → Returns (m >>= f)
  Returns-bind m f hm hf = Triple-bind m f hm hf

  pub Gives-bind :
      {A B : Type 0} {Z : B → PollState sys → Type 0} (Q : A → Type 0) (m : Poll sys A)
      (f : A → Poll sys B)
      → Gives Q m
      → ((a : A) → Q a → Triple (λ s. reliable.sound s.store) (f a) Z (λ s. ⊥))
      → Triple (λ s. reliable.sound s.store) (m >>= f) Z (λ s. ⊥)
  Gives-bind Q m f hm hf = Triple-bind m f hm (λ a. record { at = λ s h. (hf a h.1).at s h.0 })

  pub Gives-pure : {A : Type 0} {Q : A → Type 0} (a : A) → Q a → Gives Q (pure a)
  Gives-pure a q = record { at = λ s h. (h, q) }

  pub Returns-pure : {A : Type 0} (a : A) → Returns (pure a)
  Returns-pure a = record { at = λ s h. h }

  pub Returns-on_env : {A : Type 0} (m : sys.Env → A × sys.Env) → Returns (on_env sys m)
  Returns-on_env m = record { at = λ s h. h }

  pub Returns-gets : {A : Type 0} (f : PollState sys → A) → Returns (gets f)
  Returns-gets f = record { at = λ s h. h }

  pub Returns-delivered :
      (f : PollState sys → List String) → Returns (modify (λ s. record s { delivered = f s }))
  Returns-delivered f = record { at = λ s h. h }

  pub count-Returns : (f : Metrics R → Metrics R) → Returns (count sys f)
  unfolding count
  count-Returns f = record { at = λ s h. h }

  pub Returns-lift : {A : Type 0} (r : Result StdError A) → IsOk r → Returns (lift (from_std r))
  Returns-lift (ok a) h = record { at = λ s k. k }
  Returns-lift (err e) h = absurd h

  pub Returns-for_each :
      {A B : Type 0} (body : A → B → Poll sys B)
      → ((x : A) (acc : B) → Returns (body x acc))
      → (xs : List A) (acc : B) → Returns (for_each body xs acc)
  unfolding for_each
  Returns-for_each body h [] acc = Returns-pure acc
  Returns-for_each body h (x ∷ xs) acc =
      Returns-bind (body x acc) _ (h x acc) (λ acc'. Returns-for_each body h xs acc')

  pub Gives-for_each :
      {A B : Type 0} (Inv : List A → B → Type 0) (body : A → B → Poll sys B)
      → ((x : A) (xs : List A) (acc : B) → Inv (x ∷ xs) acc → Gives (Inv xs) (body x acc))
      → (xs : List A) (acc : B) → Inv xs acc
      → Gives (Inv []) (for_each body xs acc)
  unfolding for_each
  Gives-for_each Inv body h [] acc inv = Gives-pure acc inv
  Gives-for_each Inv body h (x ∷ xs) acc inv =
      Gives-bind (Inv xs) (body x acc) _ (h x xs acc inv)
        (λ acc' inv'. Gives-for_each Inv body h xs acc' inv')

  pub from_outside-IsOk : {A : Type 0} (r : Result X A) → IsOk r → IsOk (from_outside {R = R} r)
  from_outside-IsOk (ok a) h = tt
  from_outside-IsOk (err x) h = h
