-- ===== src/Samples/Clients.antt =====
-- A Kafka client that acknowledges all it is given at the next flush, and a process that uses it.
use Prim.Native.String.{◌++◌ as text_append}
use sentinel_chain.Base.{
  ℕ, ◌+◌, not, str_eq, String, ◌≡◌, ◌⊎◌, inl, inr, true, false, Option, none, some, List, [], ◌∷◌,
  ◌++◌, All, Bool, Bool-cases, ◌&&◌,
}
use mathlib.Core.Path.{subst}
use sentinel_chain.Base.Int.{ℤ, pos, negsuc, leb_ℤ, ltb_ℤ}
use sentinel_chain.Base.Result.{ok, Result}
use sentinel_chain.Base.Json.{int, float, str, arr, obj, Items, nil, cons, Fields, end, field}
use sentinel_chain.Common.Kafka.{Message, Report, Kafka}
use sentinel_chain.Common.Kafka.Laws.{Speaks, KafkaLaws}
use sentinel_chain.Usgs.Cursor.{in_memory}
use sentinel_chain.Usgs.System.{System, PollState}
use sentinel_chain.Common.Kafka.Reliable.{KafkaReliable}
use sentinel_chain.Usgs.Parser.Aware.{UtcDates}
use sentinel_chain.Usgs.Poller.Reliable.{Reliable, IsRead}
use sentinel_chain.Base.Runtime.{StdError}
use sentinel_chain.Samples.{micro, show_int}

pub record Broker : Type 0 where
  pub buffer : List (Message String)
  pub acknowledged : List String

abbrev pub id_of : Option String → List String
id_of none = []
id_of (some id) = id ∷ []

abbrev pub ids_of : List (Message String) → List String
ids_of [] = []
ids_of (m ∷ ms) = id_of m.on_delivery ++ ids_of ms

abbrev pub delivered_all : List (Message String) → List (Report String)
delivered_all [] = []
delivered_all (m ∷ ms) = record { message = m; failed = false } ∷ delivered_all ms

abbrev pub broker : Kafka micro String
broker = record {
  Client = Broker;
  Bytes = String;
  connect = ok (record { buffer = []; acknowledged = [] });
  produce = λ m k. (ok tt, record k { buffer = k.buffer ++ m ∷ [] });
  flush = λ t k. (
    ok (delivered_all k.buffer, 0),
    record { buffer = []; acknowledged = ids_of k.buffer ++ k.acknowledged },
  );
}

abbrev pub IsIn : String → List String → Type 0
IsIn id [] = ⊥
IsIn id (x ∷ xs) = (x ≡ id) ⊎ IsIn id xs

pub IsIn-right : (id : String) (xs ys : List String) → IsIn id ys → IsIn id (xs ++ ys)
IsIn-right id [] ys h = h
IsIn-right id (x ∷ xs) ys h = inr (IsIn-right id xs ys h)

pub IsIn-head :
    (id : String) (o : Option String) (xs : List String) → o ≡ some id → IsIn id (id_of o ++ xs)
IsIn-head id none xs h = absurd (cc h)
IsIn-head id (some x) xs h = inl (cc h)

-- Each report speaks of an id of its message.
delivered_all-Speaks :
    (ms : List (Message String)) (P : String → Type 0)
    → ((id : String) → IsIn id (ids_of ms) → P id)
    → All (Speaks P) (delivered_all ms)
delivered_all-Speaks [] P h = tt
delivered_all-Speaks (m ∷ ms) P h = (
  λ fine id named. h id (IsIn-head id m.on_delivery (ids_of ms) named),
  delivered_all-Speaks ms P (λ id i. h id (IsIn-right id (id_of m.on_delivery) (ids_of ms) i)),
)

pub IsIn-left : (id : String) (xs ys : List String) → IsIn id xs → IsIn id (xs ++ ys)
IsIn-left id [] ys h = absurd h
IsIn-left id (x ∷ xs) ys (inl e) = inl e
IsIn-left id (x ∷ xs) ys (inr h) = inr (IsIn-left id xs ys h)

pub broker_laws : KafkaLaws broker
broker_laws = record {
  acked = λ k id. IsIn id k.acknowledged;
  produce_keeps = λ m k id h. h;
  flush_keeps = λ t k id h. IsIn-right id (ids_of k.buffer) k.acknowledged h;
  flush_speaks = λ t k reports n h.
      let same : delivered_all k.buffer ≡ reports = cc in
      subst (All (Speaks (λ id. IsIn id (ids_of k.buffer ++ k.acknowledged)))) same (
        delivered_all-Speaks k.buffer (λ id. IsIn id (ids_of k.buffer ++ k.acknowledged))
          (λ id i. IsIn-left id (ids_of k.buffer) k.acknowledged i));
}

-- A feed of two features: an event, and one without an id.
abbrev pub sample_feature : Fields ℤ
sample_feature = field "id" (str "us1") (
    field "properties"
      (obj (
        field "mag" (float (pos 5200000)) (
          field "place" (str "Chile") (
            field "time" (int (pos 1700000000000))
              (field "updated" (int (pos 1700000001000)) end)))))
      (field "geometry"
        (obj (field "coordinates" (arr (cons (int (negsuc 70)) (cons (int (negsuc 29)) nil))) end))
        end))

abbrev pub sample_items : Items ℤ
sample_items = cons (obj sample_feature) (cons (obj end) nil)

abbrev pub sample_feed : Fields ℤ
sample_feed = field "features" (arr sample_items) end

-- The environment counts the ids it has given.
abbrev pub sample_system : System micro String
sample_system = record {
  raw_topic = "raw";
  dq_topic = "dq";
  future_tolerance = pos 300000000;
  Env = ℕ;
  utcnow = λ n. ((pos 1700000100000000, true), n);
  new_uuid = λ n. (show_int (pos n), n + 1);
  fetch_feed = λ n. (ok sample_feed, n);
  is_exception = λ x. not (str_eq x "cancelled");
  close_client = λ n. (ok tt, n);
  kafka = broker;
  serialize = λ topic e n. (ok e.source_event_id, n);
  store = in_memory String;
  dumps = λ fields. "fields";
  dumps_raw = λ fields. "fields";
  sha256 = λ s. text_append "hash of " s;
  show_message = λ m. "malformed";
}

abbrev pub sample_state : PollState sample_system
sample_state = record {
  env = 0;
  client = none;
  delivered = [];
  store = record { markers = []; cursor_ms = none };
  metrics = record {
    poll_total = 0;
    poll_failure_total = 0;
    records_fetched_total = 0;
    records_produced_total = 0;
    records_duplicate_total = 0;
    records_invalid_total = 0;
    cursor_lag = none;
  };
}

pub broker_reliable : KafkaReliable broker
broker_reliable = record { connects = tt; produces = λ m k. tt; flushes = λ t k. tt }

-- The runtime converts every integer.
pub every_cursor : (o : Option ℤ) → IsRead micro {X = String} (ok o)
every_cursor none = tt
every_cursor (some n) = tt

abbrev pub sample-Reliable : Reliable sample_system
sample-Reliable = record {
  kafka = broker_reliable;
  serializes = λ topic e v. tt;
  sound = λ t. Unit;
  sees = λ id t h. (tt, tt);
  records = λ id marker t h. (tt, tt);
  gets_cursor = λ t h. (every_cursor t.cursor_ms, tt);
  sets_cursor = λ n t h k. (tt, tt);
}

-- The dates of the runtime that are made from a timestamp have a time zone.
pub micro_dates : UtcDates micro
micro_dates x d h = elim (Bool-cases (leb_ℤ (pos 0) x && ltb_ℤ x (pos 253402300800000000))) [
  | inl inside ↦ aware_of (rw inside at h)
  | inr outside ↦ absurd (cc (rw outside at h))
]
  where
    aware_of : ◌≡◌ {A = Result StdError (ℤ × Bool)} (ok (x, true)) (ok d) → d.1 ≡ true
    aware_of same = cc
