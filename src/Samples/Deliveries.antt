-- ===== src/Samples/Deliveries.antt =====
-- The sample broker delivers all that is in its buffer.
use mathlib.Core.Path.{subst}
use sentinel_chain.Base.{String, ◌≡◌, refl, ◌⊎◌, inl, inr, Option, none, some, List, [], ◌∷◌, ◌++◌}
use sentinel_chain.Common.Kafka.{Message}
use sentinel_chain.Common.Kafka.Delivers.{KafkaDelivers, IsReported}
use sentinel_chain.Samples.Clients.{
  broker, id_of, ids_of, delivered_all, IsIn, IsIn-left, IsIn-right, IsIn-head,
}

-- An id of a message at the end, and of one before it.
IsIn-last :
    (ms : List (Message String)) (m : Message String) (id : String)
    → m.on_delivery ≡ some id
    → IsIn id (ids_of (ms ++ m ∷ []))
IsIn-last [] m id h = IsIn-head id m.on_delivery [] h
IsIn-last (x ∷ ms) m id h = IsIn-right id (id_of x.on_delivery) _ (IsIn-last ms m id h)

IsIn-split : (id : String) (xs ys : List String) → IsIn id (xs ++ ys) → IsIn id xs ⊎ IsIn id ys
IsIn-split id [] ys h = inr h
IsIn-split id (x ∷ xs) ys (inl e) = inl (inl e)
IsIn-split id (x ∷ xs) ys (inr h) = elim (IsIn-split id xs ys h) [
  | inl k ↦ inl (inr k)
  | inr k ↦ inr k
]

IsIn-before :
    (ms : List (Message String)) (m : Message String) (id : String)
    → IsIn id (ids_of ms)
    → IsIn id (ids_of (ms ++ m ∷ []))
IsIn-before [] m id h = absurd h
IsIn-before (x ∷ ms) m id h = elim (IsIn-split id (id_of x.on_delivery) (ids_of ms) h) [
  | inl k ↦ IsIn-left id (id_of x.on_delivery) _ k
  | inr k ↦ IsIn-right id (id_of x.on_delivery) _ (IsIn-before ms m id k)
]

id_of-named : (id : String) (o : Option String) → IsIn id (id_of o) → o ≡ some id
id_of-named id none h = absurd h
id_of-named id (some x) (inl e) = λ i. some (e i)
id_of-named id (some x) (inr h) = absurd h

all-IsReported :
    (ms : List (Message String)) (id : String)
    → IsIn id (ids_of ms)
    → IsReported id (delivered_all ms)
all-IsReported [] id h = absurd h
all-IsReported (m ∷ ms) id h = elim (IsIn-split id (id_of m.on_delivery) (ids_of ms) h) [
  | inl k ↦ inl (refl, id_of-named id m.on_delivery k)
  | inr k ↦ inr (all-IsReported ms id k)
]

pub broker_delivers : KafkaDelivers broker
broker_delivers = record {
  queued = λ k id. IsIn id (ids_of k.buffer);
  produce_queues = λ m k id named fine. IsIn-last k.buffer m id named;
  produce_keeps = λ m k id h. IsIn-before k.buffer m id h;
  flush_delivers = λ t k reports n id h q.
      let same : delivered_all k.buffer ≡ reports = cc in
      subst (IsReported id) same (all-IsReported k.buffer id q);
}
