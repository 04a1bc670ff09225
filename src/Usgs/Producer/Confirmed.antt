-- ===== src/Usgs/Producer/Confirmed.antt =====
-- The set of delivered ids holds every id of a message that was reported without an error.
use sentinel_chain.Base.{
  String, str_eq, eq_refl, ◌≡◌, refl, ◌||◌, true, false, List, [], ◌∷◌, Bool-cases, Option-cases,
  inl, inr,
}
use sentinel_chain.Common.Kafka.{Report}
use sentinel_chain.Common.Kafka.Delivers.{IsReported}
use sentinel_chain.Usgs.Producer.{contains, add, on_delivery, on_deliveries}

contains-add_self : (id : String) (set : List String) → contains id (add id set) ≡ true
contains-add_self id set = elim (Bool-cases (contains id set)) [
  | inl old ↦ rw old old
  | inr new ↦ rw (new, eq_refl id)
]

contains-add :
    (id j : String) (set : List String) → contains id set ≡ true → contains id (add j set) ≡ true
contains-add id j set h = elim (Bool-cases (contains j set)) [
  | inl old ↦ rw old h
  | inr new ↦ rw new (go (str_eq j id) h)
]
  where
    go : (b : _) → contains id set ≡ true → (b || contains id set) ≡ true
    go true k = refl
    go false k = k

contains-on_delivery :
    {B : Type 0} (r : Report B) (id : String) (set : List String)
    → contains id set ≡ true
    → contains id (on_delivery r set) ≡ true
contains-on_delivery r id set h = elim (Bool-cases r.failed) [
  | inl lost ↦ rw lost h
  | inr fine ↦ rw fine (elim (Option-cases r.message.on_delivery) [
    | inl silent ↦ rw silent h
    | inr (j, named) ↦ rw named (contains-add id j set h)
  ])
]

contains-on_deliveries :
    {B : Type 0} (reports : List (Report B)) (id : String) (set : List String)
    → contains id set ≡ true
    → contains id (on_deliveries reports set) ≡ true
contains-on_deliveries [] id set h = h
contains-on_deliveries (r ∷ rs) id set h =
    contains-on_deliveries rs id (on_delivery r set) (contains-on_delivery r id set h)

pub reported-contains :
    {B : Type 0} (reports : List (Report B)) (id : String) (set : List String)
    → IsReported id reports
    → contains id (on_deliveries reports set) ≡ true
reported-contains [] id set h = absurd h
reported-contains (r ∷ rs) id set (inl (fine, named)) =
    contains-on_deliveries rs id (on_delivery r set) (rw (fine, named) (contains-add_self id set))
reported-contains (r ∷ rs) id set (inr later) = reported-contains rs id (on_delivery r set) later
