-- ===== src/Simulator/Seed/Keys.antt =====
-- The primary keys of a table after a merge.
use sentinel_chain.Base.{
  String, str_eq, eq_iff, eq_refl, ◌≡◌, refl, Bool, true, false, ◌&&◌, List, [], ◌∷◌, map, All,
  if◌then◌else◌, Bool-cases, inl, inr,
}
use sentinel_chain.Simulator.Seed.{merge_row, has_row}

-- Keys with a test that decides their equality.
pub record KeyTest (K : Type 0) : Type 0 where
  pub same : K → K → Bool
  pub same_refl : (k : K) → same k k ≡ true
  pub same_eq : (j k : K) → same j k ≡ true → j ≡ k

abbrev pub text_keys : KeyTest String
text_keys = record { same = str_eq; same_refl = eq_refl; same_eq = λ j k. (eq_iff j k).0 }

pub pair_eq : (j k : String × String) → (str_eq j.0 k.0 && str_eq j.1 k.1) ≡ true → j ≡ k
pair_eq (a, b) (c, d) h = elim (Bool-cases (str_eq a c)) [
  | inl e ↦
      let first : a ≡ c = (eq_iff a c).0 e in
      let second : b ≡ d = (eq_iff b d).0 (rw e at h) in λ i. (first i, second i)
  | inr e ↦ absurd (cc h)
]

pub pair_refl : (k : String × String) → (str_eq k.0 k.0 && str_eq k.1 k.1) ≡ true
pair_refl (a, b) = rw (eq_refl a, eq_refl b)

abbrev pub pair_keys : KeyTest (String × String)
pair_keys = record {
  same = λ j k. str_eq j.0 k.0 && str_eq j.1 k.1;
  same_refl = pair_refl;
  same_eq = pair_eq;
}

module _ {K : Type 0} (t : KeyTest K) where
  -- The keys with one more, at the end, unless it is there.
  unfoldable pub add_key : K → List K → List K
  add_key k [] = k ∷ []
  add_key k (j ∷ js) = if t.same j k then k ∷ js else j ∷ add_key k js

  pub keys-merge_row :
      {A : Type 0} (key : A → K) (row : A) (rows : List A)
      → map key (merge_row (λ a b. t.same (key a) (key b)) row rows)
        ≡ add_key (key row) (map key rows)
  unfolding merge_row add_key
  keys-merge_row key row [] = refl
  keys-merge_row key row (r ∷ rows) = elim (Bool-cases (t.same (key r) (key row))) [
    | inl e ↦ rw e
    | inr e ↦ rw (e, keys-merge_row key row rows)
  ]

  pub has_row-merge_row :
      {A : Type 0} (key : A → K) (row : A) (rows : List A)
      → has_row (λ a. t.same (key a) (key row)) (merge_row (λ a b. t.same (key a) (key b)) row rows)
        ≡ true
  unfolding merge_row has_row
  has_row-merge_row key row [] = rw (t.same_refl (key row))
  has_row-merge_row key row (r ∷ rows) = elim (Bool-cases (t.same (key r) (key row))) [
    | inl e ↦ rw (e, t.same_refl (key row))
    | inr e ↦ rw (e, has_row-merge_row key row rows, e)
  ]

  -- Whether a key is there.
  unfoldable pub has_key : K → List K → Bool
  has_key k [] = false
  has_key k (j ∷ js) = if t.same j k then true else has_key k js

  has_key-add_key : (k : K) (ks : List K) → has_key k (add_key k ks) ≡ true
  unfolding has_key add_key
  has_key-add_key k [] = rw (t.same_refl k)
  has_key-add_key k (j ∷ js) = elim (Bool-cases (t.same j k)) [
    | inl e ↦ rw (e, t.same_refl k)
    | inr e ↦ rw (e, has_key-add_key k js, e)
  ]

  has_key-add_other :
      (j k : K) (ks : List K) → has_key k ks ≡ true → has_key k (add_key j ks) ≡ true
  unfolding has_key add_key
  has_key-add_other j k [] h = absurd (cc h)
  has_key-add_other j k (i ∷ is) h = elim (Bool-cases (t.same i j)) [
    | inl e ↦ let same : i ≡ j = t.same_eq i j e in rw (e, ← same) h
    | inr e ↦ elim (Bool-cases (t.same i k)) [
      | inl e' ↦ rw (e, e')
      | inr e' ↦ rw (e, e') (has_key-add_other j k is (rw e' at h))
    ]
  ]

  add_key-there : (k : K) (ks : List K) → has_key k ks ≡ true → add_key k ks ≡ ks
  unfolding has_key add_key
  add_key-there k [] h = absurd (cc h)
  add_key-there k (j ∷ js) h = elim (Bool-cases (t.same j k)) [
    | inl e ↦ let same : j ≡ k = t.same_eq j k e in rw (e, same)
    | inr e ↦ rw (e, add_key-there k js (rw e at h))
  ]

  unfoldable pub add_keys : List K → List K → List K
  add_keys [] ks = ks
  add_keys (j ∷ js) ks = add_keys js (add_key j ks)

  has_key-add_keys :
      (k : K) (js ks : List K) → has_key k ks ≡ true → has_key k (add_keys js ks) ≡ true
  unfolding add_keys
  has_key-add_keys k [] ks h = h
  has_key-add_keys k (j ∷ js) ks h =
      has_key-add_keys k js (add_key j ks) (has_key-add_other j k ks h)

  add_keys-there : (js ks : List K) → All (λ j. has_key j ks ≡ true) js → add_keys js ks ≡ ks
  unfolding add_keys
  add_keys-there [] ks h = refl
  add_keys-there (j ∷ js) ks h = rw (add_key-there j ks h.0) (add_keys-there js ks h.1)

  has_keys-add_keys : (js ks : List K) → All (λ j. has_key j (add_keys js ks) ≡ true) js
  unfolding add_keys
  has_keys-add_keys [] ks = tt
  has_keys-add_keys (j ∷ js) ks = (
    has_key-add_keys j js (add_key j ks) (has_key-add_key j ks),
    has_keys-add_keys js (add_key j ks),
  )

  -- Adding the same keys again adds nothing.
  pub add_keys-add_keys : (js ks : List K) → add_keys js (add_keys js ks) ≡ add_keys js ks
  add_keys-add_keys js ks = add_keys-there js (add_keys js ks) (has_keys-add_keys js ks)
