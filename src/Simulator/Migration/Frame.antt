-- ===== src/Simulator/Migration/Frame.antt =====
-- A migration beside tables that have nothing to do with it.
use sentinel_chain.Base.{
  String, str_eq, ◌≡◌, refl, ap, Bool, true, false, not, ◌&&◌, ◌||◌, Option, none, some, List, [],
  ◌∷◌, ◌++◌, Bool-cases, inl, inr, arith,
}
use sentinel_chain.Simulator.Schema.{
  Table, Column, ForeignKey, any, has, key_is, resolves, all_resolve, refers, is_referred, without,
  with_full, set_full,
}

-- The tables know nothing of the name: none has it, and none refers to it.
pub record Apart (base : List Table) (name : String) : Type 0 where
  pub new_name : has name base ≡ false
  pub unreferred : is_referred name base ≡ false

pub any-append :
    {A : Type 0} (test : A → Bool) (xs ys : List A)
    → any test (xs ++ ys) ≡ (any test xs || any test ys)
any-append test [] ys = refl
any-append test (x ∷ xs) ys = ground (arith, any-append test xs ys)

pub all_resolve-frame :
    (base xs : List Table) (cs : List Column)
    → all_resolve xs cs ≡ true
    → all_resolve (base ++ xs) cs ≡ true
all_resolve-frame base xs [] h = refl
all_resolve-frame base xs (c ∷ cs) h = go c.foreign_key h (λ k. all_resolve-frame base xs cs k)
  where
    go :
        (o : Option ForeignKey)
        → ((elim o [ none ↦ true | some f ↦ resolves xs f ]) && all_resolve xs cs) ≡ true
        → (all_resolve xs cs ≡ true → all_resolve (base ++ xs) cs ≡ true)
        → ((elim o [ none ↦ true | some f ↦ resolves (base ++ xs) f ])
            && all_resolve (base ++ xs) cs)
          ≡ true
    go none g ih = ih g
    go (some f) g ih = ground (
      arith,
      ih,
      any-append (λ (t : Table). str_eq t.name f.table && key_is f.column t.columns) base xs,
    )

pub append_assoc : {A : Type 0} (xs ys zs : List A) → (xs ++ ys) ++ zs ≡ xs ++ (ys ++ zs)
append_assoc [] ys zs = refl
append_assoc (x ∷ xs) ys zs = ap (λ r. x ∷ r) (append_assoc xs ys zs)

without-append :
    (n : String) (xs ys : List Table) → without n (xs ++ ys) ≡ without n xs ++ without n ys
without-append n [] ys = refl
without-append n (t ∷ xs) ys = elim (Bool-cases (str_eq t.name n)) [
  | inl e ↦ rw e (without-append n xs ys)
  | inr e ↦ rw e (ap (λ r. t ∷ r) (without-append n xs ys))
]

without_new : (n : String) (xs : List Table) → has n xs ≡ false → without n xs ≡ xs
without_new n [] h = refl
without_new n (t ∷ xs) h = elim (Bool-cases (str_eq t.name n)) [
  | inl e ↦ absurd (cc (rw e at h))
  | inr e ↦ rw e (ap (λ r. t ∷ r) (without_new n xs (rw e at h)))
]

with_full-append :
    (n : String) (xs ys : List Table) → with_full n (xs ++ ys) ≡ with_full n xs ++ with_full n ys
with_full-append n [] ys = refl
with_full-append n (t ∷ xs) ys = ap (λ r. set_full n t ∷ r) (with_full-append n xs ys)

with_full_new : (n : String) (xs : List Table) → has n xs ≡ false → with_full n xs ≡ xs
with_full_new n [] h = refl
with_full_new n (t ∷ xs) h = elim (Bool-cases (str_eq t.name n)) [
  | inl e ↦ absurd (cc (rw e at h))
  | inr e ↦ rw e (ap (λ r. t ∷ r) (with_full_new n xs (rw e at h)))
]

-- What the two tests of a drop say beside such tables.
pub has-frame :
    (base xs : List Table) (n : String) → has n base ≡ false → has n (base ++ xs) ≡ has n xs
has-frame base xs n h = rw (any-append (λ (t : Table). str_eq t.name n) base xs, h)

pub is_referred-frame :
    (base xs : List Table) (n : String)
    → is_referred n base ≡ false
    → is_referred n (base ++ xs) ≡ is_referred n xs
is_referred-frame base xs n h =
    rw (any-append (λ (t : Table). not (str_eq t.name n) && refers n t) base xs, h)

pub without-frame :
    (base xs : List Table) (n : String)
    → has n base ≡ false
    → without n (base ++ xs) ≡ base ++ without n xs
without-frame base xs n h = rw (without-append n base xs, without_new n base h)

pub with_full-frame :
    (base xs : List Table) (n : String)
    → has n base ≡ false
    → with_full n (base ++ xs) ≡ base ++ with_full n xs
with_full-frame base xs n h = rw (with_full-append n base xs, with_full_new n base h)
