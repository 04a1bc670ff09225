-- ===== src/Base/Exec.antt =====
-- Code that changes a state and may raise: what was written before an exception stays written.
pub mod Hoare
use mathlib.Core.Path.{◌≡◌}
use mathlib.Core.List.{List, [], ◌∷◌}
use sentinel_chain.Base.Result.{Result, ok, err}

abbrev pub Exec : Type 0 → Type 0 → Type 0 → Type 0
Exec E S A = S → Result E A × S

module _ {E S A : Type 0} where
  abbrev pub pure : A → Exec E S A
  pure a s = (ok a, s)

  abbrev pub raise : E → Exec E S A
  raise e s = (err e, s)

  abbrev pub gets : (S → A) → Exec E S A
  gets f s = (ok (f s), s)

  abbrev pub lift : Result E A → Exec E S A
  lift r s = (r, s)

abbrev pub modify : {E S : Type 0} → (S → S) → Exec E S (Unit {0})
modify f s = (ok tt, f s)

module _ {E S A B : Type 0} where
  abbrev pub and_then : (A → Exec E S B) → Result E A × S → Result E B × S
  and_then f (ok a, s) = f a s
  and_then f (err e, s) = (err e, s)

  infixl 5 ◌>>=◌ ◌>>◌
  -- shut, so that a rule for it applies to a call
  unfoldable pub ◌>>=◌ : Exec E S A → (A → Exec E S B) → Exec E S B
  ◌>>=◌ m f s = and_then f (m s)

  abbrev pub ◌>>◌ : Exec E S A → Exec E S B → Exec E S B
  m >> n = m >>= λ _. n

-- `for x in xs: body(x)`, over an accumulator of the variables that the body assigns.
unfoldable pub for_each : {E S A B : Type 0} → (A → B → Exec E S B) → List A → B → Exec E S B
for_each body [] acc = pure acc
for_each body (x ∷ xs) acc = body x acc >>= λ acc'. for_each body xs acc'

-- One round of the loop.
pub for_each-cons :
    {E S A B : Type 0} (body : A → B → Exec E S B) (x : A) (xs : List A) (acc acc' : B) (s s' : S)
    {r : Result E B × S}
    → body x acc s ≡ (ok acc', s')
    → for_each body xs acc' s' ≡ r
    → for_each body (x ∷ xs) acc s ≡ r
unfolding for_each ◌>>=◌
for_each-cons body x xs acc acc' s s' h k = rw h k
