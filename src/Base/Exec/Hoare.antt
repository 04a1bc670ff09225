-- ===== src/Base/Exec/Hoare.antt =====
-- Hoare triples for such code, with a postcondition for each way to end.
use mathlib.Core.Bool.{Bool, true, false}
use mathlib.Core.List.{List, [], ◌∷◌}
use sentinel_chain.Base.Tests.{if◌then◌else◌}
use sentinel_chain.Base.Result.{Result, ok, err}
use sentinel_chain.Base.Exec.{Exec, pure, raise, lift, and_then, ◌>>=◌, for_each}

-- What holds at the end of a run: `Q` after a return, `X` after a raise.
abbrev pub Holds : {E S A : Type 0} → (A → S → Type 0) → (S → Type 0) → Result E A × S → Type 0
Holds Q X (ok a, s) = Q a s
Holds Q X (err e, s) = X s

pub record Triple {E S A : Type 0} (P : S → Type 0) (m : Exec E S A) (Q : A → S → Type 0)
    (X : S → Type 0) : Type 0 where
  pub at : (s : S) → P s → Holds Q X (m s)

module _ {E S : Type 0} {X : S → Type 0} where
  pub Triple-pure :
      {A : Type 0} {P : S → Type 0} {Q : A → S → Type 0} (a : A)
      → ((s : S) → P s → Q a s)
      → Triple {E = E} P (pure a) Q X
  Triple-pure a h = record { at = h }

  pub Triple-bind :
      {A B : Type 0} {P : S → Type 0} {Q : A → S → Type 0} {Z : B → S → Type 0} (m : Exec E S A)
      (f : A → Exec E S B)
      → Triple P m Q X
      → ((a : A) → Triple (Q a) (f a) Z X)
      → Triple P (m >>= f) Z X
  unfolding ◌>>=◌
  Triple-bind {Q = Q} {Z = Z} m f hm hf = record { at = λ s p. go (m s) (hm.at s p) }
    where
      go : (r : Result E _ × S) → Holds Q X r → Holds Z X (and_then f r)
      go (ok a, s) q = (hf a).at s q
      go (err e, s) x = x

  pub Triple-for_each :
      {A B : Type 0} (Inv : List A → B → S → Type 0) (body : A → B → Exec E S B)
      → ((x : A) (xs : List A) (acc : B) → Triple (Inv (x ∷ xs) acc) (body x acc) (Inv xs) X)
      → (xs : List A) (acc : B) → Triple (Inv xs acc) (for_each body xs acc) (Inv []) X
  unfolding for_each
  Triple-for_each Inv body step [] acc = record { at = λ s h. h }
  Triple-for_each Inv body step (x ∷ xs) acc =
      Triple-bind (body x acc) (λ acc'. for_each body xs acc') (step x xs acc)
        (λ acc'. Triple-for_each Inv body step xs acc')

-- A step that a fact about no state survives, whatever it does.
module _ {E S A B : Type 0} {C : Type 0} {Q : B → S → Type 0} where
  pub Triple-skip :
      (m : Exec E S A) (f : A → Exec E S B)
      → ((a : A) → Triple (λ s. C) (f a) Q (λ s. Unit))
      → Triple (λ s. C) (m >>= f) Q (λ s. Unit)
  unfolding ◌>>=◌
  Triple-skip m f hf = record { at = λ s c. go (m s) c }
    where
      go : (r : Result E A × S) → C → Holds Q (λ s. Unit) (and_then f r)
      go (ok a, s) c = (hf a).at s c
      go (err e, s) c = tt

-- `m` keeps an invariant, whether it returns or raises.
abbrev pub Keeps : {E S A : Type 0} → (S → Type 0) → Exec E S A → Type 0
Keeps Inv m = Triple Inv m (λ a. Inv) Inv

module _ {E S A : Type 0} {Inv : S → Type 0} where
  pub Keeps-of : (m : Exec E S A) → ((s : S) → Inv s → Inv (m s).1) → Keeps Inv m
  Keeps-of m h = record { at = λ s p. go (m s) (h s p) }
    where
      go : (r : Result E A × S) → Inv r.1 → Holds (λ a. Inv) Inv r
      go (ok a, s) p = p
      go (err e, s) p = p

  pub Keeps-at : {m : Exec E S A} → Keeps Inv m → (s : S) → Inv s → Inv (m s).1
  Keeps-at {m} k s p = go (m s) (k.at s p)
    where
      go : (r : Result E A × S) → Holds (λ a. Inv) Inv r → Inv r.1
      go (ok a, s) p = p
      go (err e, s) p = p

  pub Keeps-if :
      (b : Bool) (m n : Exec E S A) → Keeps Inv m → Keeps Inv n → Keeps Inv (if b then m else n)
  Keeps-if true m n km kn = km
  Keeps-if false m n km kn = kn

pub Triple-if :
    {E S A : Type 0} {P : S → Type 0} {Q : A → S → Type 0} {X : S → Type 0} (b : Bool)
    (m n : Exec E S A)
    → Triple P m Q X
    → Triple P n Q X
    → Triple P (if b then m else n) Q X
Triple-if true m n hm hn = hm
Triple-if false m n hm hn = hn

pub Triple-return :
    {E S A : Type 0} {C : Type 0} {Q : A → Type 0} {X : S → Type 0} (a : A)
    → (C → Q a)
    → Triple {E = E} (λ (s : S). C) (pure a) (λ a' s. Q a') X
Triple-return a h = record { at = λ s c. h c }

pub Triple-pre :
    {E S A : Type 0} {C D : Type 0} {Q : A → S → Type 0} {X : S → Type 0} {m : Exec E S A}
    → (C → D)
    → Triple (λ s. D) m Q X
    → Triple (λ s. C) m Q X
Triple-pre h t = record { at = λ s c. t.at s (h c) }

pub Triple-raise :
    {E S A : Type 0} {P : S → Type 0} {Q : A → S → Type 0} {e : E}
    → Triple P (raise e) Q (λ s. Unit)
Triple-raise = record { at = λ s p. tt }

-- The rules of `Keeps` for the ways to build such code.
module _ {E S : Type 0} {Inv : S → Type 0} where
  pub Keeps-bind :
      {A B : Type 0} (m : Exec E S A) (f : A → Exec E S B)
      → Keeps Inv m
      → ((a : A) → Keeps Inv (f a))
      → Keeps Inv (m >>= f)
  Keeps-bind m f hm hf = Triple-bind m f hm hf

  pub Keeps-pure : {A : Type 0} (a : A) → Keeps {E = E} Inv (pure a)
  Keeps-pure a = record { at = λ s p. p }

  pub Keeps-raise : {A : Type 0} (e : E) → Keeps {A = A} Inv (raise e)
  Keeps-raise e = record { at = λ s p. p }

  pub Keeps-lift : {A : Type 0} (r : Result E A) → Keeps Inv (lift r)
  Keeps-lift r = Keeps-of (lift r) (λ s p. p)

  pub Keeps-for_each :
      {A B : Type 0} (body : A → B → Exec E S B)
      → ((x : A) (acc : B) → Keeps Inv (body x acc))
      → (xs : List A) (acc : B) → Keeps Inv (for_each body xs acc)
  Keeps-for_each body step xs acc =
      Triple-for_each (λ rest acc'. Inv) body (λ x rest acc'. step x acc') xs acc

-- Two facts about a step that may also raise, side by side.
pub Triple-both :
    {E S A : Type 0} {P P' : S → Type 0} {Q Q' : A → S → Type 0} {m : Exec E S A}
    → Triple P m Q (λ s. Unit)
    → Triple P' m Q' (λ s. Unit)
    → Triple (λ s. P s × P' s) m (λ a s. Q a s × Q' a s) (λ s. Unit)
Triple-both {E} {S} {A} {P} {P'} {Q} {Q'} {m} t u = record {
  at = λ s h. go (m s) (t.at s h.0) (u.at s h.1);
}
  where
    go :
        (r : Result E A × S)
        → Holds Q (λ s. Unit) r
        → Holds Q' (λ s. Unit) r
        → Holds (λ a s. Q a s × Q' a s) (λ s. Unit) r
    go (ok a, s) h k = (h, k)
    go (err e, s) h k = tt

pub Keeps-Triple :
    {E S A : Type 0} {Inv : S → Type 0} {m : Exec E S A}
    → Keeps Inv m
    → Triple Inv m (λ a. Inv) (λ s. Unit)
Keeps-Triple {E} {S} {A} {Inv} {m} k = record { at = λ s h. go (m s) (k.at s h) }
  where
    go : (r : Result E A × S) → Holds (λ a. Inv) Inv r → Holds (λ a. Inv) (λ s. Unit) r
    go (ok a, s) h = h
    go (err e, s) h = tt

-- A step after which a fact follows from the one before.
pub Triple-weaken :
    {E S A : Type 0} {P P' : S → Type 0} {Q Q' : A → S → Type 0} {m : Exec E S A}
    → ((s : S) → P' s → P s)
    → ((a : A) (s : S) → Q a s → Q' a s)
    → Triple P m Q (λ s. Unit)
    → Triple P' m Q' (λ s. Unit)
Triple-weaken {E} {S} {A} {P} {P'} {Q} {Q'} {m} f g t = record {
  at = λ s h. go (m s) (t.at s (f s h));
}
  where
    go : (r : Result E A × S) → Holds Q (λ s. Unit) r → Holds Q' (λ s. Unit) r
    go (ok a, s) h = g a s h
    go (err e, s) h = tt
