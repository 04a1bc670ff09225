-- ===== src/Resilience/Operation/Parts.antt =====
-- When two operations have one id.
use Prim.Native.Char.{Char, code}
use Prim.Native.String.{◌++◌, ◌∷◌ as letter_then, [] as no_letters}
use text.Mathlib.TextLemmas.{
  nil-append, cons-append, head-eq_of_cons-eq, tail-eq_of_cons-eq, nil≢cons,
}
use sentinel_chain.Base.{String, ◌≡◌, ◌≢◌, refl, sym, ap, ◌∙◌, List, [], ◌∷◌, All}
use sentinel_chain.Resilience.Operation.{join_parts, operation_id}

-- A text without the separator, whose code is 124.
abbrev pub IsPart : String → Type 0
IsPart no_letters = Unit
IsPart (letter_then c s) = (code c ≢ 124) × IsPart s

abbrev bar_letter : Char
bar_letter = "|"

bar : (u : String) → "|" ++ u ≡ letter_then bar_letter u
bar u = cons-append bar_letter no_letters u ∙ ap (letter_then bar_letter) (nil-append u)

-- What follows an empty part, and one that begins with a letter.
after_empty : (u : String) → "" ++ ("|" ++ u) ≡ letter_then bar_letter u
after_empty u = nil-append ("|" ++ u) ∙ bar u

after_letter :
    (d : Char) (t u : String) → letter_then d t ++ ("|" ++ u) ≡ letter_then d (t ++ ("|" ++ u))
after_letter d t u = cons-append d t ("|" ++ u)

IsPart-bar : (c : Char) → code c ≢ 124 → c ≢ bar_letter
IsPart-bar c h e = h (ap code e)

no_bar_inside : (s t u : String) → IsPart s → s ≢ t ++ ("|" ++ u)
no_bar_inside no_letters no_letters u h e = nil≢cons (e ∙ after_empty u)
no_bar_inside no_letters (letter_then d t) u h e = nil≢cons (e ∙ after_letter d t u)
no_bar_inside (letter_then c s) no_letters u h e =
    IsPart-bar c h.0 (head-eq_of_cons-eq (e ∙ after_empty u))
no_bar_inside (letter_then c s) (letter_then d t) u h e =
    no_bar_inside s t u h.1 (tail-eq_of_cons-eq (e ∙ after_letter d t u))

-- The first part of a joined text, and the rest, are the only ones.
first_part :
    (s t u v : String) → IsPart s → IsPart t → s ++ ("|" ++ u) ≡ t ++ ("|" ++ v) → (s ≡ t) × (u ≡ v)
first_part no_letters no_letters u v hs ht e =
    (refl, tail-eq_of_cons-eq (sym (after_empty u) ∙ e ∙ after_empty v))
first_part no_letters (letter_then d t) u v hs ht e =
    absurd
      (IsPart-bar d ht.0 (sym (head-eq_of_cons-eq (sym (after_empty u) ∙ e ∙ after_letter d t v))))
first_part (letter_then c s) no_letters u v hs ht e =
    absurd (IsPart-bar c hs.0 (head-eq_of_cons-eq (sym (after_letter c s u) ∙ e ∙ after_empty v)))
first_part (letter_then c s) (letter_then d t) u v hs ht e =
    let whole = sym (after_letter c s u) ∙ e ∙ after_letter d t v in
    let same = head-eq_of_cons-eq whole in
    let rest = first_part s t u v hs.1 ht.1 (tail-eq_of_cons-eq whole) in
    (λ i. letter_then (same i) (rest.0 i), rest.1)

-- Parts that are joined with another text, or stand alone.
joined-parts :
    (s t : String) (ss ts : List String)
    → All IsPart (s ∷ ss)
    → All IsPart (t ∷ ts)
    → join_parts (s ∷ ss) ≡ join_parts (t ∷ ts)
    → ◌≡◌ {A = List String} (s ∷ ss) (t ∷ ts)
joined-parts s t [] [] hs ht e = ap (λ x. x ∷ []) e
joined-parts s t [] (t2 ∷ ts) hs ht e = absurd (no_bar_inside s t (join_parts (t2 ∷ ts)) hs.0 e)
joined-parts s t (s2 ∷ ss) [] hs ht e =
    absurd (no_bar_inside t s (join_parts (s2 ∷ ss)) ht.0 (sym e))
joined-parts s t (s2 ∷ ss) (t2 ∷ ts) hs ht e =
    let parts = first_part s t (join_parts (s2 ∷ ss)) (join_parts (t2 ∷ ts)) hs.0 ht.0 e in
    let rest = joined-parts s2 t2 ss ts hs.1 ht.1 parts.1 in λ i. parts.0 i ∷ rest i

-- Where the digest tells the two joined texts apart: two operations with one id, each of at least
-- one part, and whose parts do not contain the separator `|`, have the same parts.
pub operation_id-parts :
    (sha256 : String → String) (s t : String) (ss ts : List String)
    → (sha256 (join_parts (s ∷ ss)) ≡ sha256 (join_parts (t ∷ ts))
        → join_parts (s ∷ ss) ≡ join_parts (t ∷ ts))
    → All IsPart (s ∷ ss)
    → All IsPart (t ∷ ts)
    → operation_id sha256 (s ∷ ss) ≡ operation_id sha256 (t ∷ ts)
    → ◌≡◌ {A = List String} (s ∷ ss) (t ∷ ts)
unfolding operation_id
operation_id-parts sha256 s t ss ts apart hs ht same = joined-parts s t ss ts hs ht (apart same)
