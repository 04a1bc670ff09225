-- ===== src/Simulator/Connection/Dsn.antt =====
-- The driver that a DSN names after its rewriting.
use Prim.Native.String.{len, slice, count, ◌++◌}
use text.Mathlib.Text.{starts_with}
use text.Mathlib.TextEquality.{starts_with_iff}
use text.Mathlib.TextLemmas.{append_assoc, append_inj}
use text.Mathlib.TextPositions.{starts_with-append, len-append, slice-append_right}
use sentinel_chain.Base.{
  String, ◌≡◌, ◌≢◌, refl, sym, ap, ◌∙◌, Bool-cases, true, false, inl, inr, ◌⊎◌,
}
use sentinel_chain.Simulator.Connection.{from, to_sqlalchemy_url}

-- A text with the driver begins with the dialect's `+`.
with_driver : (rest : String) → starts_with ("postgresql+psycopg://" ++ rest) "postgresql+" ≡ true
with_driver rest =
    ap (λ s. starts_with s "postgresql+") (append_assoc "postgresql+" "psycopg://" rest)
    ∙ starts_with-append "postgresql+" ("psycopg://" ++ rest)

-- A text begins with one of two beginnings of the same length.
one_beginning :
    (a b x y s : String)
    → count a ≡ count b
    → a ≢ b
    → starts_with s (a ++ x) ≡ true
    → starts_with s (b ++ y) ≡ false
one_beginning a b x y s same differ h = elim (Bool-cases (starts_with s (b ++ y))) [
  | inr not_so ↦ not_so
  | inl begins ↦
      let (u, p) = (starts_with_iff s (a ++ x)).0 h in
      let (v, q) = (starts_with_iff s (b ++ y)).0 begins in
      absurd
        (differ (append_inj (sym (append_assoc a x u) ∙ p ∙ sym q ∙ append_assoc b y v) same).0)
]

-- The beginnings that the function tells apart.
driver_or_bare :
    (s : String) → starts_with s "postgresql+" ≡ true → starts_with s "postgresql://" ≡ false
driver_or_bare s h = one_beginning "postgresql+" "postgresql:" "" "//" s refl (λ e. cc e) h

driver_or_short :
    (s : String) → starts_with s "postgresql+" ≡ true → starts_with s "postgres://" ≡ false
driver_or_short s h = one_beginning "postgresq" "postgres:" "l+" "//" s refl (λ e. cc e) h

bare_or_driver :
    (s : String) → starts_with s "postgresql://" ≡ true → starts_with s "postgresql+" ≡ false
bare_or_driver s h = one_beginning "postgresql:" "postgresql+" "//" "" s refl (λ e. cc e) h

short_or_driver :
    (s : String) → starts_with s "postgres://" ≡ true → starts_with s "postgresql+" ≡ false
short_or_driver s h = one_beginning "postgres:" "postgresq" "//" "l+" s refl (λ e. cc e) h

short_or_bare :
    (s : String) → starts_with s "postgres://" ≡ true → starts_with s "postgresql://" ≡ false
short_or_bare s h = one_beginning "postgres:" "postgresq" "//" "l://" s refl (λ e. cc e) h

from-append : (a rest : String) → from (len a) (a ++ rest) ≡ rest
from-append a rest = ap (slice (a ++ rest) (len a)) (len-append a rest) ∙ slice-append_right a rest

-- A DSN that names a dialect without a driver.
abbrev pub IsBare : String → Type 0
IsBare s = (starts_with s "postgresql://" ≡ true) ⊎ (starts_with s "postgres://" ≡ true)

driver-kept : (s : String) → starts_with s "postgresql+" ≡ true → to_sqlalchemy_url s ≡ s
unfolding to_sqlalchemy_url
driver-kept s h = rw h

-- What comes out names a driver, or is a DSN of another kind, unchanged.
outcome :
    (s : String)
    → (starts_with (to_sqlalchemy_url s) "postgresql+" ≡ true)
      ⊎ ((to_sqlalchemy_url s ≡ s)
          × ((starts_with s "postgresql://" ≡ false) × (starts_with s "postgres://" ≡ false)))
unfolding to_sqlalchemy_url
outcome s = elim (Bool-cases (starts_with s "postgresql+")) [
  | inl h ↦ inl (rw h h)
  | inr h ↦ elim (Bool-cases (starts_with s "postgresql://")) [
    | inl k ↦ inl (rw (h, k) (with_driver _))
    | inr k ↦ elim (Bool-cases (starts_with s "postgres://")) [
      | inl l ↦ inl (rw (h, k, l) (with_driver _))
      | inr l ↦ inr (rw (h, k, l), (k, l))
    ]
  ]
]

not-IsBare : (s : String) → ¬ IsBare (to_sqlalchemy_url s)
not-IsBare s bare = elim (outcome s) [
  | inl named ↦ elim bare [
    | inl k ↦ absurd (cc (driver_or_bare (to_sqlalchemy_url s) named, k))
    | inr k ↦ absurd (cc (driver_or_short (to_sqlalchemy_url s) named, k))
  ]
  | inr other ↦ elim bare [
    | inl k ↦ absurd (cc (other.0, other.1.0, k))
    | inr k ↦ absurd (cc (other.0, other.1.1, k))
  ]
]

from_bare :
    (rest : String) → to_sqlalchemy_url ("postgresql://" ++ rest) ≡ "postgresql+psycopg://" ++ rest
unfolding to_sqlalchemy_url
from_bare rest =
    let here = starts_with-append "postgresql://" rest in
    rw (bare_or_driver ("postgresql://" ++ rest) here, here)
      (ap (λ r. "postgresql+psycopg://" ++ r) (from-append "postgresql://" rest))

from_short :
    (rest : String) → to_sqlalchemy_url ("postgres://" ++ rest) ≡ "postgresql+psycopg://" ++ rest
unfolding to_sqlalchemy_url
from_short rest =
    let here = starts_with-append "postgres://" rest in
    rw
      (
        short_or_driver ("postgres://" ++ rest) here,
        short_or_bare ("postgres://" ++ rest) here,
        here,
      )
      (ap (λ r. "postgresql+psycopg://" ++ r) (from-append "postgres://" rest))

-- For every DSN: rewriting it names a driver or leaves it alone, so that no bare DSN of PostgreSQL
-- comes out; rewriting twice is rewriting once; and the two bare schemes, before any rest, become
-- `postgresql+psycopg://` before that rest.
pub to_sqlalchemy_url-driver :
    (s rest : String)
    → (¬ IsBare (to_sqlalchemy_url s))
      × ((to_sqlalchemy_url (to_sqlalchemy_url s) ≡ to_sqlalchemy_url s)
          × ((to_sqlalchemy_url ("postgresql://" ++ rest) ≡ "postgresql+psycopg://" ++ rest)
              × (to_sqlalchemy_url ("postgres://" ++ rest) ≡ "postgresql+psycopg://" ++ rest)))
to_sqlalchemy_url-driver s rest = (
  not-IsBare s,
  (
    elim (outcome s) [
      | inl named ↦ driver-kept (to_sqlalchemy_url s) named
      | inr other ↦ ap to_sqlalchemy_url other.0
    ],
    (from_bare rest, from_short rest),
  ),
)
