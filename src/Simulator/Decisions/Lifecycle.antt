-- ===== src/Simulator/Decisions/Lifecycle.antt =====
-- The lifecycle of a shipment's status.
use sentinel_chain.Base.{
  ℕ, zero, suc, ◌+◌, String, str_eq, eq_iff, ◌≡◌, ◌≢◌, ◌⊎◌, inl, inr, refl, true, none, some, arith,
  if◌then◌else◌, Bool-cases, Option-cases, ap,
}
use mathlib.Core.Path.{subst}
use sentinel_chain.Base.Runtime.{Runtime}
use sentinel_chain.Simulator.Decisions.{Random, next_status, advance_status}

none≢some : {A : Type 0} {a : A} → none ≢ some a
none≢some h = cc

some_inj : {A : Type 0} {a b : A} → some a ≡ some b → a ≡ b
some_inj h = cc

-- How many steps of the flow a status has before it.
unfoldable pub steps_left : String → ℕ
steps_left status =
    if str_eq "created" status
    then 4
    else if str_eq "in_transit" status
    then 3
    else if str_eq "customs" status
    then 2
    else if str_eq "out_for_delivery" status
    then 1
    else 0

-- A literal next status of a status with one step more.
step_to :
    (status next target : String)
    → some target ≡ some next
    → steps_left status ≡ suc (steps_left target)
    → steps_left status ≡ suc (steps_left next)
step_to status next target same h =
    subst (λ n. steps_left status ≡ suc (steps_left n)) (some_inj same) h

-- The next status has one step less.
steps_left-next_status :
    (status next : String)
    → next_status status ≡ some next
    → steps_left status ≡ suc (steps_left next)
unfolding next_status steps_left
steps_left-next_status status next h = elim (Bool-cases (str_eq "created" status)) [
  | inl e ↦ step_to status next "in_transit" (rw e at h) (rw e refl)
  | inr e₁ ↦ elim (Bool-cases (str_eq "in_transit" status)) [
    | inl e ↦ step_to status next "customs" (rw (e₁, e) at h) (rw (e₁, e) refl)
    | inr e₂ ↦ elim (Bool-cases (str_eq "customs" status)) [
      | inl e ↦ step_to status next "out_for_delivery" (rw (e₁, e₂, e) at h) (rw (e₁, e₂, e) refl)
      | inr e₃ ↦ elim (Bool-cases (str_eq "out_for_delivery" status)) [
        | inl e ↦
            step_to status next "delivered" (rw (e₁, e₂, e₃, e) at h) (rw (e₁, e₂, e₃, e) refl)
        | inr e₄ ↦ elim (Bool-cases (str_eq "delivered" status)) [
          | inl e ↦ absurd (none≢some (rw (e₁, e₂, e₃, e₄, e) at h))
          | inr e ↦ absurd (none≢some (rw (e₁, e₂, e₃, e₄, e) at h))
        ]
      ]
    ]
  ]
]

module _ {R : Runtime} (rnd : Random R) (probability : R.Float) where
  -- An advance stays, or goes to the next status.
  advance-cases :
      (status : String) (rng : rnd.Rng)
      → ((advance_status rnd status probability rng).0 ≡ status)
        ⊎ (next_status status ≡ some (advance_status rnd status probability rng).0)
  unfolding advance_status
  advance-cases status rng = elim (Option-cases (next_status status)) [
    | inl terminal ↦ inl (rw terminal)
    | inr (next, e) ↦ elim (Bool-cases (R.ltb_f (rnd.random rng).0 probability)) [
      | inl go ↦ inr (rw (e, go))
      | inr stay ↦ inl (rw (e, stay))
    ]
  ]

  -- `n` advances: the last status, how many of them changed it, and the generator.
  unfoldable pub advances : ℕ → String → rnd.Rng → String × ℕ × rnd.Rng
  advances zero status rng = (status, 0, rng)
  advances (suc n) status rng =
      let (status', rng') = advance_status rnd status probability rng in
      let (final, changes, rng'') = advances n status' rng' in
      (final, if str_eq status' status then changes else suc changes, rng'')

  -- However often a shipment is advanced, each change takes exactly one step of the flow: the
  -- number of changes and the steps that the last status has before it are together the steps
  -- that the first had. So no status changes more than four times, and a delivered, cancelled or
  -- unknown one never does.
  pub advances-steps_left :
      (n : ℕ) (status : String) (rng : rnd.Rng)
      → let (final, changes, rng') = advances n status rng in
        changes + steps_left final ≡ steps_left status
  unfolding advances
  advances-steps_left zero status rng = omega arith
  advances-steps_left (suc n) status rng =
      let (status', rng') = advance_status rnd status probability rng in
      step n status status' rng' (advance-cases status rng) (advances-steps_left n status' rng')
    where
      step :
          (n : ℕ) (status status' : String) (rng' : rnd.Rng)
          → (status' ≡ status) ⊎ (next_status status ≡ some status')
          → (advances n status' rng').1 + steps_left (advances n status' rng').0
            ≡ steps_left status'
          → (if str_eq status' status
                then (advances n status' rng').1
                else suc (advances n status' rng').1)
              + steps_left (advances n status' rng').0
            ≡ steps_left status
      step n status status' rng' (inl same) ih =
          let e : str_eq status' status ≡ true = (eq_iff status' status).1 same in
          let steps : steps_left status' ≡ steps_left status = ap steps_left same in
          rw e omega arith
      step n status status' rng' (inr next) ih =
          let steps : steps_left status ≡ suc (steps_left status') =
            steps_left-next_status status status' next in
          elim (Bool-cases (str_eq status' status)) [
            | inl e ↦
                let same : steps_left status' ≡ steps_left status =
                  ap steps_left ((eq_iff status' status).0 e) in
                absurd omega arith
            | inr e ↦ rw e omega arith
          ]
