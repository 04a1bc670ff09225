-- ===== src/Probes/Answers.antt =====
-- The answers of a health server.
use Prim.Native.String.{len}
use sentinel_chain.Base.{
  ℕ, String, str_eq, eq_iff, ◌≡◌, sym, ◌∙◌, ◌≢◌, ◌⊎◌, ◌↔◌, inl, inr, refl, Bool, Bool-cases, true,
  false, if◌then◌else◌, arith,
}
use sentinel_chain.Probes.{Reply, do_get}

-- When a server answers 200.
abbrev pub IsFine : {W : Type 0} → (W → Bool × W) → String → W → Type 0
IsFine is_ready path w =
    (path ≡ "/health/live") ⊎ ((path ≡ "/health/ready") × ((is_ready w).0 ≡ true))

-- What the answer is on each path.
abbrev ready_code : Bool → ℕ
ready_code b = if b then 200 else 503

fine≢down : ◌≢◌ {A = ℕ} 200 503
fine≢down h = omega arith

fine≢missing : ◌≢◌ {A = ℕ} 404 200
fine≢missing h = omega arith

down≢missing : ◌≢◌ {A = ℕ} 404 503
down≢missing h = omega arith

ready_code-200 : (b : Bool) → (ready_code b ≡ 200) ↔ (b ≡ true)
ready_code-200 true = (λ h. refl, λ h. refl)
ready_code-200 false = (λ h. absurd (fine≢down (sym h)), λ h. absurd (cc h))

ready_code-503 : (b : Bool) → (ready_code b ≡ 503) ↔ (b ≡ false)
ready_code-503 true = (λ h. absurd (fine≢down h), λ h. absurd (cc h))
ready_code-503 false = (λ h. refl, λ h. refl)

pub live≢ready : ◌≢◌ {A = String} "/health/live" "/health/ready"
live≢ready e = cc

module _ {W : Type 0} (is_ready : W → Bool × W) where
  -- What the theorem says of an answer.
  abbrev pub Fits : String → W → Reply × W → Type 0
  Fits path w (reply, w') =
      (reply.content_length ≡ len reply.body)
      × (((reply.code ≡ 200) ↔ IsFine is_ready path w)
          × (((reply.code ≡ 503) ↔ ((path ≡ "/health/ready") × ((is_ready w).0 ≡ false)))
              × (path ≢ "/health/ready" → w' ≡ w)))

  -- For every path and world: the answer has the byte length of its body; its code is 200 exactly on
  -- the liveness path, and on the readiness path when the probe says so, and it is 503 exactly on
  -- the readiness path when the probe does not; and only the readiness path runs the probe.
  pub do_get-Fits : (path : String) (w : W) → Fits path w (do_get is_ready path w)
  unfolding do_get
  do_get-Fits path w = elim (Bool-cases (str_eq path "/health/live")) [
    | inl live ↦
        let at : path ≡ "/health/live" = (eq_iff path "/health/live").0 live in
        rw live (
          refl,
          (
            (λ h. inl at, λ h. refl),
            ((λ h. absurd (fine≢down h), λ h. absurd (live≢ready (sym at ∙ h.0))), λ h. refl),
          ),
        )
    | inr other ↦
        let no_live : path ≢ "/health/live" =
          λ e. absurd (cc ((eq_iff path "/health/live").1 e, other)) in
        elim (Bool-cases (str_eq path "/health/ready")) [
          | inl ready ↦
              let at : path ≡ "/health/ready" = (eq_iff path "/health/ready").0 ready in
              let fine = ready_code-200 (is_ready w).0 in
              let poor = ready_code-503 (is_ready w).0 in
              rw (other, ready)
                (
                  refl,
                  (
                    (
                      λ h. inr (at, fine.0 h),
                      λ h. elim h [ inl e ↦ absurd (no_live e) | inr k ↦ fine.1 k.1 ],
                    ),
                    ((λ h. (at, poor.0 h), λ h. poor.1 h.1), λ h. absurd (h at)),
                  ),
                )
          | inr neither ↦
              let no_ready : path ≢ "/health/ready" =
                λ e. absurd (cc ((eq_iff path "/health/ready").1 e, neither)) in
              rw (other, neither)
                (
                  refl,
                  (
                    (
                      λ h. absurd (fine≢missing h),
                      λ h. elim h [ inl e ↦ absurd (no_live e) | inr k ↦ absurd (no_ready k.0) ],
                    ),
                    ((λ h. absurd (down≢missing h), λ h. absurd (no_ready h.0)), λ h. refl),
                  ),
                )
        ]
  ]
