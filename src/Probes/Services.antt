-- ===== src/Probes/Services.antt =====
-- The readiness of the two services, as their `main.py` gives it to the server.
use sentinel_chain.Base.{String, ◌≡◌, refl, sym, ◌↔◌, inl, inr, Bool, true}
use sentinel_chain.Base.Result.{Result, ok, err}
use sentinel_chain.Base.Runtime.{Runtime}
use sentinel_chain.Probes.{Reply, do_get}
use sentinel_chain.Probes.Answers.{do_get-Fits, live≢ready}
use sentinel_chain.Usgs.System.{Raised, System}
use sentinel_chain.Usgs.Poller.{PollStats, poll_once}
use sentinel_chain.Usgs.Main.{Service, started, poll_round, wait, is_caught, ready_after}
use sentinel_chain.Simulator.Connection.{Sqlalchemy, select_one, succeeded, ping}

-- `lambda: state["ready"]`
abbrev pub usgs_probe :
    {R : Runtime} {X : Type 0} (sys : System R X) → Service sys → Bool × Service sys
usgs_probe sys service = (service.is_ready, service)

-- `lambda: ping(engine)`
abbrev pub simulator_probe :
    {X : Type 0} (sqlalchemy : Sqlalchemy X) → sqlalchemy.Engine → Bool × sqlalchemy.Engine
simulator_probe sqlalchemy = ping sqlalchemy

-- The answers of the two servers.
abbrev pub usgs_get :
    {R : Runtime} {X : Type 0} (sys : System R X) → String → Service sys → Reply × Service sys
usgs_get sys = do_get (usgs_probe sys)

abbrev pub simulator_get :
    {X : Type 0} (sqlalchemy : Sqlalchemy X)
    → String
    → sqlalchemy.Engine
    → Reply × sqlalchemy.Engine
simulator_get sqlalchemy = do_get (simulator_probe sqlalchemy)

-- What a call that may raise did.
abbrev pub Returned : {E A : Type 0} → Result E A → Type 0
Returned {A = A} r = (a : A) × (r ≡ ok a)

pub Returned-ready_after :
    {R : Runtime} {X : Type 0} (sys : System R X) (r : Result (Raised R X) PollStats)
    (before : Bool)
    → is_caught sys r ≡ true
    → (ready_after sys r before ≡ true) ↔ Returned r
Returned-ready_after sys (ok stats) before h = (λ k. (stats, refl), λ k. refl)
Returned-ready_after sys (err e) before h = (λ k. absurd (cc (rw h at k)), λ k. absurd (cc (k.1)))

pub Returned-succeeded :
    {X : Type 0} (sqlalchemy : Sqlalchemy X) (r : Result X (Unit {0}))
    → (succeeded sqlalchemy r ≡ true) ↔ Returned r
Returned-succeeded sqlalchemy (ok u) = (λ h. (u, refl), λ h. refl)
Returned-succeeded sqlalchemy (err x) = (λ h. absurd (cc h), λ h. absurd (cc (h.1)))

-- An answer 200 on the readiness path.
abbrev pub IsReady : {W : Type 0} → (W → Bool × W) → W → Type 0
IsReady is_ready w = (do_get is_ready "/health/ready" w).0.code ≡ 200

IsReady-probe :
    {W : Type 0} (is_ready : W → Bool × W) (w : W) → IsReady is_ready w ↔ ((is_ready w).0 ≡ true)
IsReady-probe is_ready w =
    let fits = (do_get-Fits is_ready "/health/ready" w).1.0 in
    (
      λ h. elim (fits.0 h) [ inl e ↦ absurd (live≢ready (sym e)) | inr k ↦ k.1 ],
      λ h. fits.1 (inr (refl, h)),
    )

both : {A B C : Type 0} → A ↔ B → B ↔ C → A ↔ C
both h k = (λ a. k.0 (h.0 a), λ c. h.1 (k.1 c))

module _ {R : Runtime} {X : Type 0} (sys : System R X) (sqlalchemy : Sqlalchemy X) where
  -- The ingestion service answers 503 on its readiness path before its first poll; after a poll
  -- that returned or raised an `Exception`, and a wait, it answers 200 exactly if that poll
  -- returned. The simulator answers 200 exactly if it could connect, execute its query and close
  -- the connection.
  pub IsReady-Returned :
      (env : sys.Env) (store : sys.store.State) (service : Service sys) (pass : sys.Env → sys.Env)
      (engine : sqlalchemy.Engine)
      → is_caught sys (poll_once sys service.poll).0 ≡ true
      → ((usgs_get sys "/health/ready" (started sys env store)).0.code ≡ 503)
        × ((((usgs_get sys "/health/ready" (wait sys pass (poll_round sys service))).0.code ≡ 200)
              ↔ Returned (poll_once sys service.poll).0)
            × (((simulator_get sqlalchemy "/health/ready" engine).0.code ≡ 200)
                ↔ Returned (select_one sqlalchemy engine).0))
  unfolding poll_round ping
  IsReady-Returned env store service pass engine caught = (
    (do_get-Fits (usgs_probe sys) "/health/ready" (started sys env store)).1.1.0.1 (refl, refl),
    (
      both (IsReady-probe (usgs_probe sys) (wait sys pass (poll_round sys service)))
          (Returned-ready_after sys (poll_once sys service.poll).0 service.is_ready caught),
      both (IsReady-probe (simulator_probe sqlalchemy) engine)
          (Returned-succeeded sqlalchemy (select_one sqlalchemy engine).0),
    ),
  )
