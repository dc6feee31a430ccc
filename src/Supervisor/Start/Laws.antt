-- ===== src/Supervisor/Start/Laws.antt =====
-- Starting: what is tracked afterwards.
use voya_vpn.Base.{
  ◌+◌, ◌%◌, ◌^◌, ◌≡◌, sym, subst, refl, ◌⊎◌, inl, inr, Option, none, some, Bool-cases,
}
use voya_vpn.Platform.Tun.{TunBackend, is_native}
use voya_vpn.Supervisor.State.{
  CoreProcessSpec, SupervisorStartRequest, SupervisorSnapshot, SupervisorError, disconnected,
  supervisor_tun_backend, native_tun,
}
use voya_vpn.Supervisor.Monad.{
  Result, ok, err, SupervisorDeps, Actor, ◌>>=◌, return, check, ask, put_running, get_running,
  started_native,
}
use voya_vpn.Supervisor.Monad.After.{
  After, Same, >>=-After, Keeps, ask-Keeps, check-Keeps, keeps_rules,
}
use voya_vpn.Supervisor.Forms.{IsIdle, Started}
use voya_vpn.Supervisor.Stop.{stop}
use voya_vpn.Supervisor.Stop.Laws.{stop-cases}
use voya_vpn.Supervisor.Start.{
  pre_config_path, native_tun_start_request, next_generation, track_native_tun, start_native_tun,
  start_with, start,
}
use voya_vpn.Supervisor.Start.Processes.{Ends, idle_bind, start_processes-Ends}

module _ (deps : SupervisorDeps) (request : SupervisorStartRequest) where
  pre_config_path-Keeps : (pre : Option CoreProcessSpec) → Keeps (pre_config_path deps pre)
  unfolding pre_config_path
  pre_config_path-Keeps none = search keeps_rules
  pre_config_path-Keeps (some spec) = search keeps_rules

  native_tun_start_request-Keeps :
      (backend : TunBackend) → Keeps (native_tun_start_request deps request backend)
  unfolding native_tun_start_request
  native_tun_start_request-Keeps backend = search (keeps_rules, pre_config_path-Keeps)

  track_native_tun-Ends :
      (backend : TunBackend) (t : Actor)
      → IsIdle t
      → Ends request (track_native_tun deps request backend t)
  unfolding track_native_tun ◌>>=◌ next_generation put_running get_running return ask
  track_native_tun-Ends backend t j = (
    refl,
    record {
      last = refl;
      profile = refl;
      core_type = refl;
      form = inr (record {
        tun = record { backend = backend; generation = (t.native_tun_generation + 1) % 2 ^ 64 };
        has_tun = refl;
        present = refl;
        no_main = refl;
        no_pre = refl;
        none_elevated = refl;
      });
    },
  )

  start_native_tun-Ends :
      (backend : TunBackend) (actor : Actor)
      → IsIdle actor
      → Ends request (start_native_tun deps request backend actor)
  unfolding start_native_tun
  start_native_tun-Ends backend actor h =
      idle_bind deps request (native_tun_start_request deps request backend) _ actor
        (native_tun_start_request-Keeps backend) h
        λ native_request s i.
          idle_bind deps request
            (ask (λ log. deps.start_native log native_request) (started_native native_request)) _ s
            (ask-Keeps _ _) i
            λ answer s' i'.
              idle_bind deps request (check answer native_tun) _ s' (check-Keeps answer native_tun)
                i' λ u t j. track_native_tun-Ends backend t j

  pub start_with-Ends :
      (backend : TunBackend) (actor : Actor)
      → IsIdle actor
      → Ends request (start_with deps request backend actor)
  unfolding start_with
  start_with-Ends backend actor h = elim (Bool-cases (is_native backend)) [
    | inl e ↦ rw e (start_native_tun-Ends backend actor h)
    | inr e ↦ rw e (start_processes-Ends deps request actor h)
  ]

  -- How a start fails: what ran before was stopped, and nothing is tracked; or it could not be stopped,
  -- and is tracked as before.
  abbrev pub Failed : Actor → SupervisorError → Actor → Type 0
  Failed actor e t =
      (((stop deps actor).0 ≡ ok disconnected) × IsIdle t)
      ⊎ (((stop deps actor).0 ≡ err e) × Same actor t)

  -- A start ends in one of three ways. What ran before is stopped, and a core runs for the request, by
  -- the snapshot that is returned; or it is stopped, and the start fails and nothing is tracked; or
  -- the stop fails, and the start fails with its error and what ran before is tracked as before,
  -- with the generation of the native tunnel.
  pub start_lem :
      (actor : Actor)
      → After
          (λ s t. ((stop deps actor).0 ≡ ok disconnected) × Started request s t)
          (Failed actor)
          (start deps request actor).0
          (start deps request actor).1
  unfolding start
  start_lem actor =
      >>=-After (λ u s. Stopped × IsIdle s) (λ s t. Stopped × Started request s t) (Failed actor)
        (stop deps) _ actor stopped_first
        λ u s i.
          let run =
            start_with deps request (supervisor_tun_backend deps.target_os request.tun_enabled) s in
          ended i.0 run.0 run.1
            (start_with-Ends (supervisor_tun_backend deps.target_os request.tun_enabled) s i.1)
    where
      Stopped : Type 0
      Stopped = (stop deps actor).0 ≡ ok disconnected

      ended :
          Stopped
          → (r : Result SupervisorSnapshot) (t : Actor)
          → After (Started request) (λ e t. IsIdle t) r t
          → After (λ s t. Stopped × Started request s t) (Failed actor) r t
      ended done (ok s) t h = (done, h)
      ended done (err e) t h = inl (done, h)

      stopped_first :
          After (λ u s. Stopped × IsIdle s) (Failed actor) (stop deps actor).0 (stop deps actor).1
      stopped_first = elim (stop-cases deps actor).0 [
        | inl (done, idle) ↦
            subst (λ r. After (λ u s. Stopped × IsIdle s) (Failed actor) r (stop deps actor).1)
              (sym done) (done, idle)
        | inr (e, failed, same) ↦
            subst (λ r. After (λ u s. Stopped × IsIdle s) (Failed actor) r (stop deps actor).1)
              (sym failed) (inr (failed, (same, (stop-cases deps actor).1)))
      ]
