-- ===== src/Supervisor/Stop/Laws.antt =====
-- Stopping.
use mathlib.Core.Path.{subst}
use voya_vpn.Base.{
  sym, ℕ, zero, suc, ◌≡◌, refl, ◌⊎◌, inl, inr, List, [], ◌∷◌, Option, none, some, Bool-cases,
}
use voya_vpn.Platform.Process.{
  ProcessHandle, ProcessRole, ProcessSpawn, ProcessOutput, Split, args_of, unterminated_quote,
}
use voya_vpn.Platform.Elevation.{Named, elevate_launcher_path}
use voya_vpn.Supervisor.State.{
  CoreType, CoreProcessSpec, SupervisorStartRequest, RunningCore, RunningNativeTun, SupervisorError,
  empty, disconnected, elevation_not_granted,
}
use voya_vpn.Supervisor.Monad.{
  Result, ok, err, SupervisorDeps, Actor, ◌>>=◌, return, fail, put_running, get_running, attempt,
}
use voya_vpn.Supervisor.Monad.After.{Keeps, Same, keeps_rules, of_option-Keeps, fail-Keeps}
use voya_vpn.Supervisor.Stop.{
  ensure_sudo_kill_success, of_split, of_named, finish, elevation_launcher, spawn_process,
  sudo_kill_request, sudo_kill, stop_native_tun, stop_handle, kill_all, stop_running, after_stop,
  stop,
}

ensure_sudo_kill_success-Keeps :
    (pid : ℕ) (output : ProcessOutput) (code : Option ℕ)
    → Keeps (ensure_sudo_kill_success pid output code)
unfolding ensure_sudo_kill_success
ensure_sudo_kill_success-Keeps pid output (some zero) = search keeps_rules
ensure_sudo_kill_success-Keeps pid output (some (suc n)) = search keeps_rules
ensure_sudo_kill_success-Keeps pid output none = search keeps_rules

of_split-Keeps :
    (role : ProcessRole) (spec : CoreProcessSpec) (s : Split) → Keeps (of_split role spec s)
unfolding of_split
of_split-Keeps role spec (args_of arguments) = search keeps_rules
of_split-Keeps role spec (unterminated_quote c) = search keeps_rules

of_named-Keeps : (n : Named ProcessSpawn) → Keeps (of_named n)
unfolding of_named
of_named-Keeps (Named.ok spawn) = search keeps_rules
of_named-Keeps (Named.err e) = search keeps_rules

finish-Keeps : (e : Option SupervisorError) → Keeps (finish e)
finish-Keeps none = search keeps_rules
finish-Keeps (some e) = search keeps_rules

module _ (deps : SupervisorDeps) where
  elevation_launcher-Keeps : (core_type : CoreType) → Keeps (elevation_launcher deps core_type)
  unfolding elevation_launcher
  elevation_launcher-Keeps core_type = record {
    at = λ actor. elim (Bool-cases (deps.is_granted actor.log)) [
      | inl granted ↦ rw granted (
          (of_option-Keeps (elevate_launcher_path deps.target_os)
              (elevation_not_granted core_type)).at
            actor)
      | inr refused ↦ rw refused ((fail-Keeps (elevation_not_granted core_type)).at actor)
    ];
  }

  pub spawn_process-Keeps :
      (role : ProcessRole) (spec : CoreProcessSpec) (request : SupervisorStartRequest)
      → Keeps (spawn_process deps role spec request)
  unfolding spawn_process
  spawn_process-Keeps role spec request =
      search (keeps_rules, of_split-Keeps, elevation_launcher-Keeps) depth 8

  sudo_kill_request-Keeps :
      (handle : ProcessHandle) (running : RunningCore) (request : SupervisorStartRequest)
      → Keeps (sudo_kill_request deps handle running request)
  unfolding sudo_kill_request
  sudo_kill_request-Keeps handle running request =
      search (keeps_rules, of_named-Keeps, elevation_launcher-Keeps, ensure_sudo_kill_success-Keeps)
        depth 8

  sudo_kill-Keeps :
      (handle : ProcessHandle) (running : RunningCore) → Keeps (sudo_kill deps handle running)
  unfolding sudo_kill
  sudo_kill-Keeps handle running = by_request running.last_request refl
    where
      by_request :
          (last : Option SupervisorStartRequest)
          → running.last_request ≡ last
          → Keeps (sudo_kill deps handle running)
      by_request none e = rw (e, sudo_kill) (search keeps_rules)
      by_request (some request) e =
          rw (e, sudo_kill) (sudo_kill_request-Keeps handle running request)

  stop_native_tun-Keeps : (tun : Option RunningNativeTun) → Keeps (stop_native_tun deps tun)
  unfolding stop_native_tun
  stop_native_tun-Keeps none = search keeps_rules
  stop_native_tun-Keeps (some tun) = search keeps_rules

  stop_handle-Keeps :
      (handle : Option ProcessHandle) (first : Option SupervisorError)
      → Keeps (stop_handle deps handle first)
  unfolding stop_handle
  stop_handle-Keeps none first = search keeps_rules
  stop_handle-Keeps (some handle) first = search keeps_rules

  kill_all-Keeps :
      (running : RunningCore) (handles : List ProcessHandle) → Keeps (kill_all deps running handles)
  unfolding kill_all
  kill_all-Keeps running [] = search keeps_rules
  kill_all-Keeps running (handle ∷ handles) =
      search (keeps_rules, sudo_kill-Keeps handle running, kill_all-Keeps running handles)

  pub stop_running-Keeps : (running : RunningCore) → Keeps (stop_running deps running)
  unfolding stop_running
  stop_running-Keeps running =
      search (keeps_rules, stop_native_tun-Keeps, stop_handle-Keeps, kill_all-Keeps, finish-Keeps)
        depth 8

  -- Stopping the processes of the actor, with nothing tracked meanwhile.
  abbrev stopping : Actor → Result (Unit {0}) × Actor
  stopping actor = stop_running deps actor.running (record actor { running = empty })

  stop_lem :
      (actor : Actor)
      → stop deps actor ≡ after_stop deps actor.running (stopping actor).0 (stopping actor).1
  unfolding stop ◌>>=◌ get_running put_running attempt
  stop_lem actor = refl

  -- A stop ends in one of two ways. Either it succeeds with the disconnected snapshot and nothing
  -- is tracked any more; or it fails and all is tracked as before, so that it can be tried again.
  -- The generation of the native tunnel stays in both.
  pub stop-cases :
      (actor : Actor)
      → ((((stop deps actor).0 ≡ ok disconnected) × ((stop deps actor).1.running ≡ empty))
          ⊎ ((e : SupervisorError) × ((stop deps actor).0 ≡ err e)
              × ((stop deps actor).1.running ≡ actor.running)))
        × ((stop deps actor).1.native_tun_generation ≡ actor.native_tun_generation)
  stop-cases actor = by_result (stopping actor).0 refl
    where
      kept : Same (record actor { running = empty }) (stopping actor).1
      kept = (stop_running-Keeps actor.running).at (record actor { running = empty })

      by_result :
          (r : Result (Unit {0}))
          → (stopping actor).0 ≡ r
          → ((((stop deps actor).0 ≡ ok disconnected) × ((stop deps actor).1.running ≡ empty))
              ⊎ ((e : SupervisorError) × ((stop deps actor).0 ≡ err e)
                  × ((stop deps actor).1.running ≡ actor.running)))
            × ((stop deps actor).1.native_tun_generation ≡ actor.native_tun_generation)
      by_result (ok u) e =
          rw (stop_lem actor, e) (unfold after_stop return in (inl (refl, kept.0), kept.1))
      by_result (err x) e =
          rw (stop_lem actor, e)
            (unfold after_stop ◌>>=◌ put_running fail in (inr (x, refl, refl), kept.1))

  stop-empty :
      (actor : Actor)
      → stop deps (record actor { running = empty })
        ≡ (ok disconnected, record actor { running = empty })
  unfolding stop after_stop stop_running stop_native_tun kill_all stop_handle ◌>>=◌ get_running
      put_running attempt return
  stop-empty actor = refl

  -- Where nothing is tracked a stop does nothing.
  pub stop_idle :
      (actor : Actor) → actor.running ≡ empty → stop deps actor ≡ (ok disconnected, actor)
  stop_idle actor e =
      let same : record actor { running = empty } ≡ actor =
        λ i. record actor { running = sym e i } in
      subst (λ a. stop deps a ≡ (ok disconnected, a)) same (stop-empty actor)
