-- ===== src/Supervisor/Tests.antt =====
-- The actor on a platform that grants everything.
use voya_vpn.Base.{
  ◌≡◌, ◌↔◌, ◌≢◌, ◌⊎◌, inl, inr, refl, true, false, [], ◌∷◌, none, some, codes, length,
}
use voya_vpn.Platform.Tun.{TargetOs, linux, macos, macos_packet_tunnel}
use voya_vpn.Platform.Process.{ProcessHandle, ProcessRole}
use voya_vpn.Supervisor.State.{
  CoreProcessSpec, sing_box, SupervisorStartRequest, RunningNativeTun, SupervisorError,
  unknown_sudo_kill_target, empty, disconnected, request_core_type,
}
use voya_vpn.Supervisor.Monad.{ok, err, SupervisorDeps, Actor}
use voya_vpn.Supervisor.Monad.After.{After}
use voya_vpn.Supervisor.Elevated.{process_uses_unix_sudo_iff}
use voya_vpn.Supervisor.State.{process_uses_unix_sudo}
use voya_vpn.Supervisor.Forms.{RunsFor, Started, IsValid}
use voya_vpn.Supervisor.Stop.{stop}
use voya_vpn.Supervisor.Stop.Laws.{stop-cases}
use voya_vpn.Supervisor.Stop.Targets.{stop-known_target}
use voya_vpn.Supervisor.Start.{start}
use voya_vpn.Supervisor.Start.Laws.{Failed, start_lem}
use voya_vpn.Supervisor.Actor.{
  restart, native_tun_exited, SupervisorCommand, start_command, handle, new_actor,
}
use voya_vpn.Supervisor.Actor.Laws.{restart-start, Ended, native_tun_exited_current}
use voya_vpn.Supervisor.Actor.Invariant.{handle-IsValid}
use voya_vpn.Supervisor.Actor.Reachable.{created, handled, Reachable-IsValid}

-- The processes are numbered by what was done before.
abbrev deps_on : TargetOs → SupervisorDeps
deps_on os = record {
  target_os = os;
  is_granted = λ log. true;
  cleanup_before_start = λ log. true;
  create_job = λ log. some true;
  spawn = λ log spawn. some (record { id = length log; role = spawn.role });
  assign = λ log handle. true;
  run_oneshot = λ log spawn. some (record { status_code = some 0; stdout = []; stderr = [] });
  stop = λ log handle. true;
  start_native = λ log request. true;
  stop_native = λ log backend. true;
}

abbrev main_spec : CoreProcessSpec
main_spec = record {
  core_type = sing_box;
  launch = record {
    executable = codes "/opt/voya/sing-box";
    arguments = codes "run -c config.json";
    working_dir = codes "/opt/voya";
    environment = [];
  };
  config_path = some (codes "config.json");
  display_log = true;
  may_need_sudo = true;
}

abbrev request : SupervisorStartRequest
request = record {
  active_profile_id = some (codes "home");
  main = main_spec;
  pre = none;
  tun_enabled = true;
  sudo_script_dir = codes "/tmp";
  restart_on_crash = true;
}

abbrev idle : Actor
idle = record { running = empty; native_tun_generation = 4; log = [] }

abbrev tun : RunningNativeTun
tun = record { backend = macos_packet_tunnel; generation = 4 }

-- A native tunnel runs.
abbrev tunnelled : Actor
tunnelled = record {
  running = record {
    active_profile_id = some (codes "home");
    main = none;
    pre = none;
    native_tun = some tun;
    elevated = [];
    job = false;
    last_request = some request;
    running_core_type = some sing_box;
  };
  native_tun_generation = 4;
  log = [];
}

tunnelled_runs : RunsFor request tunnelled
unfolding request_core_type
tunnelled_runs = record {
  last = refl;
  profile = refl;
  core_type = refl;
  form = inr (record {
    tun = tun;
    has_tun = refl;
    present = refl;
    no_main = refl;
    no_pre = refl;
    none_elevated = refl;
  });
}

abbrev main_handle : ProcessHandle
main_handle = record { id = 7; role = ProcessRole.main }

-- An elevated core runs.
abbrev elevated : Actor
elevated = record {
  running = record {
    active_profile_id = some (codes "home");
    main = some main_handle;
    pre = none;
    native_tun = none;
    elevated = main_handle ∷ [];
    job = false;
    last_request = some request;
    running_core_type = some sing_box;
  };
  native_tun_generation = 0;
  log = [];
}

no_pre :
    (handle : ProcessHandle)
    → elevated.running.pre ≡ some handle
    → (spec : CoreProcessSpec) × (request.pre ≡ some spec)
no_pre handle e = cc

elevated_runs : RunsFor request elevated
unfolding request_core_type
elevated_runs = record {
  last = refl;
  profile = refl;
  core_type = refl;
  form = inl (record {
    main = main_handle;
    has_main = refl;
    no_tun = refl;
    owned = (inl refl, tt);
    asked = no_pre;
  });
}

stop-known_target_example : (stop (deps_on linux) elevated).0 ≢ err (unknown_sudo_kill_target 7)
stop-known_target_example =
    stop-known_target (deps_on linux) elevated 7 (inr (request, elevated_runs))

Reachable-IsValid_example : IsValid (handle (deps_on linux) (start_command request) new_actor).1
Reachable-IsValid_example =
    Reachable-IsValid (deps_on linux) (handle (deps_on linux) (start_command request) new_actor).1
      (handled (start_command request) new_actor created)

stop-cases_example :
    ((((stop (deps_on macos) tunnelled).0 ≡ ok disconnected)
        × ((stop (deps_on macos) tunnelled).1.running ≡ empty))
      ⊎ ((e : SupervisorError) × ((stop (deps_on macos) tunnelled).0 ≡ err e)
          × ((stop (deps_on macos) tunnelled).1.running ≡ tunnelled.running)))
    × ((stop (deps_on macos) tunnelled).1.native_tun_generation ≡ 4)
stop-cases_example = stop-cases (deps_on macos) tunnelled

start_lem_example :
    After
      (λ s t. ((stop (deps_on macos) tunnelled).0 ≡ ok disconnected) × Started request s t)
      (Failed (deps_on macos) request tunnelled)
      (start (deps_on macos) request tunnelled).0
      (start (deps_on macos) request tunnelled).1
start_lem_example = start_lem (deps_on macos) request tunnelled

restart-start_example :
    restart (deps_on linux) request tunnelled ≡ start (deps_on linux) request tunnelled
restart-start_example = restart-start (deps_on linux) request tunnelled

handle-IsValid_example :
    IsValid (handle (deps_on macos) (SupervisorCommand.native_tun_exited_command 4 []) tunnelled).1
handle-IsValid_example =
    handle-IsValid (deps_on macos) (SupervisorCommand.native_tun_exited_command 4 []) tunnelled
      (inr (request, tunnelled_runs))

native_tun_exited_current_example :
    Ended tunnelled.running tun [] (native_tun_exited (deps_on macos) 4 [] tunnelled)
native_tun_exited_current_example = native_tun_exited_current (deps_on macos) [] tunnelled tun refl

process_uses_unix_sudo_iff_example :
    (process_uses_unix_sudo linux main_spec true ≡ true)
    ↔ ((linux ≡ linux) × (true ≡ true) × (main_spec.may_need_sudo ≡ true))
process_uses_unix_sudo_iff_example = process_uses_unix_sudo_iff linux main_spec true
