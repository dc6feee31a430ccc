-- ===== src/Supervisor/Stop.antt =====
-- crates/voya-app/src/supervisor/actor.rs: starting and stopping one process, and stopping all of the
-- running core.
pub mod Laws
pub mod Targets
use voya_vpn.Base.{
  ℕ, zero, ◌+◌, ◌%◌, ◌^◌, Bool, true, false, ◌&&◌, List, [], ◌∷◌, ◌++◌, Option, none, some, ◌==◌,
  if◌then◌else◌, Text,
}
use voya_vpn.Platform.Tun.{TargetOs, TunBackend, is_native, is_windows}
use voya_vpn.Platform.Process.{
  ProcessHandle, ProcessRole, ProcessSpawn, ProcessOutput, ProcessError, system, argument_parse,
  Split, args_of, unterminated_quote, split_command_line,
}
use voya_vpn.Platform.Elevation.{
  Named, elevate_launcher_path, wrap_spawn_with_unix_sudo_passwordless,
  unix_sudo_kill_spawn_passwordless,
}
use voya_vpn.Supervisor.State.{
  CoreType, CoreProcessSpec, SupervisorStartRequest, SupervisorSnapshot, NativeTunStartRequest,
  NativeTunExitEvent, RunningNativeTun, RunningCore, SupervisorError, elevation_not_granted,
  process, tun_cleanup, native_tun, elevation, unknown_sudo_kill_target,
  missing_native_tun_config_path, sudo_kill_failed, empty, disconnected, contains_pid,
  sudo_kill_target, snapshot, supervisor_tun_backend, process_uses_unix_sudo, request_core_type,
  sudo_kill_error_message,
}
use voya_vpn.Supervisor.Monad.{
  Result, ok, err, Action, cleaned_tun, created_job, spawned, assigned, ran_oneshot, stopped,
  started_native, stopped_native, watched, emitted, SupervisorDeps, Actor, M, continue, ◌>>=◌, ◌>>◌,
  return, fail, attempt, of_option, check, when, get_running, put_running, ask,
}

-- `ensure_sudo_kill_success`.
ensure_sudo_kill_success : ℕ → ProcessOutput → Option ℕ → M (Unit {0})
ensure_sudo_kill_success pid output (some zero) = return tt
ensure_sudo_kill_success pid output code =
    fail (sudo_kill_failed pid code (sudo_kill_error_message output))

-- `ProcessSpawn::from_core_launch`.
of_split : ProcessRole → CoreProcessSpec → Split → M ProcessSpawn
of_split role spec (args_of arguments) = return (record {
  role = role;
  executable = spec.launch.executable;
  arguments = arguments;
  working_dir = spec.launch.working_dir;
  environment = spec.launch.environment;
  display_log = spec.display_log;
})
of_split role spec (unterminated_quote c) = fail (process (argument_parse c))

of_named : Named ProcessSpawn → M ProcessSpawn
of_named (Named.ok spawn) = return spawn
of_named (Named.err e) = fail elevation

-- `first_error.get_or_insert`, where the platform failed.
abbrev or_first : Option SupervisorError → Bool → SupervisorError → Option SupervisorError
or_first (some e) answer e' = some e
or_first none true e' = none
or_first none false e' = some e'

abbrev pub finish : Option SupervisorError → M (Unit {0})
finish none = return tt
finish (some e) = fail e

module _ (deps : SupervisorDeps) where
  pub elevation_launcher : CoreType → M Text
  elevation_launcher core_type actor =
      (if deps.is_granted actor.log
          then of_option (elevate_launcher_path deps.target_os) (elevation_not_granted core_type)
          else fail (elevation_not_granted core_type))
        actor

  pub spawn_process : ProcessRole → CoreProcessSpec → SupervisorStartRequest → M ProcessHandle
  spawn_process role spec request = do
    base ← of_split role spec (split_command_line spec.launch.arguments)
    spawn ←
        (if process_uses_unix_sudo deps.target_os spec request.tun_enabled
          then (do
            launcher ← elevation_launcher spec.core_type
            return (wrap_spawn_with_unix_sudo_passwordless base launcher))
          else return base)
    answer ← ask (λ log. deps.spawn log spawn) (spawned spawn)
    of_option answer (process system)

  pub sudo_kill_request : ProcessHandle → RunningCore → SupervisorStartRequest → M (Unit {0})
  sudo_kill_request handle running request = do
    target ← of_option (sudo_kill_target running handle) (unknown_sudo_kill_target handle.id)
    launcher ← elevation_launcher target.core_type
    spawn ← of_named (
        unix_sudo_kill_spawn_passwordless deps.target_os launcher handle.id target.launch.executable
          target.launch.working_dir)
    answer ← ask (λ log. deps.run_oneshot log spawn) (ran_oneshot spawn)
    output ← of_option answer (process system)
    ensure_sudo_kill_success handle.id output output.status_code

  pub sudo_kill : ProcessHandle → RunningCore → M (Unit {0})
  sudo_kill handle running = elim running.last_request [
    | none ↦ return tt
    | some request ↦ sudo_kill_request handle running request
  ]

  -- The first error is kept; the rest goes on.
  stop_native_tun : Option RunningNativeTun → M (Option SupervisorError)
  stop_native_tun none = return none
  stop_native_tun (some tun) = do
    answer ← ask (λ log. deps.stop_native log tun.backend) (stopped_native tun.backend)
    return (or_first none answer native_tun)

  stop_handle : Option ProcessHandle → Option SupervisorError → M (Option SupervisorError)
  stop_handle none first_error = return first_error
  stop_handle (some handle) first_error = do
    answer ← ask (λ log. deps.stop log handle) (stopped handle)
    return (or_first first_error answer (process system))

  -- An elevated process that cannot be killed ends the whole.
  kill_all : RunningCore → List ProcessHandle → M (Unit {0})
  kill_all running [] = return tt
  kill_all running (handle ∷ handles) = do sudo_kill handle running; kill_all running handles

  pub stop_running : RunningCore → M (Unit {0})
  stop_running running = do
    native_error ← stop_native_tun running.native_tun
    kill_all running running.elevated
    main_error ← stop_handle running.main native_error
    pre_error ← stop_handle running.pre main_error
    finish pre_error

  after_stop : RunningCore → Result (Unit {0}) → M SupervisorSnapshot
  after_stop running (ok _) = return disconnected
  after_stop running (err e) = do put_running running; fail e

  pub stop : M SupervisorSnapshot
  stop = do
    running ← get_running
    put_running empty
    result ← attempt (stop_running running)
    after_stop running result
