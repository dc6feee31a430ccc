-- ===== src/Supervisor/Start.antt =====
-- crates/voya-app/src/supervisor/actor.rs: starting a core, as processes or as a native tunnel.
pub mod Laws
pub mod Processes
use voya_vpn.Base.{
  ℕ, zero, ◌+◌, ◌%◌, ◌^◌, Bool, true, false, ◌&&◌, List, [], ◌∷◌, ◌++◌, Option, none, some, ◌==◌,
  if◌then◌else◌, Text,
}
use voya_vpn.Platform.Tun.{TargetOs, TunBackend, is_native, is_windows}
use voya_vpn.Platform.Process.{
  ProcessHandle, ProcessRole, ProcessSpawn, ProcessOutput, ProcessError, system, argument_parse,
  Split, args_of, unterminated_quote, split_command_line,
}
use voya_vpn.Platform.Elevation.{
  Named, elevate_launcher_path, wrap_spawn_with_unix_sudo_passwordless,
  unix_sudo_kill_spawn_passwordless,
}
use voya_vpn.Supervisor.State.{
  CoreType, CoreProcessSpec, SupervisorStartRequest, SupervisorSnapshot, NativeTunStartRequest,
  NativeTunExitEvent, RunningNativeTun, RunningCore, SupervisorError, elevation_not_granted,
  process, tun_cleanup, native_tun, elevation, unknown_sudo_kill_target,
  missing_native_tun_config_path, sudo_kill_failed, empty, disconnected, contains_pid,
  sudo_kill_target, snapshot, supervisor_tun_backend, process_uses_unix_sudo, request_core_type,
  sudo_kill_error_message,
}
use voya_vpn.Supervisor.Monad.{
  Result, ok, err, Action, cleaned_tun, created_job, spawned, assigned, ran_oneshot, stopped,
  started_native, stopped_native, watched, emitted, SupervisorDeps, Actor, M, continue, ◌>>=◌, ◌>>◌,
  return, fail, attempt, of_option, check, when, get_running, put_running, ask,
}
use voya_vpn.Supervisor.Stop.{spawn_process, stop_running, stop}

module _ (deps : SupervisorDeps) where
  cleanup_partial_start : RunningCore → SupervisorError → M SupervisorSnapshot
  cleanup_partial_start running start_error = do stop_running deps running; fail start_error

  -- `job.assign`, where there is a job.
  assign_job : Bool → ProcessHandle → M (Result (Unit {0}))
  assign_job false handle = return (ok tt)
  assign_job true handle = do
    answer ← ask (λ log. deps.assign log handle) (assigned handle)
    return (if answer then ok tt else err (process system))

  abbrev with_main : SupervisorStartRequest → RunningCore → ProcessHandle → RunningCore
  with_main request partial main = record partial {
    main = some main;
    elevated =
        if process_uses_unix_sudo deps.target_os request.main request.tun_enabled
        then partial.elevated ++ (main ∷ [])
        else partial.elevated;
  }

  abbrev with_pre :
      SupervisorStartRequest → CoreProcessSpec → RunningCore → ProcessHandle → RunningCore
  with_pre request spec partial pre = record partial {
    pre = some pre;
    elevated =
        if process_uses_unix_sudo deps.target_os spec request.tun_enabled
        then partial.elevated ++ (pre ∷ [])
        else partial.elevated;
  }

  -- The end of `start`.
  commit : SupervisorStartRequest → RunningCore → M SupervisorSnapshot
  commit request partial = do
    put_running (record partial { running_core_type = some (request_core_type request) })
    running ← get_running
    return (snapshot running)

  pre_assigned : SupervisorStartRequest → RunningCore → Result (Unit {0}) → M SupervisorSnapshot
  pre_assigned request partial (ok _) = commit request partial
  pre_assigned request partial (err e) = cleanup_partial_start partial e

  pre_spawned :
      SupervisorStartRequest
      → CoreProcessSpec
      → RunningCore
      → Result ProcessHandle
      → M SupervisorSnapshot
  pre_spawned request spec partial (err e) = cleanup_partial_start partial e
  pre_spawned request spec partial (ok pre) = do
    result ← assign_job partial.job pre
    pre_assigned request (with_pre request spec partial pre) result

  start_pre : SupervisorStartRequest → Option CoreProcessSpec → RunningCore → M SupervisorSnapshot
  start_pre request none partial = commit request partial
  start_pre request (some spec) partial = do
    result ← attempt (spawn_process deps ProcessRole.pre spec request)
    pre_spawned request spec partial result

  main_assigned : SupervisorStartRequest → RunningCore → Result (Unit {0}) → M SupervisorSnapshot
  main_assigned request partial (ok _) = start_pre request request.pre partial
  main_assigned request partial (err e) = cleanup_partial_start partial e

  cleanup_before_start : Bool → M (Unit {0})
  cleanup_before_start tun_enabled =
      when (is_windows deps.target_os && tun_enabled)
        (do answer ← ask deps.cleanup_before_start cleaned_tun; check answer tun_cleanup)

  create_job : M Bool
  create_job =
      if is_windows deps.target_os
      then (do answer ← ask deps.create_job created_job; of_option answer (process system))
      else return false

  -- The partial start with the main process.
  abbrev main_only : SupervisorStartRequest → Bool → ProcessHandle → RunningCore
  main_only request job main =
      with_main request
        (record {
          active_profile_id = request.active_profile_id;
          main = none;
          pre = none;
          native_tun = none;
          elevated = [];
          job = job;
          last_request = some request;
          running_core_type = some request.main.core_type;
        })
        main

  pub start_processes : SupervisorStartRequest → M SupervisorSnapshot
  start_processes request = do
    cleanup_before_start request.tun_enabled
    job ← create_job
    main ← spawn_process deps ProcessRole.main request.main request
    result ← assign_job job main
    main_assigned request (main_only request job main) result

  pre_config_path : Option CoreProcessSpec → M (Option Text)
  pre_config_path none = return none
  pre_config_path (some spec) = do
    path ← of_option spec.config_path (missing_native_tun_config_path ProcessRole.pre)
    return (some path)

  native_tun_start_request : SupervisorStartRequest → TunBackend → M NativeTunStartRequest
  native_tun_start_request request backend = do
    main_path ← of_option request.main.config_path (missing_native_tun_config_path ProcessRole.main)
    pre_path ← pre_config_path request.pre
    return (record {
      backend = backend;
      active_profile_id = request.active_profile_id;
      main_launch = request.main.launch;
      pre_launch = elim request.pre [ none ↦ none | some spec ↦ some spec.launch ];
      main_config_path = main_path;
      pre_config_path = pre_path;
    })

  -- `wrapping_add(1)` on 64 bits.
  next_generation : M ℕ
  next_generation actor =
      let generation = (actor.native_tun_generation + 1) % 2 ^ 64 in
      (ok generation, record actor { native_tun_generation = generation })

  -- The end of `start_native_tun`, once the provider has started.
  track_native_tun : SupervisorStartRequest → TunBackend → M SupervisorSnapshot
  track_native_tun request backend = do
    generation ← next_generation
    put_running (record {
      active_profile_id = request.active_profile_id;
      main = none;
      pre = none;
      native_tun = some (record { backend = backend; generation = generation });
      elevated = [];
      job = false;
      last_request = some request;
      running_core_type = some (request_core_type request);
    })
    ask (λ log. tt) (watched generation backend)
    running ← get_running
    return (snapshot running)

  start_native_tun : SupervisorStartRequest → TunBackend → M SupervisorSnapshot
  start_native_tun request backend = do
    native_request ← native_tun_start_request request backend
    answer ← ask (λ log. deps.start_native log native_request) (started_native native_request)
    check answer native_tun
    track_native_tun request backend

  pub start_with : SupervisorStartRequest → TunBackend → M SupervisorSnapshot
  start_with request backend =
      if is_native backend then start_native_tun request backend else start_processes request

  unfoldable pub start : SupervisorStartRequest → M SupervisorSnapshot
  start request = do
    _ ← stop deps
    start_with request (supervisor_tun_backend deps.target_os request.tun_enabled)
