-- ===== src/Supervisor/Actor.antt =====
-- crates/voya-app/src/supervisor/actor.rs: the actor's commands.
pub mod Laws
pub mod Invariant
pub mod Reachable
use voya_vpn.Base.{
  ℕ, zero, ◌+◌, ◌%◌, ◌^◌, Bool, true, false, ◌&&◌, List, [], ◌∷◌, ◌++◌, Option, none, some, ◌==◌,
  if◌then◌else◌, Text,
}
use voya_vpn.Platform.Tun.{TargetOs, TunBackend, is_native, is_windows}
use voya_vpn.Platform.Process.{
  ProcessHandle, ProcessRole, ProcessSpawn, ProcessOutput, ProcessError, system, argument_parse,
  Split, args_of, unterminated_quote, split_command_line,
}
use voya_vpn.Platform.Elevation.{
  Named, elevate_launcher_path, wrap_spawn_with_unix_sudo_passwordless,
  unix_sudo_kill_spawn_passwordless,
}
use voya_vpn.Supervisor.State.{
  CoreType, CoreProcessSpec, SupervisorStartRequest, SupervisorSnapshot, NativeTunStartRequest,
  NativeTunExitEvent, RunningNativeTun, RunningCore, SupervisorError, elevation_not_granted,
  process, tun_cleanup, native_tun, elevation, unknown_sudo_kill_target,
  missing_native_tun_config_path, sudo_kill_failed, empty, disconnected, contains_pid,
  sudo_kill_target, snapshot, supervisor_tun_backend, process_uses_unix_sudo, request_core_type,
  sudo_kill_error_message,
}
use voya_vpn.Supervisor.Monad.{
  Result, ok, err, Action, cleaned_tun, created_job, spawned, assigned, ran_oneshot, stopped,
  started_native, stopped_native, watched, emitted, SupervisorDeps, Actor, M, continue, ◌>>=◌, ◌>>◌,
  return, fail, attempt, of_option, check, when, get_running, put_running, ask,
}
use voya_vpn.Supervisor.Stop.{stop_running, stop}
use voya_vpn.Supervisor.Start.{start}

module _ (deps : SupervisorDeps) where
  pub restart : SupervisorStartRequest → M SupervisorSnapshot
  restart request = do _ ← stop deps; start deps request

  -- The request to repeat after a crash.
  abbrev on_crash : Option SupervisorStartRequest → Option SupervisorStartRequest
  on_crash none = none
  on_crash (some request) = if request.restart_on_crash then some request else none

  start_again : Option SupervisorStartRequest → M SupervisorSnapshot
  start_again none = return disconnected
  start_again (some request) = start deps request

  tracked_exited : RunningCore → M SupervisorSnapshot
  tracked_exited running = do _ ← stop deps; start_again (on_crash running.last_request)

  pub process_exited : ℕ → M SupervisorSnapshot
  process_exited process_id = do
    running ← get_running
    if contains_pid running process_id then tracked_exited running else return (snapshot running)

  pub native_tun_ended : RunningCore → RunningNativeTun → Text → M (Unit {0})
  native_tun_ended running tun message = do
    put_running empty
    _ ← attempt (stop_running deps running)
    ask (λ log. tt)
        (emitted (record {
          active_profile_id = running.active_profile_id;
          backend = tun.backend;
          message = message;
        }))

  native_tun_matched : RunningCore → Option RunningNativeTun → ℕ → Text → M (Unit {0})
  native_tun_matched running none generation message = return tt
  native_tun_matched running (some tun) generation message =
      if tun.generation == generation then native_tun_ended running tun message else return tt

  pub native_tun_exited : ℕ → Text → M (Unit {0})
  native_tun_exited generation message = do
    running ← get_running
    native_tun_matched running running.native_tun generation message

-- `Drop`: an error of the stop is only logged.
pub drop_actor : SupervisorDeps → M (Unit {0})
drop_actor deps = do
  running ← get_running
  put_running empty
  _ ← attempt (stop_running deps running)
  return tt

-- `SupervisorActor::new`.
abbrev pub new_actor : Actor
new_actor = record { running = empty; native_tun_generation = 0; log = [] }

pub data SupervisorCommand : Type 0 where
  start_command restart_command : SupervisorStartRequest → SupervisorCommand
  stop_command status_command : SupervisorCommand
  process_exited_command : ℕ → SupervisorCommand
  native_tun_exited_command : ℕ → Text → SupervisorCommand

-- `handle`, with the reply that is sent, where the command has one.
abbrev reply : M SupervisorSnapshot → M (Option (Result SupervisorSnapshot))
reply m = do result ← attempt m; return (some result)

pub handle : SupervisorDeps → SupervisorCommand → M (Option (Result SupervisorSnapshot))
handle deps (start_command request) = reply (start deps request)
handle deps (restart_command request) = reply (restart deps request)
handle deps stop_command = reply (stop deps)
handle deps status_command = reply (λ actor. (ok (snapshot actor.running), actor))
handle deps (process_exited_command process_id) = reply (process_exited deps process_id)
handle deps (native_tun_exited_command generation message) = do
  native_tun_exited deps generation message
  return none
