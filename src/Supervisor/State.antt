-- ===== src/Supervisor/State.antt =====
-- crates/voya-app/src/supervisor.rs: requests, snapshots and the state of the running core.
use voya_vpn.Base.{
  ℕ, Bool, true, false, ◌||◌, List, [], Option, none, some, ◌==◌, if◌then◌else◌, Text, codes, trim,
  is_empty,
}
use voya_vpn.Platform.Tun.{TargetOs, TunBackend, tun_backend, is_process}
use voya_vpn.Platform.Process.{CoreLaunch, ProcessHandle, ProcessRole, ProcessError, ProcessOutput}
use voya_vpn.Platform.Elevation.{should_use_unix_sudo}

-- crates/voya-core/src/enums.rs.
pub data CoreType : Type 0 where
  sing_box : CoreType

pub record CoreProcessSpec : Type 0 where
  pub core_type : CoreType
  pub launch : CoreLaunch
  pub config_path : Option Text
  pub display_log : Bool
  pub may_need_sudo : Bool

pub record SupervisorStartRequest : Type 0 where
  pub active_profile_id : Option Text
  pub main : CoreProcessSpec
  pub pre : Option CoreProcessSpec
  pub tun_enabled : Bool
  pub sudo_script_dir : Text
  pub restart_on_crash : Bool

pub data SupervisorConnectionState : Type 0 where
  disconnected_state connected_state : SupervisorConnectionState

pub record SupervisorSnapshot : Type 0 where
  pub state : SupervisorConnectionState
  pub active_profile_id : Option Text
  pub main_pid : Option ℕ
  pub pre_pid : Option ℕ
  pub running_core_type : Option CoreType

pub record NativeTunExitEvent : Type 0 where
  pub active_profile_id : Option Text
  pub backend : TunBackend
  pub message : Text

abbrev pub disconnected : SupervisorSnapshot
disconnected = record {
  state = disconnected_state;
  active_profile_id = none;
  main_pid = none;
  pre_pid = none;
  running_core_type = none;
}

-- The errors of the platform's tunnel, cleanup and elevation carry no detail here.
pub data SupervisorError : Type 0 where
  command_channel_closed response_dropped : SupervisorError
  elevation_not_granted : CoreType → SupervisorError
  process : ProcessError → SupervisorError
  tun_cleanup native_tun elevation : SupervisorError
  unknown_sudo_kill_target : ℕ → SupervisorError
  missing_native_tun_config_path : ProcessRole → SupervisorError
  sudo_kill_failed : ℕ → Option ℕ → Text → SupervisorError

pub record NativeTunStartRequest : Type 0 where
  pub backend : TunBackend
  pub active_profile_id : Option Text
  pub main_launch : CoreLaunch
  pub pre_launch : Option CoreLaunch
  pub main_config_path : Text
  pub pre_config_path : Option Text

pub record RunningNativeTun : Type 0 where
  pub backend : TunBackend
  pub generation : ℕ

-- The job object is kept only for what it does when it is dropped; here it is there or not.
pub record RunningCore : Type 0 where
  pub active_profile_id : Option Text
  pub main : Option ProcessHandle
  pub pre : Option ProcessHandle
  pub native_tun : Option RunningNativeTun
  pub elevated : List ProcessHandle
  pub job : Bool
  pub last_request : Option SupervisorStartRequest
  pub running_core_type : Option CoreType

abbrev pub empty : RunningCore
empty = record {
  active_profile_id = none;
  main = none;
  pre = none;
  native_tun = none;
  elevated = [];
  job = false;
  last_request = none;
  running_core_type = none;
}

abbrev pub has_id : Option ProcessHandle → ℕ → Bool
has_id none process_id = false
has_id (some handle) process_id = handle.id == process_id

unfoldable pub contains_pid : RunningCore → ℕ → Bool
contains_pid running process_id = has_id running.main process_id || has_id running.pre process_id

unfoldable pub sudo_kill_target : RunningCore → ProcessHandle → Option CoreProcessSpec
sudo_kill_target running handle = elim running.last_request [
  | none ↦ none
  | some request ↦
      if has_id running.main handle.id
      then some request.main
      else if has_id running.pre handle.id
      then request.pre
      else none
]

abbrev pub pid_of : Option ProcessHandle → Option ℕ
pid_of none = none
pid_of (some handle) = some handle.id

abbrev pub is_some {ℓ} : {A : Type ℓ} → Option A → Bool
is_some none = false
is_some (some a) = true

unfoldable pub snapshot : RunningCore → SupervisorSnapshot
snapshot running = record {
  state =
      if is_some running.main || is_some running.native_tun
      then connected_state
      else disconnected_state;
  active_profile_id = running.active_profile_id;
  main_pid = pid_of running.main;
  pre_pid = pid_of running.pre;
  running_core_type = running.running_core_type;
}

unfoldable pub supervisor_tun_backend : TargetOs → Bool → TunBackend
unfolding tun_backend
supervisor_tun_backend target_os tun_enabled =
    if tun_enabled then tun_backend target_os else TunBackend.process

unfoldable pub process_uses_unix_sudo : TargetOs → CoreProcessSpec → Bool → Bool
unfolding supervisor_tun_backend should_use_unix_sudo
process_uses_unix_sudo target_os spec tun_enabled =
    if is_process (supervisor_tun_backend target_os tun_enabled)
    then should_use_unix_sudo target_os tun_enabled spec.may_need_sudo
    else false

-- The core type that a request runs: that of the process in front, where there is one.
unfoldable pub request_core_type : SupervisorStartRequest → CoreType
request_core_type request = elim request.pre [
  | none ↦ request.main.core_type
  | some pre ↦ pre.core_type
]

unfoldable pub sudo_kill_error_message : ProcessOutput → Text
unfolding trim
sudo_kill_error_message output =
    if is_empty (trim output.stderr)
    then if is_empty (trim output.stdout)
      then codes "sudo kill command failed"
      else trim output.stdout
    else trim output.stderr
