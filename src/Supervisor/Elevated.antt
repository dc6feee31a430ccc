-- ===== src/Supervisor/Elevated.antt =====
-- Which processes run as root.
use voya_vpn.Base.{◌≡◌, ◌↔◌, Bool, true, arith}
use voya_vpn.Platform.Tun.{TargetOs, windows, linux, macos, other, tun_backend}
use voya_vpn.Platform.Elevation.{should_use_unix_sudo}
use voya_vpn.Supervisor.State.{CoreProcessSpec, process_uses_unix_sudo, supervisor_tun_backend}

-- A process is run as root exactly on Linux, where the tunnel is on and the process may need it.
pub process_uses_unix_sudo_iff :
    (os : TargetOs) (spec : CoreProcessSpec) (tun_enabled : Bool)
    → (process_uses_unix_sudo os spec tun_enabled ≡ true)
      ↔ ((os ≡ linux) × (tun_enabled ≡ true) × (spec.may_need_sudo ≡ true))
unfolding process_uses_unix_sudo supervisor_tun_backend tun_backend should_use_unix_sudo
process_uses_unix_sudo_iff windows spec tun_enabled = ground arith
process_uses_unix_sudo_iff linux spec tun_enabled = ground arith
process_uses_unix_sudo_iff macos spec tun_enabled = ground arith
process_uses_unix_sudo_iff other spec tun_enabled = ground arith
