-- ===== src/Platform/Tun.antt =====
-- crates/voya-platform/src/tun.rs: which part of the system owns the tunnel on each platform.
pub mod Laws
use voya_vpn.Base.{Bool, true, false, ◌≡◌, Text, Option, List, [], ◌∷◌}

pub data TargetOs : Type 0 where
  windows linux macos other : TargetOs

pub data TunBackend : Type 0 where
  process macos_packet_tunnel windows_service unsupported : TunBackend

abbrev pub is_native : TunBackend → Bool
is_native macos_packet_tunnel = true
is_native windows_service = true
is_native _ = false

abbrev pub is_process : TunBackend → Bool
is_process process = true
is_process _ = false

abbrev pub is_windows : TargetOs → Bool
is_windows windows = true
is_windows _ = false

unfoldable pub tun_backend : TargetOs → TunBackend
tun_backend windows = windows_service
tun_backend linux = process
tun_backend macos = macos_packet_tunnel
tun_backend other = unsupported

pub data TunPreflightState : Type 0 where
  ready needs_elevation manual_check unsupported_os : TunPreflightState

-- Without the notes for the user.
pub record TunPreflightReport : Type 0 where
  pub os : TargetOs
  pub backend : TunBackend
  pub state : TunPreflightState
  pub allow_enable_tun : Bool
  pub requires_elevation : Bool
  pub elevation_granted : Bool

allowed_by : TunBackend → Bool → Bool
allowed_by process elevation_granted = elevation_granted
allowed_by macos_packet_tunnel elevation_granted = true
allowed_by windows_service elevation_granted = true
allowed_by unsupported elevation_granted = false

unfoldable pub allow_enable_tun : TargetOs → Bool → Bool
unfolding allowed_by tun_backend
allow_enable_tun os elevation_granted = allowed_by (tun_backend os) elevation_granted

preflight_state : TunBackend → Bool → TunPreflightState
preflight_state process true = ready
preflight_state process false = needs_elevation
preflight_state macos_packet_tunnel elevation_granted = ready
preflight_state windows_service elevation_granted = ready
preflight_state unsupported elevation_granted = unsupported_os

unfoldable pub tun_preflight : TargetOs → Bool → TunPreflightReport
unfolding allow_enable_tun preflight_state tun_backend
tun_preflight os elevation_granted = record {
  os = os;
  backend = tun_backend os;
  state = preflight_state (tun_backend os) elevation_granted;
  allow_enable_tun = allow_enable_tun os elevation_granted;
  requires_elevation = is_process (tun_backend os);
  elevation_granted = elevation_granted;
}
