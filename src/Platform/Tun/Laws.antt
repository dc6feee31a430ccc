-- ===== src/Platform/Tun/Laws.antt =====
-- The report before the tunnel is switched on.
use voya_vpn.Base.{Bool, true, false, ◌≡◌, ◌↔◌, arith}
use voya_vpn.Platform.Tun.{
  TargetOs, windows, linux, macos, other, ready, needs_elevation, tun_preflight,
}

-- The report calls a platform ready exactly where it allows the tunnel, and asks for an elevation
-- exactly where the platform requires one that is not granted.
pub tun_preflight_ready :
    (os : TargetOs) (elevation_granted : Bool)
    → let report = tun_preflight os elevation_granted in
      ((report.state ≡ ready) ↔ (report.allow_enable_tun ≡ true))
      × ((report.state ≡ needs_elevation)
          ↔ ((report.requires_elevation ≡ true) × (elevation_granted ≡ false)))
unfolding tun_preflight
tun_preflight_ready windows g = ground arith
tun_preflight_ready linux true = ground arith
tun_preflight_ready linux false = ground arith
tun_preflight_ready macos g = ground arith
tun_preflight_ready other g = ground arith
