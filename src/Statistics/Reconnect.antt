-- ===== src/Statistics/Reconnect.antt =====
-- crates/voya-app/src/statistics.rs: how long a lost connection waits before the next attempt. Times
-- are in nanoseconds.
pub mod Laws
use Prim.Native.Nat.{min}
use voya_vpn.Base.{
  ℕ, zero, ◌+◌, ◌-◌, ◌*◌, ◌/◌, ◌%◌, ◌^◌, Bool, true, false, ltb, ◌==◌, if◌then◌else◌,
}

-- `Duration::MAX`.
abbrev pub duration_max : ℕ
duration_max = (2 ^ 64 - 1) * 1_000_000_000 + 999_999_999

-- The jitter is at most a quarter.
unfoldable pub reconnect_jitter : ℕ → ℕ → ℕ
reconnect_jitter base jitter_seed =
    let jitter_limit_nanos = min (base / 4) (2 ^ 64 - 1) in
    if jitter_limit_nanos == 0 then 0 else jitter_seed % (jitter_limit_nanos + 1)

-- The doubled delay, `1_u32.checked_shl` with at most 16 places, which never overflows.
unfoldable pub base_delay : ℕ → ℕ → ℕ → ℕ
base_delay attempt initial max =
    let scaled = min (initial * 2 ^ min attempt 16) duration_max in
    if ltb max scaled then max else scaled

unfoldable pub websocket_reconnect_delay : ℕ → ℕ → ℕ → ℕ → ℕ
websocket_reconnect_delay attempt initial max jitter_seed =
    let base = base_delay attempt initial max in
    min (base + reconnect_jitter base jitter_seed) duration_max

pub record WebSocketReconnectBackoff : Type 0 where
  pub attempt : ℕ
  pub initial : ℕ
  pub max : ℕ

unfoldable pub new_backoff : ℕ → ℕ → WebSocketReconnectBackoff
new_backoff initial max = record { attempt = 0; initial = initial; max = max }

unfoldable pub reset : WebSocketReconnectBackoff → WebSocketReconnectBackoff
reset backoff = record backoff { attempt = 0 }

-- The seed comes from the clock and the process.
unfoldable pub next_delay : ℕ → WebSocketReconnectBackoff → ℕ × WebSocketReconnectBackoff
next_delay jitter_seed backoff = (
  websocket_reconnect_delay backoff.attempt backoff.initial backoff.max jitter_seed,
  record backoff { attempt = min (backoff.attempt + 1) (2 ^ 32 - 1) },
)
