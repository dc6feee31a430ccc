-- ===== src/Statistics/Reconnect/Laws.antt =====
-- The bounds of the waiting time.
use Prim.Native.Nat.{min}
use native.Mathlib.Omega.{mod_fact}
use voya_vpn.Base.{
  ℕ, zero, suc, ◌+◌, ◌-◌, ◌*◌, ◌/◌, ◌%◌, ◌^◌, ◌≤◌, ◌≡◌, refl, ◌==◌, if◌then◌else◌, arith,
}
use voya_vpn.Statistics.Reconnect.{
  duration_max, reconnect_jitter, base_delay, websocket_reconnect_delay,
}

reconnect_jitter_le : (base seed : ℕ) → reconnect_jitter base seed ≤ base / 4
unfolding reconnect_jitter
reconnect_jitter_le base seed = by_limit (min (base / 4) (2 ^ 64 - 1)) refl
  where
    by_limit :
        (limit : ℕ)
        → min (base / 4) (2 ^ 64 - 1) ≡ limit
        → (if limit == 0 then 0 else seed % (limit + 1)) ≤ base / 4
    by_limit zero e = omega arith
    by_limit (suc k) e = let h = mod_fact seed (suc k) in ground (arith, h)

base_delay_lem :
    (attempt initial max : ℕ)
    → max ≤ duration_max
    → base_delay attempt initial max ≡ min max (initial * 2 ^ min attempt 16)
unfolding base_delay
base_delay_lem attempt initial max h = ground arith

-- The delay before jitter: the initial one, doubled by each attempt up to the sixteenth, and cut off at
-- the maximum.
abbrev pub doubled : ℕ → ℕ → ℕ → ℕ
doubled attempt initial max = min max (initial * 2 ^ min attempt 16)

-- Whatever the seed, the waiting time is at least the initial delay, doubled by each attempt up to the
-- sixteenth and cut off at the maximum, and exceeds that by a quarter of it at most; where that is
-- too long to be represented, the longest duration stands for it. The maximum is a duration itself.
pub websocket_reconnect_delay-bounds :
    (attempt initial max jitter_seed : ℕ)
    → max ≤ duration_max
    → (doubled attempt initial max ≤ websocket_reconnect_delay attempt initial max jitter_seed)
      × (websocket_reconnect_delay attempt initial max jitter_seed
          ≤ doubled attempt initial max + doubled attempt initial max / 4)
      × (websocket_reconnect_delay attempt initial max jitter_seed ≤ duration_max)
unfolding websocket_reconnect_delay
websocket_reconnect_delay-bounds attempt initial max jitter_seed h =
    let e = base_delay_lem attempt initial max h in
    let j = reconnect_jitter_le (base_delay attempt initial max) jitter_seed in
    (omega (arith, e, h), omega (arith, e, j), omega arith)
