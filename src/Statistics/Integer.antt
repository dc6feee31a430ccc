-- ===== src/Statistics/Integer.antt =====
-- Signed 64-bit integers, as far as the statistics use them.
use Prim.Native.Nat.{min}
use voya_vpn.Base.{ℤ, pos, negsuc, Le, ℕ, suc, ◌+◌, ◌-◌, ◌^◌, leb, if◌then◌else◌, arith}

abbrev pub i64_max : ℕ
i64_max = 2 ^ 63 - 1

-- `max(0)`.
unfoldable pub max_zero : ℤ → ℕ
max_zero (pos n) = n
max_zero (negsuc n) = 0

-- `saturating_add` of a number that is not negative.
unfoldable pub saturating_add : ℤ → ℕ → ℤ
saturating_add (pos a) n = pos (min (a + n) i64_max)
saturating_add (negsuc a) n = if leb n a then negsuc (a - n) else pos (min (n - suc a) i64_max)

pub saturating_add-Le : (a b : ℤ) (n : ℕ) → Le a b → Le (saturating_add a n) (saturating_add b n)
unfolding saturating_add
saturating_add-Le (pos a) (pos b) n h = omega arith
saturating_add-Le (negsuc a) (pos b) n h = ground arith
saturating_add-Le (negsuc a) (negsuc b) n h = ground arith
saturating_add-Le (pos a) (negsuc b) n h = absurd h

pub saturating_add_ge : (a : ℤ) (n : ℕ) → Le (pos 0) a → Le (pos 0) (saturating_add a n)
unfolding saturating_add
saturating_add_ge (pos a) n h = omega arith
saturating_add_ge (negsuc a) n h = absurd h
