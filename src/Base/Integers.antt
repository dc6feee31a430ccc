-- ===== src/Base/Integers.antt =====
-- Signed machine integers, by their values: the library's ℤ over native numbers.
use Prim.Native.Nat.{ℕ, ◌≤◌}

pub data ℤ : Type 0 where
  pos : ℕ → ℤ
  negsuc : ℕ → ℤ

abbrev pub Le : ℤ → ℤ → Type 0
Le (pos a) (pos b) = a ≤ b
Le (negsuc a) (pos b) = Unit
Le (negsuc a) (negsuc b) = b ≤ a
Le (pos a) (negsuc b) = ⊥
