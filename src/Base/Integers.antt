-- ===== src/Base/Integers.antt =====
-- Signed integers, for Go's durations.
use Prim.Native.Nat.{ℕ, ◌+◌}
use mathlib.Core.Bool.{Bool, false}
use revchat.Base.Tests.{ltb, nat_eq}

pub data ℤ : Type 0 where
  pos negsuc : ℕ → ℤ

unfoldable pub int_eq : ℤ → ℤ → Bool
int_eq (pos a) (pos b) = nat_eq a b
int_eq (negsuc a) (negsuc b) = nat_eq a b
int_eq _ _ = false

-- `0 < z`
unfoldable pub is_positive : ℤ → Bool
is_positive (pos n) = ltb 0 n
is_positive (negsuc n) = false

-- The time that a positive duration later than another is.
unfoldable pub plus_duration : ℕ → ℤ → ℕ
plus_duration now (pos n) = now + n
plus_duration now (negsuc n) = now
