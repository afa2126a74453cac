-- ===== src/Prelude/Int.antt =====
-- Integers over the native numbers.
use Prim.Native.Nat.{ℕ, ◌+◌, ◌-◌}
use museumscraper.Prelude.Tests.{leb, if◌then◌else◌}

pub data ℤ : Type 0 where
  pos : ℕ → ℤ
  negsuc : ℕ → ℤ

-- a - b
abbrev pub sub_nat : ℕ → ℕ → ℤ
sub_nat a b = if leb b a then pos (a - b) else negsuc (b - a - 1)

-- z + a - b
abbrev pub shift : ℤ → ℕ → ℕ → ℤ
shift (pos n) a b = sub_nat (n + a) b
shift (negsuc n) a b = sub_nat a (n + 1 + b)
