-- ===== src/Ratelimit/Int64.antt =====
-- Go's int64, on which time.Duration stands: a value is its 64-bit pattern, a number below 2 ^ 64,
-- and the sign bit is the top one. Arithmetic wraps around.
use museumscraper.Prelude.{ℕ, ◌+◌, ◌-◌, ◌*◌, ◌/◌, ◌%◌, ◌^◌, Bool, ltb, if◌then◌else◌}

-- The pattern of the least value, -2 ^ 63.
abbrev pub sign_bit : ℕ
sign_bit = 2 ^ 63

abbrev pub negative : ℕ → Bool
negative a = ltb (sign_bit - 1) a

-- a < b as signed numbers: both are moved up by 2 ^ 63 first.
abbrev pub slt : ℕ → ℕ → Bool
slt a b = ltb ((a + 2 ^ 63) % 2 ^ 64) ((b + 2 ^ 63) % 2 ^ 64)

abbrev pub add64 : ℕ → ℕ → ℕ
add64 a b = (a + b) % 2 ^ 64

abbrev pub sub64 : ℕ → ℕ → ℕ
sub64 a b = (a + 2 ^ 64 - b) % 2 ^ 64

abbrev pub mul64 : ℕ → ℕ → ℕ
mul64 a b = (a * b) % 2 ^ 64

abbrev pub neg64 : ℕ → ℕ
neg64 a = (2 ^ 64 - a) % 2 ^ 64

-- Signed division by a positive constant, which rounds towards 0.
abbrev pub quot64 : ℕ → ℕ → ℕ
quot64 a k = if negative a then neg64 (neg64 a / k) else a / k
