-- ===== src/Prelude/Words.antt =====
-- Unsigned machine words as native numbers below a power of two; arithmetic wraps by `%`.
use Prim.Native.Nat.{ℕ, ◌+◌, ◌-◌, ◌%◌, ◌^◌}

abbrev pub u8 : ℕ → ℕ
u8 n = n % 2 ^ 8

abbrev pub u16 : ℕ → ℕ
u16 n = n % 2 ^ 16

abbrev pub u32 : ℕ → ℕ
u32 n = n % 2 ^ 32

abbrev pub u64 : ℕ → ℕ
u64 n = n % 2 ^ 64

-- `a - b` of two uint64_t
abbrev pub sub_u64 : ℕ → ℕ → ℕ
sub_u64 a b = u64 (a + 2 ^ 64 - b)

-- `a - b` of two uint32_t
abbrev pub sub_u32 : ℕ → ℕ → ℕ
sub_u32 a b = u32 (a + 2 ^ 32 - b)

-- `~0ull`
abbrev pub all_ones : ℕ
all_ones = 2 ^ 64 - 1

-- `uint16_t(~0u)`
abbrev pub all_ones_16 : ℕ
all_ones_16 = 2 ^ 16 - 1
