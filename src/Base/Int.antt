-- ===== src/Base/Int.antt =====
-- Signed integers over the native numbers, as far as the program compares and doubles them.
use jobsys.Base.{ℕ, ◌+◌, ◌*◌, ◌-◌, ◌^◌, ◌%◌, Bool, true, false, ltb, leb, ◌==◌, if◌then◌else◌}

-- `negsuc n` is -(n + 1).
pub data ℤ : Type 0 where
  pos : ℕ → ℤ
  negsuc : ℕ → ℤ

-- The number, or 0 where it is negative.
abbrev pub pos_part : ℤ → ℕ
pos_part (pos n) = n
pos_part (negsuc n) = 0

abbrev pub ltbℤ : ℤ → ℤ → Bool
ltbℤ (pos a) (pos b) = ltb a b
ltbℤ (pos a) (negsuc b) = false
ltbℤ (negsuc a) (pos b) = true
ltbℤ (negsuc a) (negsuc b) = ltb b a

abbrev pub eqℤ : ℤ → ℤ → Bool
eqℤ (pos a) (pos b) = a == b
eqℤ (negsuc a) (negsuc b) = a == b
eqℤ _ _ = false

-- d *= 2 on an int64, which wraps around.
abbrev pub double64 : ℤ → ℤ
double64 (pos n) = if ltb (2 * n) (2 ^ 63) then pos (2 * n) else negsuc (2 ^ 64 - 2 * n - 1)
double64 (negsuc n) =
    if leb (2 * n + 2) (2 ^ 63) then negsuc (2 * n + 1) else pos (2 ^ 64 - (2 * n + 2))

-- The int64 with a number's low 64 bits.
abbrev pub wrap64 : ℕ → ℤ
wrap64 n = if ltb (n % 2 ^ 64) (2 ^ 63) then pos (n % 2 ^ 64) else negsuc (2 ^ 64 - n % 2 ^ 64 - 1)

-- 3 * d on an int64.
abbrev pub triple64 : ℤ → ℤ
triple64 (pos n) = wrap64 (3 * n)
triple64 (negsuc n) = wrap64 (3 * (2 ^ 64 - (n + 1)))
