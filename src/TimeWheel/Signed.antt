-- ===== src/TimeWheel/Signed.antt =====
-- timer/timewheel.go: Go's signed integers, with division and remainder that truncate.
use connaxis.Prelude.{
  ℕ, zero, suc, ◌+◌, ◌-◌, ◌/◌, ◌%◌, ◌^◌, Bool, false, ltb, ◌==◌, if◌then◌else◌, ℤ, pos, negsuc,
}

-- `-n`
unfoldable pub negated : ℕ → ℤ
negated zero = pos 0
negated (suc n) = negsuc n

-- `m - n`
unfoldable pub difference : ℕ → ℕ → ℤ
unfolding negated
difference m n = if ltb m n then negated (n - m) else pos (m - n)

unfoldable pub int_add : ℤ → ℤ → ℤ
unfolding difference
int_add (pos a) (pos b) = pos (a + b)
int_add (pos a) (negsuc b) = difference a (b + 1)
int_add (negsuc a) (pos b) = difference b (a + 1)
int_add (negsuc a) (negsuc b) = negsuc (a + b + 1)

unfoldable pub int_mod : ℤ → ℕ → ℤ
unfolding negated
int_mod (pos a) n = pos (a % n)
int_mod (negsuc a) n = negated ((a + 1) % n)

unfoldable pub int_div : ℤ → ℕ → ℤ
unfolding negated
int_div (pos a) n = pos (a / n)
int_div (negsuc a) n = negated ((a + 1) / n)

-- The bits of an int32 as a number.
unfoldable pub as_int32 : ℕ → ℤ
as_int32 n = if ltb n (2 ^ 31) then pos n else negsuc (2 ^ 32 - 1 - n)

unfoldable pub same_int : ℤ → ℤ → Bool
same_int (pos a) (pos b) = a == b
same_int (pos a) (negsuc b) = false
same_int (negsuc a) (pos b) = false
same_int (negsuc a) (negsuc b) = a == b
