-- ===== src/Python/Float.antt =====
-- Python's `float`, as the 64 bits of its IEEE 754 pattern.
use uart2llm.Prelude.{ℕ, ◌+◌, ◌-◌, ◌*◌, ◌/◌, ◌%◌, ◌^◌, Bool, false, not, ltb, ◌==◌, if◌then◌else◌}
use uart2llm.Prelude.Int.{ℤ}

abbrev pub Float : Type 0
Float = ℕ

exponent_field : Float → ℕ
exponent_field x = x / 2 ^ 52 % 2048

unfoldable pub is_negative : Float → Bool
is_negative x = x / 2 ^ 63 % 2 == 1

-- `math.isfinite`: an exponent field of ones marks an infinity or a NaN.
unfoldable pub is_finite : Float → Bool
unfolding exponent_field
is_finite x = not (exponent_field x == 2047)

significand : Float → ℕ
unfolding exponent_field
significand x = (if exponent_field x == 0 then 0 else 2 ^ 52) + x % 2 ^ 52

-- `x == n` for a natural number `n`
unfoldable pub float_is : ℕ → Float → Bool
unfolding exponent_field is_negative significand is_finite
float_is n x =
    if not (is_finite x)
    then false
    else if significand x == 0
    then n == 0
    else if is_negative x
    then false
    else if ltb (exponent_field x) 1075
    then n * 2 ^ (1075 - exponent_field x) == significand x
    else n == significand x * 2 ^ (exponent_field x - 1075)

-- The arithmetic of `float`, of which the theorems assume no law.
pub record Arithmetic : Type 0 where
  pub add : Float → Float → Float
  pub sub : Float → Float → Float
  pub mul : Float → Float → Float
  pub div : Float → Float → Float
  pub less : Float → Float → Bool
  pub of_int : ℤ → Float
  pub round3 : Float → Float
