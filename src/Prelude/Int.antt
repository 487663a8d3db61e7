-- ===== src/Prelude/Int.antt =====
-- Python's integers, over the native numbers; `negsuc n` is -(n + 1).
use Prim.Native.Nat.{ℕ, suc, ◌-◌, min}
use mathlib.Core.List.{List}
use uart2llm.Prelude.Lists.{length, take, drop}

pub data ℤ : Type 0 where
  pos : ℕ → ℤ
  negsuc : ℕ → ℤ

-- `max(0, n)`
abbrev pub pos_part : ℤ → ℕ
pos_part (pos n) = n
pos_part (negsuc n) = 0

-- `min(k, n)` for a natural `k`
abbrev pub min_ℤ : ℕ → ℤ → ℤ
min_ℤ k (pos n) = pos (min k n)
min_ℤ k (negsuc n) = negsuc n

module _ {ℓ} {A : Type ℓ} where
  -- `s[:n]`; a negative bound counts from the end
  abbrev pub slice_to : ℤ → List A → List A
  slice_to (pos n) s = take n s
  slice_to (negsuc n) s = take (length s - suc n) s

  -- `s[n:]`
  abbrev pub slice_from : ℤ → List A → List A
  slice_from (pos n) s = drop n s
  slice_from (negsuc n) s = drop (length s - suc n) s
