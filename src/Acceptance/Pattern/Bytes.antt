-- ===== src/Acceptance/Pattern/Bytes.antt =====
-- The endless fixture stream, whose byte at offset n is n % 251, as the specification of
-- scripts/acceptance.py's `PATTERN` and of what `PatternBody` cuts from it.
use uart2llm.Prelude.{
  ℕ, zero, suc, ◌+◌, ◌-◌, ◌*◌, ◌%◌, ◌≤◌, ◌<◌, ◌≡◌, refl, ap, ◌∙◌, List, [], ◌∷◌, ◌++◌, arith, take,
  drop, length,
}
use uart2llm.Acceptance.Pattern.{range_from, repeat, pattern_bytes}

unfoldable pub fixture_bytes : ℕ → ℕ → List ℕ
fixture_bytes a zero = []
fixture_bytes a (suc n) = (a % 251) ∷ fixture_bytes (suc a) n

pub length-fixture_bytes : (a n : ℕ) → length (fixture_bytes a n) ≡ n
unfolding fixture_bytes
length-fixture_bytes a zero = refl
length-fixture_bytes a (suc n) = ap suc (length-fixture_bytes (suc a) n)

pub same_bytes : (a b m n : ℕ) → a % 251 ≡ b % 251 → m ≡ n → fixture_bytes a m ≡ fixture_bytes b n
unfolding fixture_bytes
same_bytes a b zero zero p q = refl
same_bytes a b zero (suc n) p q = absurd (omega arith)
same_bytes a b (suc m) zero p q = absurd (omega arith)
same_bytes a b (suc m) (suc n) p q =
    cc (p, same_bytes (suc a) (suc b) m n (omega arith) (omega arith))

pub fixture_bytes-append :
    (a m n : ℕ) → fixture_bytes a m ++ fixture_bytes (a + m) n ≡ fixture_bytes a (m + n)
unfolding fixture_bytes
fixture_bytes-append a zero n = same_bytes _ _ _ _ (omega arith) (omega arith)
fixture_bytes-append a (suc m) n =
    ap (λ t. (a % 251) ∷ t)
      (ap (λ t. fixture_bytes (suc a) m ++ t)
          (same_bytes (a + suc m) (suc a + m) n n (omega arith) (omega arith))
        ∙ fixture_bytes-append (suc a) m n)
    ∙ same_bytes a a (suc (m + n)) (suc m + n) (omega arith) (omega arith)

drop-fixture_bytes : (k a n : ℕ) → drop k (fixture_bytes a n) ≡ fixture_bytes (a + k) (n - k)
unfolding fixture_bytes
drop-fixture_bytes zero a n = same_bytes _ _ _ _ (omega arith) (omega arith)
drop-fixture_bytes (suc k) a zero =
    same_bytes (a + suc k) (a + suc k) 0 (0 - suc k) refl (omega arith)
drop-fixture_bytes (suc k) a (suc n) =
    drop-fixture_bytes k (suc a) n ∙ same_bytes _ _ _ _ (omega arith) (omega arith)

take-fixture_bytes : (k a n : ℕ) → k ≤ n → take k (fixture_bytes a n) ≡ fixture_bytes a k
unfolding fixture_bytes
take-fixture_bytes zero a n h = refl
take-fixture_bytes (suc k) a zero h = elim h [ ]
take-fixture_bytes (suc k) a (suc n) h =
    ap (λ t. (a % 251) ∷ t) (take-fixture_bytes k (suc a) n (omega arith))

mod_small : (a : ℕ) → a < 251 → a % 251 ≡ a
mod_small a h = omega arith

range_from-eq : (a n : ℕ) → a + n ≤ 251 → range_from a n ≡ fixture_bytes a n
unfolding range_from fixture_bytes
range_from-eq a zero h = refl
range_from-eq a (suc n) h = cc (mod_small a (omega arith), range_from-eq (suc a) n (omega arith))

repeat-eq : (k : ℕ) → repeat k (range_from 0 251) ≡ fixture_bytes 0 (k * 251)
unfolding repeat fixture_bytes
repeat-eq zero = same_bytes 0 0 0 (0 * 251) refl (omega arith)
repeat-eq (suc k) =
    cc (range_from-eq 0 251 (omega arith), repeat-eq k)
    ∙ ap (λ t. fixture_bytes 0 251 ++ t) (same_bytes 0 (0 + 251) (k * 251) (k * 251) refl refl)
    ∙ fixture_bytes-append 0 251 (k * 251)
    ∙ same_bytes 0 0 (251 + k * 251) (suc k * 251) refl (omega arith)

-- Every slice that `PatternBody.read` takes lies inside `PATTERN`.
pub pattern_slice :
    (start count : ℕ)
    → start + count ≤ 263 * 251
    → take count (drop start pattern_bytes) ≡ fixture_bytes start count
unfolding pattern_bytes
pattern_slice start count h =
    rw (repeat-eq 263, drop-fixture_bytes)
      (take-fixture_bytes count (0 + start) (263 * 251 - start) (omega arith)
        ∙ same_bytes _ _ _ _ (omega arith) refl)
