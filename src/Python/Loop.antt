-- ===== src/Python/Loop.antt =====
-- `while True` loops: one round goes on with a new state or leaves the loop with a result. The
-- loop takes fuel; a measure that falls in every round shows how much is enough.
use uart2llm.Prelude.{ℕ, zero, suc, ◌<◌, ◌≡◌, refl, Option, none, some, arith}

pub data Round (S R : Type 0) : Type 0 where
  again : S → Round S R
  leave : R → Round S R

-- The loop ends, with a result that has the property.
abbrev pub Ends : {R : Type 0} → (R → Type 0) → Option R → Type 0
Ends {R} Q o = (r : R) × (o ≡ some r) × Q r

module _ {S R : Type 0} where
  unfoldable pub loop : (S → Round S R) → ℕ → S → Option R
  loop body zero s = none
  loop body (suc fuel) s = elim (body s) [ leave r ↦ some r | again s' ↦ loop body fuel s' ]

  -- What a round may do where `P` holds before it: go on with `P` and a smaller measure, or leave
  -- with `Q`.
  abbrev pub Goes : (S → Type 0) → (R → Type 0) → (S → ℕ) → ℕ → Round S R → Type 0
  Goes P Q measure n (again s) = P s × (measure s < n)
  Goes P Q measure n (leave r) = Q r

  loop_from :
      (P : S → Type 0) (Q : R → Type 0) (measure : S → ℕ) (body : S → Round S R) (fuel n : ℕ)
      (t : Round S R)
      → ((s : S) → P s → measure s < fuel → Ends Q (loop body fuel s))
      → Goes P Q measure n t
      → n < suc fuel
      → Ends Q (elim t [ leave r ↦ some r | again s' ↦ loop body fuel s' ])
  loop_from P Q measure body fuel n (again s) ih (h, less) enough = ih s h (omega arith)
  loop_from P Q measure body fuel n (leave r) ih h enough = (r, refl, h)

  pub loop_total :
      (P : S → Type 0) (Q : R → Type 0) (measure : S → ℕ) (body : S → Round S R)
      → ((s : S) → P s → Goes P Q measure (measure s) (body s))
      → (fuel : ℕ) (s : S) → P s
      → measure s < fuel
      → Ends Q (loop body fuel s)
  unfolding loop
  loop_total P Q measure body keep zero s h enough = absurd (omega arith)
  loop_total P Q measure body keep (suc fuel) s h enough =
      loop_from P Q measure body fuel (measure s) (body s) (loop_total P Q measure body keep fuel)
        (keep s h) enough
