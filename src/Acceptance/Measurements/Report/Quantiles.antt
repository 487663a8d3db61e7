-- ===== src/Acceptance/Measurements/Report/Quantiles.antt =====
-- What `distribution` says of the samples that it was given.
use uart2llm.Prelude.{
  suc, ◌-◌, ◌*◌, ◌≤◌, ◌≡◌, refl, sym, ◌∙◌, Bool, true, some, List, [], ◌∷◌, arith, length, All,
  Bool-cases, inl, inr,
}
use mathlib.Core.Path.{subst}
use mathlib.Core.Option.{some-injective}
use uart2llm.Prelude.Sort.{
  sort, reflexive, sort-AllProper, get_or, count, IsOrder, IsSorted, sort-IsSorted, count-sort,
  length-sort, count_up_to,
}
use uart2llm.Python.Float.{Float, Arithmetic, is_finite}
use uart2llm.Acceptance.Measurements.Report.{Distribution, p95_index, le, describe, distribution}

module _ (fl : Arithmetic) (order : IsOrder is_finite (le fl)) where
  count-le-length : (p : Float → Bool) (xs : List Float) → count p xs ≤ length xs
  count-le-length p [] = omega arith
  count-le-length p (x ∷ xs) = elim (Bool-cases (p x)) [
    | inl e ↦ rw e (omega (arith, count-le-length p xs))
    | inr e ↦ rw e (omega (arith, count-le-length p xs))
  ]

  count-All :
      (p : Float → Bool) (xs : List Float) → All (λ y. p y ≡ true) xs → count p xs ≡ length xs
  count-All p [] h = refl
  count-All p (x ∷ xs) (now, later) = rw now (omega (arith, count-All p xs later))

  -- What `distribution` promises of a list of samples.
  abbrev pub Describes : List Float → Distribution → Type 0
  Describes xs d =
      (d.samples ≡ length xs)
      × (19 * length xs ≤ 20 * count (λ x. le fl x d.p95_seconds) xs)
      × (count (λ x. le fl x d.max_seconds) xs ≡ length xs)
      × (count (λ x. le fl d.min_seconds x) xs ≡ length xs)

  Describes-sorted :
      (ordered : List Float) (d : Distribution)
      → All (λ x. is_finite x ≡ true) ordered
      → IsSorted (le fl) ordered
      → describe fl ordered ≡ some d
      → Describes ordered d
  unfolding describe
  Describes-sorted [] d proper sorted h = cc
  Describes-sorted (x ∷ xs) d proper sorted h =
      let n = suc (length xs) in
      let p95 =
        count_up_to (le fl) is_finite order (x ∷ xs) (p95_index n) 0 proper sorted (omega arith) in
      let top =
        count_up_to (le fl) is_finite order (x ∷ xs) (n - 1) 0 proper sorted (omega arith) in
      subst (Describes (x ∷ xs)) (some-injective _ _ h) (
        refl,
        omega arith,
        omega (arith, count-le-length (λ y. le fl y (get_or (x ∷ xs) (n - 1) 0)) (x ∷ xs)),
        count-All (le fl x) (x ∷ xs) (reflexive (le fl) is_finite order x proper.0, sorted.0),
      )

  -- If `<` orders the finite floats as a total preorder, then the distribution of some finite samples
  -- counts them all, no sample lies outside its minimum and maximum, and at least 95 in 100 samples
  -- are at most its 95th percentile.
  pub distribution-Describes :
      (samples : List Float) (d : Distribution)
      → All (λ x. is_finite x ≡ true) samples
      → distribution fl samples ≡ some d
      → Describes samples d
  unfolding distribution
  distribution-Describes samples d proper h =
      let s =
        Describes-sorted (sort (le fl) samples) d
          (sort-AllProper (le fl) is_finite order samples proper)
          (sort-IsSorted (le fl) is_finite order samples proper) h in
      let n = length-sort (le fl) samples in
      (
        s.0 ∙ n,
        omega (arith, s.1, n, count-sort (le fl) (λ x. le fl x d.p95_seconds) samples),
        sym (count-sort (le fl) (λ x. le fl x d.max_seconds) samples) ∙ s.2 ∙ n,
        sym (count-sort (le fl) (λ x. le fl d.min_seconds x) samples) ∙ s.3 ∙ n,
      )
