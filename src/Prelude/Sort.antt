-- ===== src/Prelude/Sort.antt =====
-- `sorted` as insertion, under a Boolean order, and how many elements pass a test.
use Prim.Native.Nat.{ℕ, zero, suc, ◌+◌, ◌≤◌, ◌<◌}
use mathlib.Core.Path.{◌≡◌, refl, ap, ◌∙◌}
use mathlib.Core.Logic.{◌⊎◌, inl, inr}
use mathlib.Core.Bool.{Bool, true, false}
use mathlib.Core.List.{List, [], ◌∷◌}
use native.Mathlib.Omega.{arith}
use uart2llm.Prelude.Tests.{if◌then◌else◌, Bool-cases}
use uart2llm.Prelude.Lists.{length, All}

module _ {ℓ} {A : Type ℓ} where
  abbrev pub count : (A → Bool) → List A → ℕ
  count p [] = 0
  count p (x ∷ xs) = (if p x then 1 else 0) + count p xs

  -- `xs[i]`, or `d` out of range
  abbrev pub get_or : List A → ℕ → A → A
  get_or [] i d = d
  get_or (x ∷ xs) zero d = x
  get_or (x ∷ xs) (suc i) d = get_or xs i d

-- A total preorder of the elements that pass the test.
pub record IsOrder {ℓ} {A : Type ℓ} (proper : A → Bool) (le : A → A → Bool) : Type ℓ where
  pub total : (x y : A) → proper x ≡ true → proper y ≡ true → (le x y ≡ true) ⊎ (le y x ≡ true)
  pub trans :
      (x y z : A)
      → proper x ≡ true
      → proper y ≡ true
      → proper z ≡ true
      → le x y ≡ true
      → le y z ≡ true
      → le x z ≡ true

module _ {ℓ} {A : Type ℓ} (le : A → A → Bool) where
  pub insert_sorted : A → List A → List A
  insert_sorted x [] = x ∷ []
  insert_sorted x (y ∷ ys) = if le x y then x ∷ (y ∷ ys) else y ∷ insert_sorted x ys

  unfoldable pub sort : List A → List A
  unfolding insert_sorted
  sort [] = []
  sort (x ∷ xs) = insert_sorted x (sort xs)

  abbrev pub IsSorted : List A → Type ℓ
  IsSorted [] = Unit
  IsSorted (x ∷ xs) = All (λ y. le x y ≡ true) xs × IsSorted xs

  count-insert_sorted :
      (p : A → Bool) (x : A) (xs : List A) → count p (insert_sorted x xs) ≡ count p (x ∷ xs)
  unfolding insert_sorted
  count-insert_sorted p x [] = refl
  count-insert_sorted p x (y ∷ ys) = elim (Bool-cases (le x y)) [
    | inl e ↦ rw e
    | inr e ↦ rw e (omega (arith, count-insert_sorted p x ys))
  ]

  pub count-sort : (p : A → Bool) (xs : List A) → count p (sort xs) ≡ count p xs
  unfolding sort
  count-sort p [] = refl
  count-sort p (x ∷ xs) =
      count-insert_sorted p x (sort xs) ∙ ap (λ n. (if p x then 1 else 0) + n) (count-sort p xs)

  length-insert_sorted : (x : A) (xs : List A) → length (insert_sorted x xs) ≡ suc (length xs)
  unfolding insert_sorted
  length-insert_sorted x [] = refl
  length-insert_sorted x (y ∷ ys) = elim (Bool-cases (le x y)) [
    | inl e ↦ rw e
    | inr e ↦ rw e (ap suc (length-insert_sorted x ys))
  ]

  pub length-sort : (xs : List A) → length (sort xs) ≡ length xs
  unfolding sort
  length-sort [] = refl
  length-sort (x ∷ xs) = length-insert_sorted x (sort xs) ∙ ap suc (length-sort xs)

  module _ (proper : A → Bool) (order : IsOrder proper le) where
    abbrev pub AllProper : List A → Type 0
    AllProper = All (λ x. proper x ≡ true)

    All-trans :
        (x y : A) (ys : List A)
        → proper x ≡ true
        → proper y ≡ true
        → AllProper ys
        → le x y ≡ true
        → All (λ z. le y z ≡ true) ys
        → All (λ z. le x z ≡ true) ys
    All-trans x y [] p q ps e all = tt
    All-trans x y (z ∷ ys) p q (r, ps) e (first, more) =
        (order.trans x y z p q r e first, All-trans x y ys p q ps e more)

    All-insert_sorted :
        (P : A → Type 0) (x : A) (ys : List A) → P x → All P ys → All P (insert_sorted x ys)
    unfolding insert_sorted
    All-insert_sorted P x [] e all = (e, tt)
    All-insert_sorted P x (y ∷ ys) e (first, more) = elim (Bool-cases (le x y)) [
      | inl c ↦ rw c (e, (first, more))
      | inr c ↦ rw c (first, All-insert_sorted P x ys e more)
    ]

    other_way : (x y : A) → proper x ≡ true → proper y ≡ true → le x y ≡ false → le y x ≡ true
    other_way x y p q e = elim (order.total x y p q) [ inl p ↦ cc | inr q ↦ q ]

    insert_sorted-IsSorted :
        (x : A) (xs : List A)
        → proper x ≡ true
        → AllProper xs
        → IsSorted xs
        → IsSorted (insert_sorted x xs)
    unfolding insert_sorted
    insert_sorted-IsSorted x [] p ps s = (tt, tt)
    insert_sorted-IsSorted x (y ∷ ys) p (q, ps) (first, more) = elim (Bool-cases (le x y)) [
      | inl c ↦ rw c ((c, All-trans x y ys p q ps c first), (first, more))
      | inr c ↦ rw c (
        All-insert_sorted (λ z. le y z ≡ true) x ys (other_way x y p q c) first,
        insert_sorted-IsSorted x ys p ps more,
      )
    ]

    pub sort-AllProper : (xs : List A) → AllProper xs → AllProper (sort xs)
    unfolding sort
    sort-AllProper [] ps = tt
    sort-AllProper (x ∷ xs) (p, ps) =
        All-insert_sorted (λ z. proper z ≡ true) x (sort xs) p (sort-AllProper xs ps)

    pub sort-IsSorted : (xs : List A) → AllProper xs → IsSorted (sort xs)
    unfolding sort
    sort-IsSorted [] ps = tt
    sort-IsSorted (x ∷ xs) (p, ps) =
        insert_sorted-IsSorted x (sort xs) p (sort-AllProper xs ps) (sort-IsSorted xs ps)

    pub reflexive : (x : A) → proper x ≡ true → le x x ≡ true
    reflexive x p = elim (order.total x x p p) [ inl e ↦ e | inr e ↦ e ]

    All-get_or :
        (P : A → Bool) (xs : List A) (i : ℕ) (d : A)
        → All (λ y. P y ≡ true) xs
        → i < length xs
        → P (get_or xs i d) ≡ true
    All-get_or P [] i d all h = elim h [ ]
    All-get_or P (x ∷ xs) zero d (first, more) h = first
    All-get_or P (x ∷ xs) (suc i) d (first, more) h = All-get_or P xs i d more (omega arith)

    -- In a sorted list at least i + 1 elements are at most the one at i.
    pub count_up_to :
        (xs : List A) (i : ℕ) (d : A)
        → AllProper xs
        → IsSorted xs
        → i < length xs
        → suc i ≤ count (λ x. le x (get_or xs i d)) xs
    count_up_to [] i d ps s h = elim h [ ]
    count_up_to (x ∷ xs) zero d (p, ps) s h = rw (reflexive x p) (omega arith)
    count_up_to (x ∷ xs) (suc i) d (p, ps) (first, more) h =
        rw (All-get_or (le x) xs i d first (omega arith))
          (omega (arith, count_up_to xs i d ps more (omega arith)))
