-- ===== src/Python/Dict.antt =====
-- Python's `dict` with text keys, as a list of entries in insertion order, and `deque(maxlen=k)`.
use uart2llm.Prelude.{
  ℕ, zero, suc, ◌+◌, ◌-◌, ◌≤◌, ◌≡◌, refl, sym, ap, ◌∙◌, String, Option, none, some, List, [], ◌∷◌,
  ◌++◌, arith, str_eq, eq_iff, if◌then◌else◌, length, drop, length-append, length-drop,
}

module _ {ℓ} {V : Type ℓ} where
  -- `d.get(key)`
  unfoldable pub lookup : String → List (String × V) → Option V
  lookup key [] = none
  lookup key (entry ∷ entries) = if str_eq entry.0 key then some entry.1 else lookup key entries

  -- `d[key] = value`; a key that is new comes last.
  unfoldable pub insert : String → V → List (String × V) → List (String × V)
  insert key value [] = (key, value) ∷ []
  insert key value (entry ∷ entries) =
      if str_eq entry.0 key then (key, value) ∷ entries else entry ∷ insert key value entries

  abbrev pub value_or : V → Option V → V
  value_or default none = default
  value_or default (some value) = value

  pub lookup-insert :
      (key other : String) (value : V) (entries : List (String × V))
      → lookup other (insert key value entries)
        ≡ (if str_eq key other then some value else lookup other entries)
  unfolding insert lookup
  lookup-insert key other value [] = refl
  lookup-insert key other value ((k, v) ∷ entries) =
      ground (
        lookup-insert key other value entries,
        eq_iff k other,
        eq_iff key other,
        eq_iff k key,
        arith,
      )

module _ {ℓ} {A : Type ℓ} where
  -- The last k elements.
  abbrev pub last : ℕ → List A → List A
  last k xs = drop (length xs - k) xs

  -- `append` on a deque with `maxlen=k`
  unfoldable pub push : ℕ → A → List A → List A
  push k x xs = last k (xs ++ x ∷ [])

  drop-append : (n : ℕ) (xs ys : List A) → n ≤ length xs → drop n (xs ++ ys) ≡ drop n xs ++ ys
  drop-append zero xs ys h = refl
  drop-append (suc n) [] ys h = elim h [ ]
  drop-append (suc n) (x ∷ xs) ys h = drop-append n xs ys (omega arith)

  drop-nil : (m : ℕ) → drop {A = A} m [] ≡ []
  drop-nil zero = refl
  drop-nil (suc m) = refl

  drop-drop : (m n : ℕ) (xs : List A) → drop m (drop n xs) ≡ drop (n + m) xs
  drop-drop m zero xs = ap (λ n. drop n xs) (omega arith)
  drop-drop m (suc n) [] = drop-nil m ∙ sym (drop-nil (suc n + m))
  drop-drop m (suc n) (x ∷ xs) =
      let shift : suc (n + m) ≡ suc n + m = omega arith in
      drop-drop m n xs ∙ ap (λ t. drop t (x ∷ xs)) shift

  -- A bounded deque holds the end of all that was appended.
  pub push-last : (k : ℕ) (x : A) (xs : List A) → push k x (last k xs) ≡ last k (xs ++ x ∷ [])
  unfolding push
  push-last k x xs =
      let d = length xs - k in
      ap (λ n. drop (n - k) (drop d xs ++ x ∷ [])) (length-append (drop d xs) (x ∷ []))
      ∙ ap (drop (length (drop d xs) + 1 - k)) (sym (drop-append d xs (x ∷ []) (omega arith)))
      ∙ drop-drop (length (drop d xs) + 1 - k) d (xs ++ x ∷ [])
      ∙ ap (λ n. drop n (xs ++ x ∷ [])) (omega (arith, length-append xs (x ∷ []), length-drop d xs))

  pub length-push : (k : ℕ) (x : A) (xs : List A) → length (push k x xs) ≤ k
  unfolding push
  length-push k x xs = omega (arith, length-drop (length (xs ++ x ∷ []) - k) (xs ++ x ∷ []))

pub lookup-nil {ℓ} : {V : Type ℓ} (k : String) → lookup {V = V} k [] ≡ none
unfolding lookup
lookup-nil k = refl
