-- ===== src/Acceptance/Stream/Lines.antt =====
-- Reading a byte string line by line, against the list of all its lines.
use uart2llm.Prelude.{
  ℕ, zero, suc, ◌<◌, ◌≡◌, ◌≢◌, refl, true, false, List, [], ◌∷◌, ◌++◌, arith, inl, inr, Bool-cases,
  length, ◌==◌, if◌then◌else◌,
}
use uart2llm.Acceptance.Stream.{readline}

-- A byte goes in front of the first line.
pub prepend : ℕ → List (List ℕ) → List (List ℕ)
prepend c [] = (c ∷ []) ∷ []
prepend c (line ∷ lines) = (c ∷ line) ∷ lines

-- All lines, each with its newline; the last may lack it.
unfoldable pub split_lines : List ℕ → List (List ℕ)
unfolding prepend
split_lines [] = []
split_lines (c ∷ s) =
    let rest = split_lines s in if c == 10 then (c ∷ []) ∷ rest else prepend c rest

pub readline-append : (n : ℕ) (s : List ℕ) → (readline n s).0 ++ (readline n s).1 ≡ s
unfolding readline
readline-append zero s = refl
readline-append (suc n) [] = refl
readline-append (suc n) (c ∷ s) = ground (arith, readline-append n s)

-- Some of what is there is read.
pub readline_progress : (n : ℕ) (s : List ℕ) → length (readline (suc n) s).0 ≡ 0 → s ≡ []
unfolding readline
readline_progress n [] h = refl
readline_progress n (c ∷ s) h = ground arith

readline-nil : (n : ℕ) → readline n [] ≡ ([], [])
unfolding readline
readline-nil zero = refl
readline-nil (suc n) = refl

prepend-split_lines :
    (c n : ℕ) (s : List ℕ)
    → (s ≢ [] → split_lines s ≡ (readline n s).0 ∷ split_lines (readline n s).1)
    → prepend c (split_lines s) ≡ (c ∷ (readline n s).0) ∷ split_lines (readline n s).1
unfolding prepend
prepend-split_lines c n [] h = rw readline-nil (unfold split_lines in refl)
prepend-split_lines c n (d ∷ s) h = rw (h (λ p. cc))

rest_shorter :
    (n c : ℕ) (s : List ℕ)
    → (c == 10) ≡ false
    → length (readline (suc n) (c ∷ s)).0 < suc n
    → length (readline n s).0 < n
unfolding readline
rest_shorter n c s e h = ground arith

-- A line that did not fill the limit is the first of all lines.
pub split_lines-readline :
    (n : ℕ) (s : List ℕ)
    → length (readline n s).0 < n
    → s ≢ []
    → split_lines s ≡ (readline n s).0 ∷ split_lines (readline n s).1
unfolding readline split_lines
split_lines-readline zero s h some_left = elim h [ ]
split_lines-readline (suc n) [] h some_left = absurd (some_left refl)
split_lines-readline (suc n) (c ∷ s) h some_left = elim (Bool-cases (c == 10)) [
  | inl e ↦ rw e
  | inr e ↦ rw e (prepend-split_lines c n s (split_lines-readline n s (rest_shorter n c s e h)))
]

-- The first line, where there is one, is shorter than n.
abbrev pub FirstShorter : ℕ → List (List ℕ) → Type 0
FirstShorter n [] = Unit
FirstShorter n (line ∷ lines) = length line < n

FirstShorter-prepend :
    (n c : ℕ) (lines : List (List ℕ))
    → FirstShorter (suc n) (prepend c lines)
    → FirstShorter n lines
unfolding prepend
FirstShorter-prepend n c [] h = tt
FirstShorter-prepend n c (line ∷ lines) h = omega arith

not_FirstShorter-prepend : (c : ℕ) (lines : List (List ℕ)) → ¬ FirstShorter 1 (prepend c lines)
unfolding prepend
not_FirstShorter-prepend c [] h = omega arith
not_FirstShorter-prepend c (line ∷ lines) h = omega arith

-- A line that is shorter than the limit is read in full.
pub readline_short :
    (n : ℕ) (s : List ℕ)
    → FirstShorter (suc n) (split_lines s)
    → length (readline (suc n) s).0 < suc n
unfolding readline split_lines
readline_short n [] h = omega arith
readline_short zero (c ∷ s) h = elim (Bool-cases (c == 10)) [
  | inl e ↦ absurd (single e h)
  | inr e ↦ absurd (not_FirstShorter-prepend c (split_lines s) (more e h))
]
  where
    single :
        (c == 10) ≡ true
        → FirstShorter 1 (if c == 10 then (c ∷ []) ∷ split_lines s else prepend c (split_lines s))
        → ⊥
    single e = rw e (λ h. omega arith)

    more :
        (c == 10) ≡ false
        → FirstShorter 1 (if c == 10 then (c ∷ []) ∷ split_lines s else prepend c (split_lines s))
        → FirstShorter 1 (prepend c (split_lines s))
    more e = rw e (λ h. h)
readline_short (suc n) (c ∷ s) h = elim (Bool-cases (c == 10)) [
  | inl e ↦ rw e (omega arith)
  | inr e ↦ rw e (
      omega (arith, readline_short n s (FirstShorter-prepend (suc n) c (split_lines s) (more e h))))
]
  where
    more :
        (c == 10) ≡ false
        → FirstShorter
            (suc (suc n))
            (if c == 10 then (c ∷ []) ∷ split_lines s else prepend c (split_lines s))
        → FirstShorter (suc (suc n)) (prepend c (split_lines s))
    more e = rw e (λ h. h)
