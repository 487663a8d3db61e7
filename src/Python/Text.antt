-- ===== src/Python/Text.antt =====
-- Text as a list of code points: substrings, `lower`, and the class tests of the scripts' patterns.
use uart2llm.Prelude.{
  ℕ, ◌+◌, Bool, true, false, List, [], ◌∷◌, ◌++◌, ◌&&◌, ◌||◌, ltb, leb, ◌==◌, if◌then◌else◌, String,
  ◌≡◌, sym, any, All, str_eq, eq_iff, Bool-cases, inl, inr,
}
use mathlib.Core.Path.{subst}
use mathlib.Core.List.{reverse}

-- What holds of every listed text holds of a text that is in the list.
pub any_eq :
    (P : String → Type 0) (k : String) (xs : List String)
    → any (str_eq k) xs ≡ true
    → All P xs
    → P k
any_eq P k [] h all = cc
any_eq P k (x ∷ xs) h (now, later) = elim (Bool-cases (str_eq k x)) [
  | inl e ↦ subst P (sym ((eq_iff k x).0 e)) now
  | inr e ↦ any_eq P k xs (rw e at h) later
]

-- `s.startswith(p)`
abbrev pub starts_with : List ℕ → List ℕ → Bool
starts_with [] s = true
starts_with (c ∷ p) [] = false
starts_with (c ∷ p) (d ∷ s) = c == d && starts_with p s

-- `p in s`
unfoldable pub occurs_in : List ℕ → List ℕ → Bool
occurs_in p [] = starts_with p []
occurs_in p (c ∷ s) = starts_with p (c ∷ s) || occurs_in p s

-- `s.lower()`. The case of a character outside ASCII is Unicode's, and stands as a parameter. Its
-- one rule that looks at the neighbours, for the final sigma, maps to no ASCII letter either way.
module _ (lower_other : ℕ → List ℕ) where
  lower_char : ℕ → List ℕ
  lower_char c =
      if leb b'A' c && leb c b'Z'
      then (c + 32) ∷ []
      else if ltb c 128
      then c ∷ []
      else lower_other c

  unfoldable pub lower : List ℕ → List ℕ
  unfolding lower_char
  lower [] = []
  lower (c ∷ s) = lower_char c ++ lower s

-- `a == b` for byte strings
abbrev pub equal : List ℕ → List ℕ → Bool
equal [] [] = true
equal [] (d ∷ t) = false
equal (c ∷ s) [] = false
equal (c ∷ s) (d ∷ t) = c == d && equal s t

-- `s.strip()` of a byte string: the space and the codes 9 to 13 go from both ends.
abbrev is_space : ℕ → Bool
is_space c = c == 32 || (leb 9 c && leb c 13)

strip_left : List ℕ → List ℕ
strip_left [] = []
strip_left (c ∷ s) = let rest = strip_left s in if is_space c then rest else c ∷ s

unfoldable pub strip : List ℕ → List ℕ
unfolding strip_left
strip s = reverse (strip_left (reverse (strip_left s)))
