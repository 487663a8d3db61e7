-- ===== src/Acceptance/Pattern.antt =====
-- scripts/acceptance.py: `PATTERN`, `PatternBody` and `pattern_hash`.
pub mod Bytes
pub mod Laws
mod Tests
use mathlib.Core.Option
use uart2llm.Prelude.{
  ℕ, String, zero, suc, ◌+◌, ◌-◌, ◌%◌, min, List, [], ◌∷◌, ◌++◌, ◌≡◌, Option, none, some, take,
  drop,
}
use uart2llm.Prelude.Int.{ℤ, pos, pos_part}

abbrev pub chunk : ℕ
chunk = 65536

-- `bytes(range(n))`, from `a` on
range_from : ℕ → ℕ → List ℕ
range_from a zero = []
range_from a (suc n) = a ∷ range_from (suc a) n

-- `block * k`
repeat : ℕ → List ℕ → List ℕ
repeat zero block = []
repeat (suc k) block = block ++ repeat k block

unfoldable pub pattern_bytes : List ℕ
unfolding range_from repeat
pattern_bytes = repeat 263 (range_from 0 251)

pub record PatternBody : Type 0 where
  pub size : ℕ
  pub offset : ℕ

abbrev pub pattern_body : ℕ → PatternBody
pattern_body size = record { size = size; offset = 0 }

-- `PatternBody.read`: the bytes, and the body with its offset moved on
unfoldable pub read : ℤ → PatternBody → List ℕ × PatternBody
read amount b =
    let count = min (min chunk (pos_part amount)) (b.size - b.offset) in
    let start = b.offset % 251 in
    (take count (drop start pattern_bytes), record b { offset = b.offset + count })

-- `hashlib.sha256()`: an object with `update` and `hexdigest`.
pub record Sha : Type 1 where
  pub State : Type 0
  pub start : State
  pub update : State → List ℕ → State
  pub hexdigest : State → String

-- Documented: repeated calls of `update` are one call with the concatenation of the arguments.
pub record Streams (h : Sha) : Type 0 where
  pub update_nil : (s : h.State) → h.update s [] ≡ s
  pub update-update :
      (s : h.State) (xs ys : List ℕ) → h.update (h.update s xs) ys ≡ h.update s (xs ++ ys)

module _ (h : Sha) where
  -- The loop `while data := source.read()`; `none` means that the fuel ran out.
  pub hash_loop : ℕ → PatternBody → h.State → Option h.State
  hash_loop zero source digest = none
  hash_loop (suc fuel) source digest =
      let (block, source') = read (pos chunk) source in
      elim block [ [] ↦ some digest | x ∷ xs ↦ hash_loop fuel source' (h.update digest (x ∷ xs)) ]

  pub pattern_hash : ℕ → Option String
  unfolding hash_loop
  pattern_hash size = Option.map h.hexdigest (hash_loop (suc size) (pattern_body size) h.start)
