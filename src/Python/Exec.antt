-- ===== src/Python/Exec.antt =====
-- Methods that change an object and may raise; what was changed before a raise stays changed.
use uart2llm.Python.Error.{Result, ok, raise}

abbrev pub Exec : Type 0 → Type 0 → Type 0
Exec S A = S → Result A × S

module _ {S A : Type 0} where
  -- `try: m finally: cleanup`
  abbrev pub finally : Exec S A → (S → S) → Exec S A
  finally m cleanup object = ((m object).0, cleanup (m object).1)

  abbrev pub lift : Result A → Exec S A
  lift outcome = λ object. (outcome, object)

  abbrev pub pure : A → Exec S A
  pure value = lift (ok value)

module _ {S A B : Type 0} where
  -- The rest of a method, on the object as the first part left it.
  abbrev pub continue : Result A → (A → Exec S B) → Exec S B
  continue (raise problem) rest object = (raise problem, object)
  continue (ok value) rest object = rest value object

  infixl 10 ◌>>=◌ ◌>>◌
  abbrev pub ◌>>=◌ : Exec S A → (A → Exec S B) → Exec S B
  ◌>>=◌ part rest object = continue (part object).0 rest (part object).1

  abbrev pub ◌>>◌ : Exec S A → Exec S B → Exec S B
  part >> rest = part >>= λ value. rest
