-- ===== src/Acceptance/Measurements/Sample/Provenance.antt =====
-- Where the values that `sample` selects come from. A reading keeps `connected` and `paired` beside
-- them, as the answer has them.
use uart2llm.Prelude.{◌≡◌, String, Bool, Option, some, List, ◌∷◌, ◌⊎◌}
use uart2llm.Python.Dict
use uart2llm.Python.Error.{Result, ok, raise}
use uart2llm.Python.Float.{Float, Arithmetic}
use uart2llm.Python.Json.{Json}
use uart2llm.Acceptance.Measurements.{Number}
use uart2llm.Acceptance.Measurements.Sample.{follow, finite_number}

-- The path is one of the listed names, and the value is the finite number that stands under it.
pub data ReadFrom (state : Json) (path : String) (value : Number)
    : List (String × List String) → Type 0 where
  here :
      {p : String} {parts : List String} {rest : List (String × List String)}
      → p ≡ path
      → finite_number (follow parts state) ≡ ok (some value)
      → ReadFrom state path value ((p, parts) ∷ rest)
  there :
      {entry : String × List String} {rest : List (String × List String)}
      → ReadFrom state path value rest
      → ReadFrom state path value (entry ∷ rest)

module _ (fl : Arithmetic) (less : Number → Number → Bool) (elapsed : Float) (state : Json) where
  -- What is in the result was there before, or was read from one of the paths.
  AreRead :
      List (String × List String)
      → List (String × Number)
      → Result (List (String × Number))
      → Type 0
  AreRead ps before (raise e) = Unit
  AreRead ps before (ok after) =
      (path : String) (value : Number)
      → Dict.lookup path after ≡ some value
      → (Dict.lookup path before ≡ some value) ⊎ ReadFrom state path value ps
