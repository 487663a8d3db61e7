-- ===== src/Acceptance/Measurements/Sample/Bounds.antt =====
-- What `memory` and `telemetry` hold after any calls of `sample`.
use uart2llm.Prelude.{
  ℕ, suc, ◌+◌, ◌≤◌, ◌≡◌, refl, String, Bool, false, Option, none, some, List, [], ◌∷◌, arith, inl,
  inr, Bool-cases, length, str_eq, if◌then◌else◌,
}
use mathlib.Core.Path.{subst}
use mathlib.Core.Option.{some-injective}
use native.Mathlib.Numerals.{add-one}
use uart2llm.Python.Dict
use uart2llm.Python.Dict.{lookup-insert, lookup-nil, insert, value_or, push, length-push}
use uart2llm.Python.Error.{Result, ok, raise, >>=-eq-ok, ok-injective}
use uart2llm.Python.Float.{Float, Arithmetic}
use uart2llm.Python.Json
use uart2llm.Python.Json.{Json, null}
use uart2llm.Acceptance.Measurements.{Number, Trend, Reading, Measurements, fresh}
use uart2llm.Acceptance.Measurements.Sample.{
  paths, append_reading, keep_telemetry, follow, finite_number, new_trend, update_trend, note_value,
  Loop, after_number, read_paths, sample,
}

module _ (fl : Arithmetic) (less : Number → Number → Bool) where
  -- A trend counts no more samples than were taken, and its last value lies in its range.
  pub record IsTrend (taken : ℕ) (row : Trend) : Type 0 where
    pub counted : row.samples ≤ taken
    pub some_samples : 1 ≤ row.samples
    pub not_below : less row.last row.min ≡ false
    pub not_above : less row.max row.last ≡ false

  abbrev pub AreTrends : ℕ → List (String × Trend) → Type 0
  AreTrends taken memory =
      (path : String) (row : Trend) → Dict.lookup path memory ≡ some row → IsTrend taken row

  pub record IsSampled (m : Measurements) : Type 0 where
    pub readings : length m.telemetry ≤ 120
    pub trends : AreTrends m.telemetry_count m.memory

  module _ (irreflexive : (x : Number) → less x x ≡ false) where
    -- Before a sample, a row that is there counts at most `taken`; each path is read once.
    update-IsTrend :
        (taken : ℕ) (elapsed : Float) (value : Number) (row : Trend)
        → row.samples ≤ taken
        → IsTrend (suc taken) (update_trend fl less elapsed value row)
    unfolding update_trend
    update-IsTrend taken elapsed value row h = record {
      counted = omega arith;
      some_samples = omega arith;
      not_below = elim (Bool-cases (less value row.min)) [
        | inl e ↦ rw e (irreflexive value)
        | inr e ↦ rw e e
      ];
      not_above = elim (Bool-cases (less row.max value)) [
        | inl e ↦ rw e (irreflexive value)
        | inr e ↦ rw e e
      ];
    }

    lookup-note_value :
        (elapsed : Float) (p j : String) (value : Number) (memory : List (String × Trend))
        → Dict.lookup j (note_value fl less elapsed p value memory) ≡ (
            if str_eq p j
            then some (
                update_trend fl less elapsed value
                  (value_or (new_trend fl less value) (Dict.lookup p memory)))
            else Dict.lookup j memory)
    unfolding note_value
    lookup-note_value elapsed p j value memory = lookup-insert p j _ memory

    -- The row of a path that the loop has still to read.
    abbrev AtMost : ℕ → List (String × Trend) → String → Type 0
    AtMost taken memory p = (row : Trend) → Dict.lookup p memory ≡ some row → row.samples ≤ taken

    value_or-AtMost :
        (taken : ℕ) (value : Number) (o : Option Trend)
        → ((row : Trend) → o ≡ some row → row.samples ≤ taken)
        → (value_or (new_trend fl less value) o).samples ≤ taken
    unfolding new_trend
    value_or-AtMost taken value none h = omega arith
    value_or-AtMost taken value (some row) h = h row refl

    note_value-AreTrends :
        (taken : ℕ) (elapsed : Float) (p : String) (value : Number) (memory : List (String × Trend))
        → AreTrends (suc taken) memory
        → AtMost taken memory p
        → AreTrends (suc taken) (note_value fl less elapsed p value memory)
    note_value-AreTrends taken elapsed p value memory all least j row e =
        elim (Bool-cases (str_eq p j)) [
          | inl same ↦
              subst (IsTrend (suc taken)) (some-injective _ _ (rw (lookup-note_value, same) at e)) (
                update-IsTrend taken elapsed value _
                  (value_or-AtMost taken value (Dict.lookup p memory) least))
          | inr other ↦ all j row (rw (lookup-note_value, other) at e)
        ]

    note_value-AtMost :
        (taken : ℕ) (elapsed : Float) (p j : String) (value : Number)
        (memory : List (String × Trend))
        → str_eq p j ≡ false
        → AtMost taken memory j
        → AtMost taken (note_value fl less elapsed p value memory) j
    note_value-AtMost taken elapsed p j value memory other least row e =
        least row (rw (lookup-note_value, other) at e)

    abbrev Names : Type 0
    Names = List (String × List String)

    -- The names that are left differ from the one read now, and from one another.
    abbrev Apart : String → Names → Type 0
    Apart p [] = Unit
    Apart p ((q, _) ∷ rest) = (str_eq p q ≡ false) × Apart p rest

    abbrev Distinct : Names → Type 0
    Distinct [] = Unit
    Distinct ((p, _) ∷ rest) = Apart p rest × Distinct rest

    abbrev AllAtMost : ℕ → List (String × Trend) → Names → Type 0
    AllAtMost taken memory [] = Unit
    AllAtMost taken memory ((p, _) ∷ rest) = AtMost taken memory p × AllAtMost taken memory rest

    note_value-AllAtMost :
        (taken : ℕ) (elapsed : Float) (p : String) (value : Number) (memory : List (String × Trend))
        (rest : Names)
        → Apart p rest
        → AllAtMost taken memory rest
        → AllAtMost taken (note_value fl less elapsed p value memory) rest
    note_value-AllAtMost taken elapsed p value memory [] apart least = tt
    note_value-AllAtMost taken elapsed p value memory ((q, parts) ∷ rest) (d, ds) (l, ls) = (
      note_value-AtMost taken elapsed p q value memory d l,
      note_value-AllAtMost taken elapsed p value memory rest ds ls,
    )

    after_number-AreTrends :
        (n : ℕ) (r : Result (Option Number)) (memory : List (String × Trend)) (skip : Loop fl less)
        (note : Number → Loop fl less)
        → AreTrends n memory
        → AreTrends n skip.1
        → ((value : Number) → AreTrends n (note value).1)
        → AreTrends n (after_number fl less r memory skip note).1
    unfolding after_number
    after_number-AreTrends n (raise e) memory skip note a b c = a
    after_number-AreTrends n (ok none) memory skip note a b c = b
    after_number-AreTrends n (ok (some value)) memory skip note a b c = c value

    read_paths-AreTrends :
        (taken : ℕ) (elapsed : Float) (state : Json) (ps : Names)
        (selected : List (String × Number)) (memory : List (String × Trend))
        → Distinct ps
        → AreTrends (suc taken) memory
        → AllAtMost taken memory ps
        → AreTrends (suc taken) (read_paths fl less elapsed state ps selected memory).1
    unfolding read_paths
    read_paths-AreTrends taken elapsed state [] selected memory d all least = all
    read_paths-AreTrends taken elapsed state ((p, parts) ∷ rest) selected memory (d, ds) all
          (l, ls) =
        after_number-AreTrends (suc taken) (finite_number (follow parts state)) memory _ _ all
          (read_paths-AreTrends taken elapsed state rest selected memory ds all ls)
          (λ value.
            read_paths-AreTrends taken elapsed state rest (insert p value selected)
              (note_value fl less elapsed p value memory) ds
              (note_value-AreTrends taken elapsed p value memory all l)
              (note_value-AllAtMost taken elapsed p value memory rest d ls))

    AllAtMost-of_AreTrends :
        (taken : ℕ) (memory : List (String × Trend)) (ps : Names)
        → AreTrends taken memory
        → AllAtMost taken memory ps
    AllAtMost-of_AreTrends taken memory [] all = tt
    AllAtMost-of_AreTrends taken memory ((p, _) ∷ rest) all =
        (λ row e. (all p row e).counted, AllAtMost-of_AreTrends taken memory rest all)

    AreTrends-suc :
        (taken : ℕ) (memory : List (String × Trend))
        → AreTrends taken memory
        → AreTrends (suc taken) memory
    AreTrends-suc taken memory all p row e =
        let t = all p row e in
        record {
          counted = omega (arith, t.counted);
          some_samples = t.some_samples;
          not_below = t.not_below;
          not_above = t.not_above;
        }

    paths-Distinct : Distinct paths
    paths-Distinct =
        let r : ◌≡◌ {A = Bool} false false = refl in
        (
          (r, (r, (r, (r, (r, tt))))),
          ((r, (r, (r, (r, tt)))), ((r, (r, (r, tt))), ((r, (r, tt)), ((r, tt), (tt, tt))))),
        )

    append_reading-le :
        (elapsed : Float) (state : Json) (selected : Result (List (String × Number)))
        (telemetry longer : List Reading)
        → append_reading fl less elapsed state selected telemetry ≡ ok longer
        → length longer ≤ 120
    unfolding append_reading
    append_reading-le elapsed state selected telemetry longer h =
        let (chosen, _, h₁) = >>=-eq-ok selected _ h in
        let (connected, _, h₂) = >>=-eq-ok (Json.get "connected" null state) _ h₁ in
        let (paired, _, h₃) = >>=-eq-ok (Json.get "paired" null state) _ h₂ in
        subst (λ t. length t ≤ 120) (ok-injective h₃) (length-push 120 _ telemetry)

    keep_telemetry-IsSampled :
        (r : Result (List Reading)) (m : Measurements)
        → ((longer : List Reading) → r ≡ ok longer → length longer ≤ 120)
        → IsSampled m
        → IsSampled (keep_telemetry fl less r m).1
    unfolding keep_telemetry
    keep_telemetry-IsSampled (raise e) m short h = h
    keep_telemetry-IsSampled (ok longer) m short h = record {
      readings = short longer refl;
      trends = h.trends;
    }

    sample-IsSampled :
        (elapsed : Float) (state : Json) (m : Measurements)
        → IsSampled m
        → IsSampled (sample fl less elapsed state m).1
    unfolding sample
    sample-IsSampled elapsed state m h =
        keep_telemetry-IsSampled _
          (record m {
            telemetry_count = m.telemetry_count + 1;
            memory = (read_paths fl less elapsed state paths [] m.memory).1;
          })
          (append_reading-le elapsed state _ m.telemetry)
          (record {
            readings = h.readings;
            trends = rw add-one (
                read_paths-AreTrends m.telemetry_count elapsed state paths [] m.memory
                  paths-Distinct (AreTrends-suc m.telemetry_count m.memory h.trends)
                  (AllAtMost-of_AreTrends m.telemetry_count m.memory paths h.trends));
          })

  -- The state after the samples, failed ones included, as the telemetry thread goes on after an
  -- exception.
  pub sample_all : List (Float × Json) → Measurements → Measurements
  sample_all [] m = m
  sample_all ((elapsed, state) ∷ rest) m = sample_all rest (sample fl less elapsed state m).1

  sample_all-IsSampled :
      ((x : Number) → less x x ≡ false)
      → (readings : List (Float × Json)) (m : Measurements) → IsSampled m
      → IsSampled (sample_all readings m)
  unfolding sample_all
  sample_all-IsSampled irr [] m h = h
  sample_all-IsSampled irr ((elapsed, state) ∷ rest) m h =
      sample_all-IsSampled irr rest (sample fl less elapsed state m).1
        (sample-IsSampled irr elapsed state m h)

  count-keep_telemetry :
      (r : Result (List Reading)) (m : Measurements)
      → (keep_telemetry fl less r m).1.telemetry_count ≡ m.telemetry_count
  unfolding keep_telemetry
  count-keep_telemetry (raise e) m = refl
  count-keep_telemetry (ok longer) m = refl

  sample_all-telemetry_count :
      (readings : List (Float × Json)) (m : Measurements)
      → (sample_all readings m).telemetry_count ≡ m.telemetry_count + length readings
  unfolding sample_all sample
  sample_all-telemetry_count [] m = omega arith
  sample_all-telemetry_count ((elapsed, state) ∷ rest) m = omega (
    arith,
    sample_all-telemetry_count rest (sample fl less elapsed state m).1,
    count-keep_telemetry
        (append_reading fl less elapsed state (read_paths fl less elapsed state paths [] m.memory).0
          m.telemetry)
        (record m {
          telemetry_count = m.telemetry_count + 1;
          memory = (read_paths fl less elapsed state paths [] m.memory).1;
        }),
  )

  -- If no number is less than itself, then after any samples, failed ones included, at most 120
  -- readings are kept, every sample is counted, and every trend has counted at least one sample
  -- and at most all, with its last value neither below its minimum nor above its maximum.
  pub sample_all_bounds :
      ((x : Number) → less x x ≡ false)
      → (readings : List (Float × Json))
      → IsSampled (sample_all readings fresh)
        × ((sample_all readings fresh).telemetry_count ≡ length readings)
  sample_all_bounds irreflexive readings = (
    sample_all-IsSampled irreflexive readings fresh (record {
      readings = omega arith;
      trends = λ path row e. cc (lookup-nil {V = Trend} path);
    }),
    omega (arith, sample_all-telemetry_count readings fresh),
  )
