-- ===== src/Acceptance/Runner/Verdict.antt =====
-- What a passed run of scripts/acceptance.py has shown.
use mathlib.Core.Option.{some-injective}
use uart2llm.Prelude.{
  ℕ, suc, ◌≤◌, ◌<◌, ◌≡◌, ◌≢◌, refl, sym, ap, ◌∙◌, String, Bool, true, false, none, some, List, [],
  ◌∷◌, ◌==◌, ==_iff, str_eq, eq_refl, ltb, ltb→lt, all, map, length, All, arith, inl, inr,
  Bool-cases, Option-cases, and-eq-true, ◌+◌,
}
use uart2llm.Python.Dict.{lookup, insert, value_or}
use uart2llm.Python.Error.{Error}
use uart2llm.Python.Float.{Float, Arithmetic}
use uart2llm.Acceptance.Pattern.{Sha}
use uart2llm.Acceptance.Endpoint.{World}
use uart2llm.Acceptance.Measurements.{
  Measurements, Row, Raised, Call, fresh, record_call, new_row, count_call,
}
use uart2llm.Acceptance.Measurements.Laws.{
  record_all, record_all_account, row_of, failures_of, failed,
}
use uart2llm.Acceptance.Measurements.Report.{Report, OpReport, report, op_report}
use uart2llm.Acceptance.Runner.{Operation, Tick, RunState, run, finished, row_passes, passed}
use uart2llm.Acceptance.Runner.Works.{Succeeded, works_of, calls_of, works_recorded, run_metrics}

one_failure :
    (c : Call) (cs : List Call) (e : Raised)
    → c.error ≡ some e
    → 1 ≤ failures_of c.operation (c ∷ cs)
unfolding failures_of failed
one_failure c cs e p = rw (eq_refl c.operation, p) (omega arith)

-- No call failed where no operation counts a failure.
no_failures :
    (cs : List Call) → ((op : String) → failures_of op cs ≡ 0) → All (λ c. c.error ≡ none) cs
unfolding failures_of failed
no_failures [] h = tt
no_failures (c ∷ cs) h = (
  elim (Option-cases c.error) [
    | inl p ↦ p
    | inr (e, p) ↦ absurd (omega (arith, one_failure c cs e p, h c.operation))
  ],
  no_failures cs (λ op. omega (arith, h op)),
)

-- Rows that pass count no failure and at least one success.
rows_pass :
    (fl : Arithmetic) (elapsed : Float) (ops : List (String × Row))
    → all row_passes (map (λ (name, row). (name, op_report fl elapsed row)) ops) ≡ true
    → (op : String) (row : Row) → lookup op ops ≡ some row
    → (row.failures ≡ 0) × (0 < row.successes)
unfolding lookup row_passes op_report
rows_pass fl elapsed [] h op row e = cc
rows_pass fl elapsed ((name, row) ∷ ops) h op r e =
    let (now, later) = and-eq-true _ _ h in
    let (some_success, no_failure) = and-eq-true _ _ now in
    elim (Bool-cases (str_eq name op)) [
      | inl same ↦ passes (some-injective _ _ (sym (at_head same) ∙ e)) some_success no_failure
      | inr other ↦ rows_pass fl elapsed ops later op r (sym (at_tail other) ∙ e)
    ]
  where
    at_head : str_eq name op ≡ true → lookup op ((name, row) ∷ ops) ≡ some row
    at_head same = rw same refl

    at_tail : str_eq name op ≡ false → lookup op ((name, row) ∷ ops) ≡ lookup op ops
    at_tail other = rw other refl

    passes :
        row ≡ r
        → ltb 0 row.successes ≡ true
        → (row.failures == 0) ≡ true
        → (r.failures ≡ 0) × (0 < r.successes)
    passes same_row s f = (
      ap (λ t. t.failures) (sym same_row) ∙ (==_iff row.failures 0).0 f,
      omega (arith, ap (λ t. t.successes) same_row, ltb→lt 0 row.successes s),
    )

row_passes-failures :
    (fl : Arithmetic) (elapsed : Float) (m : Measurements)
    → all row_passes (report fl elapsed m).operations ≡ true
    → (op : String)
    → ((row_of fl op m).failures ≡ 0)
      × ((row_of fl op m).attempts ≢ 0 → 0 < (row_of fl op m).successes)
unfolding report
row_passes-failures fl elapsed m h op = elim (Option-cases (lookup op m.ops)) [
  | inl missing ↦ rw missing (refl, λ p. absurd (p refl))
  | inr (row, found) ↦
      let (f, s) = rows_pass fl elapsed m.ops h op row found in rw found (f, λ p. s)
]

length-insert :
    {V : Type 0} (k : String) (v : V) (entries : List (String × V))
    → length (insert k v entries) ≤ length entries + 1
unfolding insert
length-insert k v [] = omega arith
length-insert k v (entry ∷ entries) = elim (Bool-cases (str_eq entry.0 k)) [
  | inl same ↦ rw same (omega arith)
  | inr other ↦ rw other (omega (arith, length-insert k v entries))
]

-- No call adds more than one operation.
length-record_all :
    (fl : Arithmetic) (cs : List Call) (m : Measurements)
    → length (record_all fl cs m).ops ≤ length m.ops + length cs
unfolding record_all record_call
length-record_all fl [] m = omega arith
length-record_all fl (c ∷ cs) m = omega (
  arith,
  length-record_all fl cs (record_call fl c m),
  length-insert c.operation (count_call fl c (value_or new_row (lookup c.operation m.ops))) m.ops,
)

length-map : {A B : Type 0} (f : A → B) (xs : List A) → length (map f xs) ≡ length xs
length-map f [] = refl
length-map f (x ∷ xs) = ap suc (length-map f xs)

-- The verdict is at least the one without telemetry.
software_passed :
    (all_finished interrupted telemetry : Bool) (r : Report)
    → passed all_finished interrupted telemetry r ≡ true
    → passed all_finished interrupted false r ≡ true
unfolding passed
software_passed all_finished interrupted true r h = (and-eq-true _ _ (and-eq-true _ _ h).0).0
software_passed all_finished interrupted false r h = h

-- What the verdict needs of the report's operations.
passed-operations :
    (all_finished interrupted telemetry : Bool) (r : Report)
    → passed all_finished interrupted telemetry r ≡ true
    → (all row_passes r.operations ≡ true) × (length r.operations ≡ 4)
unfolding passed
passed-operations all_finished interrupted telemetry r h =
    let (three, four) = and-eq-true _ _ (software_passed all_finished interrupted telemetry r h) in
    ((and-eq-true _ _ three).1, (==_iff (length r.operations) 4).0 four)

module _ (w : World) (h : Sha) (fl : Arithmetic) where
  module _ (text : Error → List ℕ) (clock : ℕ → Float) (size : ℕ) (expected : String)
      (deadline : Float) where
    -- If a run starts with nothing recorded and its report passes, then every work that any worker
    -- did has returned without an exception, and at least four works were done.
    pub passed-run :
        (rounds : List (Operation × Tick)) (s : RunState) (elapsed : Float)
        (interrupted telemetry : Bool)
        → s.metrics ≡ fresh
        → passed
            (finished (run w h fl text clock size expected deadline rounds s))
            interrupted
            telemetry
            (report fl elapsed (run w h fl text clock size expected deadline rounds s).metrics)
          ≡ true
        → All Succeeded (works_of w h fl text clock size expected deadline rounds s)
          × (4 ≤ length (works_of w h fl text clock size expected deadline rounds s))
    unfolding report
    passed-run rounds s elapsed interrupted telemetry start pass =
        let m = (run w h fl text clock size expected deadline rounds s).metrics in
        let (rows, four) = passed-operations _ interrupted telemetry (report fl elapsed m) pass in
        let recorded : m
            ≡ record_all fl (calls_of w h fl text clock size expected deadline rounds s) fresh =
          run_metrics w h fl text clock size expected deadline rounds s
          ∙ ap (record_all fl (calls_of w h fl text clock size expected deadline rounds s)) start in
        (
          (works_recorded w h fl text clock size expected deadline rounds s).1 (
              no_failures (calls_of w h fl text clock size expected deadline rounds s)
                (λ (op : String). omega (
                  arith,
                  (record_all_account fl op
                      (calls_of w h fl text clock size expected deadline rounds s)).0.failures,
                  ap (λ n. (row_of fl op n).failures) recorded,
                  (row_passes-failures fl elapsed m rows op).0,
                ))),
          omega (
            arith,
            (works_recorded w h fl text clock size expected deadline rounds s).0,
            length-record_all fl (calls_of w h fl text clock size expected deadline rounds s) fresh,
            ap (λ n. length n.ops) recorded,
            length-map {B = String × OpReport}
                (λ ((name, row) : String × Row). (name, op_report fl elapsed row)) m.ops,
            four,
          ),
        )
