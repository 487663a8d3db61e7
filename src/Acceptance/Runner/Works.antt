-- ===== src/Acceptance/Runner/Works.antt =====
-- What the workers of scripts/acceptance.py do in a run, and what `record` gets of it.
use uart2llm.Prelude.{
  ℕ, ◌≡◌, refl, sym, ap, ◌∙◌, String, Bool, true, false, none, List, [], ◌∷◌, ◌++◌, not, ◌||◌, any,
  length, All, arith, inl, inr, Bool-cases, if◌then◌else◌, Option, length-append,
}
use uart2llm.Python.Error.{Error, Result, ok, raise, is_ok}
use uart2llm.Python.Float.{Float, Arithmetic}
use uart2llm.Acceptance.Pattern.{Sha}
use uart2llm.Acceptance.Endpoint.{World}
use uart2llm.Acceptance.Measurements.{Measurements, Call, record_call}
use uart2llm.Acceptance.Measurements.Laws.{record_all}
use uart2llm.Acceptance.Runner.{
  Operation, Tick, RunState, operation_name, same_operation, call_of, work_of, worker_round, run,
}

record_all-append :
    (fl : Arithmetic) (cs ds : List Call) (m : Measurements)
    → record_all fl (cs ++ ds) m ≡ record_all fl ds (record_all fl cs m)
unfolding record_all
record_all-append fl [] ds m = refl
record_all-append fl (c ∷ cs) ds m = record_all-append fl cs ds (record_call fl c m)

All-split : {A : Type 0} (P : A → Type 0) (xs ys : List A) → All P (xs ++ ys) → All P xs × All P ys
All-split P [] ys h = (tt, h)
All-split P (x ∷ xs) ys (now, later) =
    let (first, rest) = All-split P xs ys later in ((now, first), rest)

All-join : {A : Type 0} (P : A → Type 0) (xs ys : List A) → All P xs → All P ys → All P (xs ++ ys)
All-join P [] ys h g = g
All-join P (x ∷ xs) ys (now, later) g = (now, All-join P xs ys later g)

-- A worker's name with what its work returned or raised.
abbrev pub Outcome : Type 0
Outcome = Operation × Result (ℕ × Option Float)

abbrev pub Succeeded : Outcome → Type 0
Succeeded work = is_ok work.1 ≡ true

module _ (w : World) (h : Sha) (fl : Arithmetic) where
  module _ (text : Error → List ℕ) (clock : ℕ → Float) (size : ℕ) (expected : String)
      (deadline : Float) where
    -- The calls of `record` that a round makes.
    calls_in : Operation → Tick → RunState → List Call
    unfolding work_of
    calls_in op tick s =
        if tick.stopped || not (fl.less tick.now deadline)
        then []
        else call_of text (operation_name op) (fl.sub tick.after tick.before)
            (work_of w h fl text clock size expected deadline op s.endpoint).0
          ∷ []

    -- The calls of a run, in order.
    pub calls_of : List (Operation × Tick) → RunState → List Call
    unfolding calls_in
    calls_of [] s = []
    calls_of ((op, tick) ∷ rest) s =
        let skipped = any (same_operation op) s.returned in
        (if skipped then [] else calls_in op tick s)
        ++ calls_of rest
            (if skipped then s else worker_round w h fl text clock size expected deadline op tick s)

    -- What the work of a round returns or raises, if the round comes to it.
    works_in : Operation → Tick → RunState → List Outcome
    unfolding work_of
    works_in op tick s =
        if tick.stopped || not (fl.less tick.now deadline)
        then []
        else (op, (work_of w h fl text clock size expected deadline op s.endpoint).0) ∷ []

    -- What the works of a run return or raise, in order.
    pub works_of : List (Operation × Tick) → RunState → List Outcome
    unfolding works_in
    works_of [] s = []
    works_of ((op, tick) ∷ rest) s =
        let skipped = any (same_operation op) s.returned in
        (if skipped then [] else works_in op tick s)
        ++ works_of rest
            (if skipped then s else worker_round w h fl text clock size expected deadline op tick s)

    call_succeeded :
        (op : Operation) (seconds : Float) (r : Result (ℕ × Option Float))
        → (call_of text (operation_name op) seconds r).error ≡ none
        → is_ok r ≡ true
    unfolding call_of
    call_succeeded op seconds (ok v) e = refl
    call_succeeded op seconds (raise x) e = cc

    in_round :
        (op : Operation) (tick : Tick) (s : RunState)
        → All (λ c. c.error ≡ none) (calls_in op tick s)
        → All Succeeded (works_in op tick s)
    unfolding calls_in works_in
    in_round op tick s = elim (Bool-cases (tick.stopped || not (fl.less tick.now deadline))) [
      | inl stop ↦ rw stop (λ h. tt)
      | inr go ↦ rw go (λ h. (call_succeeded op _ _ h.0, tt))
    ]

    counted_in :
        (op : Operation) (tick : Tick) (s : RunState)
        → length (calls_in op tick s) ≡ length (works_in op tick s)
    unfolding calls_in works_in
    counted_in op tick s = elim (Bool-cases (tick.stopped || not (fl.less tick.now deadline))) [
      | inl stop ↦ rw stop refl
      | inr go ↦ rw go refl
    ]

    -- The works agree with the calls that `record` gets: there are as many, and where no call has an
    -- error, no work raised.
    pub works_recorded :
        (rounds : List (Operation × Tick)) (s : RunState)
        → (length (calls_of rounds s) ≡ length (works_of rounds s))
          × (All (λ c. c.error ≡ none) (calls_of rounds s) → All Succeeded (works_of rounds s))
    unfolding calls_of works_of
    works_recorded [] s = (refl, λ h. tt)
    works_recorded ((op, tick) ∷ rest) s =
        recorded (any (same_operation op) s.returned) (works_recorded rest)
      where
        next : RunState
        next = worker_round w h fl text clock size expected deadline op tick s

        recorded :
            (gone : Bool)
            → ((t : RunState)
                → (length (calls_of rest t) ≡ length (works_of rest t))
                  × (All (λ c. c.error ≡ none) (calls_of rest t) → All Succeeded (works_of rest t)))
            → let calls =
                (if gone then [] else calls_in op tick s)
                ++ calls_of rest (if gone then s else next) in
              let works =
                (if gone then [] else works_in op tick s)
                ++ works_of rest (if gone then s else next) in
              (length calls ≡ length works)
              × (All (λ c. c.error ≡ none) calls → All Succeeded works)
        recorded true later = later s
        recorded false later = (
          omega (
            arith,
            length-append (calls_in op tick s) (calls_of rest next),
            length-append (works_in op tick s) (works_of rest next),
            counted_in op tick s,
            (later next).0,
          ),
          λ h.
              let (first, others) = All-split _ (calls_in op tick s) (calls_of rest next) h in
              All-join Succeeded (works_in op tick s) (works_of rest next)
                (in_round op tick s first) ((later next).1 others),
        )

    round_metrics :
        (op : Operation) (tick : Tick) (s : RunState)
        → record_all fl (calls_in op tick s) s.metrics
          ≡ (worker_round w h fl text clock size expected deadline op tick s).metrics
    unfolding calls_in worker_round record_all
    round_metrics op tick s = elim (Bool-cases (tick.stopped || not (fl.less tick.now deadline))) [
      | inl stop ↦ rw stop refl
      | inr go ↦ rw go refl
    ]

    pub run_metrics :
        (rounds : List (Operation × Tick)) (s : RunState)
        → (run w h fl text clock size expected deadline rounds s).metrics
          ≡ record_all fl (calls_of rounds s) s.metrics
    unfolding run calls_of record_all
    run_metrics [] s = refl
    run_metrics ((op, tick) ∷ rest) s =
        one_round (run_metrics rest) (any (same_operation op) s.returned)
      where
        next : RunState
        next = worker_round w h fl text clock size expected deadline op tick s

        one_round :
            ((t : RunState)
              → (run w h fl text clock size expected deadline rest t).metrics
                ≡ record_all fl (calls_of rest t) t.metrics)
            → (gone : Bool)
            → (run w h fl text clock size expected deadline rest (if gone then s else next)).metrics
              ≡ record_all fl
                  ((if gone then [] else calls_in op tick s)
                    ++ calls_of rest (if gone then s else next))
                  s.metrics
        one_round later true = later s
        one_round later false =
            later next
            ∙ ap (record_all fl (calls_of rest next)) (sym (round_metrics op tick s))
            ∙ sym (record_all-append fl (calls_in op tick s) (calls_of rest next) s.metrics)
