-- ===== src/HardwareCheck/Plan/Verdict.antt =====
-- scripts/hardware-check.py: what the exit code 0 of `main` means.
use uart2llm.Prelude.{
  ℕ, arith, String, Bool, true, false, List, [], ◌∷◌, ◌++◌, map, some, none, ◌≡◌, refl, sym, ap,
  ◌∙◌, All, not, Bool-cases, inl, inr, if◌then◌else◌,
}
use mathlib.Core.Path.{subst}
use uart2llm.Python.Error.{Result, ok, raise, is_exception, ok-injective}
use uart2llm.Python.Exec.{continue, pure, ◌>>=◌}
use uart2llm.Python.Float.{Arithmetic}
use uart2llm.Python.Json.Equality.{is_null}
use uart2llm.Python.Json.{Json}
use uart2llm.HardwareCheck.Bench.{Lab, Bench, Case, outside, request}
use uart2llm.HardwareCheck.Quiet.{Quiet-restore}
use uart2llm.HardwareCheck.Carries.{
  name_of, Passed, Adds, Adds-nil, Adds-append, Carries-check, cases,
}
use uart2llm.HardwareCheck.Configuration.{restore}
use uart2llm.HardwareCheck.Run.{
  RunReport, Ending, failure_of, exit_code, cleaned_by, clean_up, await_daemon, stop_daemon, finish,
  ending_of, report_of, first_bench, main, check_options, Arguments, phases,
}
use uart2llm.HardwareCheck.Plan.{planned_phase, planned_start, planned_restore, restores}
use uart2llm.HardwareCheck.Plan.Phases.{phases-Adds}
use uart2llm.HardwareCheck.Plan.Remembers.{Numbered, phases-Remembers}

module _ (lab : Lab) (lower_other : ℕ → List ℕ) where
  -- What `clean_up` leaves, by whether there is nothing to restore.
  abbrev cleaned : Bool → Result Json → Bench lab → Bench lab → Result Bool × Bench lab
  cleaned skip r b b' = if skip then (ok true, b) else (cleaned_by lab lower_other r, b')

  cleaned_by-ok :
      (r : Result Json) → cleaned_by lab lower_other r ≡ ok true → (v : Json) × (r ≡ ok v)
  unfolding cleaned_by
  cleaned_by-ok (ok v) h = (v, refl)
  cleaned_by-ok (raise e) h = elim (Bool-cases (is_exception e)) [
    | inl caught ↦ cc (rw caught at h)
    | inr free ↦ cc (rw free at h)
  ]

  clean_if :
      (restored : Bool) (r : Result Json) (b b' : Bench lab)
      → ((v : Json) → r ≡ ok v → Adds ("configuration-finally-cleanup" ∷ []) b.cases b'.cases)
      → (cleaned (not restored) r b b').0 ≡ ok true
      → Adds (planned_restore restored) b.cases (cleaned (not restored) r b b').1.cases
  unfolding planned_restore
  clean_if false r b b' h e = Adds-nil b.cases b.cases refl
  clean_if true r b b' h e = let (v, same) = cleaned_by-ok r e in h v same

  clean_up-Adds :
      (restored : Bool) (b : Bench lab)
      → is_null b.config_restore ≡ not restored
      → (clean_up lab lower_other b).0 ≡ ok true
      → Adds (planned_restore restored) b.cases (clean_up lab lower_other b).1.cases
  unfolding clean_up
  clean_up-Adds restored b n h = rw n (
      clean_if restored _ b _
        ((Carries-check lab lower_other "configuration-finally-cleanup"
            (restore lab b.config_restore) (Quiet-restore lab b.config_restore)).adds
          b)
        (rw n at h))

  await_daemon-cases : (b : Bench lab) → (await_daemon lab lower_other b).1.cases ≡ b.cases
  unfolding await_daemon outside
  await_daemon-cases b = ground arith

  continue_cases :
      (r : Result (Unit {0})) (b : Bench lab)
      → (continue r (λ u. await_daemon lab lower_other) b).1.cases ≡ b.cases
  continue_cases (raise e) b = refl
  continue_cases (ok u) b = await_daemon-cases b

  stop_daemon-cases : (b : Bench lab) → (stop_daemon lab lower_other b).1.cases ≡ b.cases
  unfolding stop_daemon outside request
  stop_daemon-cases b = continue_cases _ _

  pure_after :
      (r : Result (Unit {0})) (a c : Bool) (b : Bench lab)
      → (continue r (λ u. pure a) b).0 ≡ ok c
      → (a ≡ c) × ((continue r (λ u. pure a) b).1 ≡ b)
  pure_after (raise e) a c b h = cc
  pure_after (ok u) a c b h = (ok-injective h, refl)

  finish_after :
      (r : Result Bool) (c : Bool) (b : Bench lab)
      → (continue r (λ a. stop_daemon lab lower_other >>= λ u. pure a) b).0 ≡ ok c
      → (r ≡ ok c)
        × ((continue r (λ a. stop_daemon lab lower_other >>= λ u. pure a) b).1.cases ≡ b.cases)
  finish_after (raise e) c b h = cc
  finish_after (ok a) c b h =
      let (same, after) = pure_after (stop_daemon lab lower_other b).0 a c _ h in
      (ap ok same, ap (λ (b : Bench lab). b.cases) after ∙ stop_daemon-cases b)

  finish-Adds :
      (restored : Bool) (b : Bench lab)
      → is_null b.config_restore ≡ not restored
      → (finish lab lower_other b).0 ≡ ok true
      → Adds (planned_restore restored) b.cases (finish lab lower_other b).1.cases
  unfolding finish
  finish-Adds restored b n h =
      let (clean, same) = finish_after (clean_up lab lower_other b).0 true _ h in
      subst (Adds (planned_restore restored) b.cases) (sym same) (clean_up-Adds restored b n clean)

  abbrev code_of : ℕ → Result ℕ
  code_of n = ok n

  not_zero : code_of 1 ≡ code_of 0 → ⊥
  not_zero h = let e : ◌≡◌ {A = ℕ} 1 0 = ok-injective h in omega (arith, e)

  -- The exit code 0: the options were fine, the phases returned, and so did what comes after.
  exit_zero :
      (checked outcome : Result (Unit {0})) (c : Result Bool) (b0 b : Bench lab)
      → let whole : Ending × Bench lab = elim checked as (λ x. Ending × Bench lab) [
        | raise e ↦ (record { code = raise e; written = none }, b0)
        | ok u ↦ (ending_of lab lower_other outcome c b, b)
      ] in
        whole.0.code ≡ ok 0
        → ((u : Unit {0}) × (outcome ≡ ok u))
          × (c ≡ ok true)
          × (whole.0.written ≡ some (report_of lab lower_other (ok tt) true b))
  unfolding ending_of exit_code report_of failure_of
  exit_zero (raise e) outcome c b0 b h = cc
  exit_zero (ok u) outcome (raise e) b0 b h = cc
  exit_zero (ok u) (ok v) (ok true) b0 b h = ((v, refl), refl, refl)
  exit_zero (ok u) (ok v) (ok false) b0 b h = absurd (not_zero h)
  exit_zero (ok u) (raise e) (ok c) b0 b h = elim (Bool-cases (is_exception e)) [
    | inl caught ↦ absurd (not_zero (rw caught at h))
    | inr free ↦ cc (rw free at h)
  ]

  named :
      (cases : List Case) (names : List String)
      → Adds names [] cases
      → (map name_of cases ≡ names) × All Passed cases
  named cases names added = (
    ap (map name_of) added.appended ∙ added.named,
    subst (All Passed) (sym added.appended) added.all_passed,
  )

  -- The run wrote a report that passed, with the planned cases in their order, all passed.
  abbrev pub Planned : Arguments → Ending → Type 0
  Planned o ending =
      (report : RunReport) × (ending.written ≡ some report)
      × (report.passed ≡ true)
      × ((auto_paired no_coredump : Bool) × (map name_of report.cases
            ≡ (planned_start auto_paired ++ planned_phase o.phase no_coredump)
              ++ planned_restore (restores o.phase)))
      × All Passed report.cases

  -- If the gateway reports the telemetry interval as something else than null and `main` returns 0,
  -- then it has written a report that says `passed`, whose cases are those of its phase in the order
  -- of the plan, and no others, each of them passed; the phase that changes the interval ends with
  -- the case that puts it back, and no other phase does.
  pub main-Planned :
      (numbered : Numbered lab) (fl : Arithmetic) (o : Arguments) (s : lab.State)
      → (main lab lower_other fl o s).0.code ≡ ok 0
      → Planned o (main lab lower_other fl o s).0
  unfolding main report_of first_bench failure_of
  main-Planned numbered fl o s h =
      let first : Bench lab = first_bench lab lower_other s in
      let b1 : Bench lab = (phases lab lower_other fl o first).1 in
      let b2 : Bench lab = (finish lab lower_other b1).1 in
      let ((u, ran), finished, written) =
        exit_zero (check_options o) (phases lab lower_other fl o first).0
          (finish lab lower_other b1).0 first b2 h in
      let (i, j, started) = phases-Adds lab lower_other fl o first u ran in
      let n = phases-Remembers lab lower_other numbered fl o first u ran refl in
      let ended = finish-Adds (restores o.phase) b1 n finished in
      let (names, all_passed) =
        named b2.cases _ (Adds-append _ _ [] b1.cases b2.cases started ended) in
      (report_of lab lower_other (ok tt) true b2, written, refl, (i, j, names), all_passed)
