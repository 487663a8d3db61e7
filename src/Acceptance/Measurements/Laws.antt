-- ===== src/Acceptance/Measurements/Laws.antt =====
-- What `Measurements` holds after any calls of `record`, in any order of the workers.
use uart2llm.Prelude.{
  ℕ, ◌+◌, ◌≡◌, refl, ap, ◌∙◌, String, Bool, true, false, none, some, List, [], ◌∷◌, ◌++◌, arith,
  str_eq, eq_iff, if◌then◌else◌, take, inl, inr, Option-cases, Bool-cases, append_assoc, append-nil,
}
use uart2llm.Python.Dict.{lookup, lookup-insert, value_or, last, push-last}
use uart2llm.Python.Float.{Float, Arithmetic}
use uart2llm.Acceptance.Measurements.{
  Row, new_row, Failure, Measurements, fresh, Call, count_call, note_failure, record_call,
}

-- The history's own account of an operation, read off the list of calls.
unfoldable pub failed : Call → Bool
failed c = elim c.error [ none ↦ false | some e ↦ true ]

module _ (op : String) where
  pub attempts_of : List Call → ℕ
  attempts_of [] = 0
  attempts_of (c ∷ cs) = (if str_eq c.operation op then 1 else 0) + attempts_of cs

  unfoldable pub failures_of : List Call → ℕ
  unfolding failed
  failures_of [] = 0
  failures_of (c ∷ cs) =
      (if str_eq c.operation op then (if failed c then 1 else 0) else 0) + failures_of cs

  pub successes_of : List Call → ℕ
  unfolding failed
  successes_of [] = 0
  successes_of (c ∷ cs) =
      (if str_eq c.operation op then (if failed c then 0 else 1) else 0) + successes_of cs

  pub bytes_of : List Call → ℕ
  unfolding failed
  bytes_of [] = 0
  bytes_of (c ∷ cs) =
      (if str_eq c.operation op then (if failed c then 0 else c.count) else 0) + bytes_of cs

  latency_in : Call → List Float
  unfolding failed
  latency_in c = if str_eq c.operation op then (if failed c then [] else c.seconds ∷ []) else []

  -- The durations of the successful calls, oldest first.
  pub latencies_of : List Call → List Float
  unfolding latency_in
  latencies_of [] = []
  latencies_of (c ∷ cs) = latency_in c ++ latencies_of cs

failure_in : Call → List Failure
failure_in c = elim c.error [
  | none ↦ []
  | some e ↦ record { operation = c.operation; error_type = e.name; message = take 300 e.text } ∷ []
]

-- Every failure, oldest first, as the report shows it.
pub failures_in : List Call → List Failure
unfolding failure_in
failures_in [] = []
failures_in (c ∷ cs) = failure_in c ++ failures_in cs

module _ (fl : Arithmetic) where
  -- The state after the calls, the first of the list first.
  unfoldable pub record_all : List Call → Measurements → Measurements
  record_all [] m = m
  record_all (c ∷ cs) m = record_all cs (record_call fl c m)

  -- The row of an operation; one that was never recorded counts nothing.
  abbrev pub row_of : String → Measurements → Row
  row_of op m = value_or new_row (lookup op m.ops)

  row_of-record_call :
      (op : String) (c : Call) (m : Measurements)
      → row_of op (record_call fl c m)
        ≡ (if str_eq c.operation op then count_call fl c (row_of op m) else row_of op m)
  unfolding record_call
  row_of-record_call op c m = elim (Bool-cases (str_eq c.operation op)) [
    | inl e ↦
        rw (lookup-insert, e) (ap (λ k. count_call fl c (row_of k m)) ((eq_iff c.operation op).0 e))
    | inr e ↦ rw (lookup-insert, e)
  ]

  -- What the calls have added to the counters of a row.
  pub record Counts (op : String) (cs : List Call) (before after : Row) : Type 0 where
    pub attempts : after.attempts ≡ before.attempts + attempts_of op cs
    pub successes : after.successes ≡ before.successes + successes_of op cs
    pub failures : after.failures ≡ before.failures + failures_of op cs
    pub byte_count : after.byte_count ≡ before.byte_count + bytes_of op cs

  count_call-Counts :
      (op : String) (c : Call) (row : Row)
      → Counts op (c ∷ []) row (if str_eq c.operation op then count_call fl c row else row)
  unfolding count_call attempts_of successes_of failures_of bytes_of
  count_call-Counts op c row = record {
    attempts = ground arith;
    successes = ground arith;
    failures = ground arith;
    byte_count = ground arith;
  }

  Counts-cons :
      (op : String) (c : Call) (cs : List Call) (x y z : Row)
      → Counts op (c ∷ []) x y
      → Counts op cs y z
      → Counts op (c ∷ cs) x z
  unfolding attempts_of successes_of failures_of bytes_of
  Counts-cons op c cs x y z p q = record {
    attempts = omega (arith, p.attempts, q.attempts);
    successes = omega (arith, p.successes, q.successes);
    failures = omega (arith, p.failures, q.failures);
    byte_count = omega (arith, p.byte_count, q.byte_count);
  }

  record_all-Counts :
      (op : String) (cs : List Call) (m : Measurements)
      → Counts op cs (row_of op m) (row_of op (record_all cs m))
  unfolding record_all attempts_of successes_of failures_of bytes_of
  record_all-Counts op [] m = record {
    attempts = omega arith;
    successes = omega arith;
    failures = omega arith;
    byte_count = omega arith;
  }
  record_all-Counts op (c ∷ cs) m =
      Counts-cons op c cs (row_of op m) (row_of op (record_call fl c m)) _
        (rw row_of-record_call (count_call-Counts op c (row_of op m)))
        (record_all-Counts op cs (record_call fl c m))

  attempts-eq-add :
      (op : String) (cs : List Call) → attempts_of op cs ≡ successes_of op cs + failures_of op cs
  unfolding attempts_of successes_of failures_of
  attempts-eq-add op [] = omega arith
  attempts-eq-add op (c ∷ cs) = ground (arith, attempts-eq-add op cs)

  -- After any calls, the counters of every operation are those of its calls: attempts, successes,
  -- failures and the bytes of its successes. Every attempt is a success or a failure.
  pub record_all_account :
      (op : String) (cs : List Call)
      → Counts op cs new_row (row_of op (record_all cs fresh))
        × ((row_of op (record_all cs fresh)).attempts
            ≡ (row_of op (record_all cs fresh)).successes
              + (row_of op (record_all cs fresh)).failures)
  unfolding lookup
  record_all_account op cs =
      let c = record_all-Counts op cs fresh in
      (c, omega (arith, c.attempts, c.successes, c.failures, attempts-eq-add op cs))

  latency-count_call :
      (op : String) (c : Call) (row : Row) (seen : List Float)
      → row.latency_samples ≡ last 1024 seen
      → (if str_eq c.operation op then count_call fl c row else row).latency_samples
        ≡ last 1024 (seen ++ latency_in op c)
  unfolding count_call latency_in
  latency-count_call op c row seen h =
      ground (arith, push-last 1024 c.seconds seen, append-nil seen)

  latencies_from :
      (op : String) (cs : List Call) (m : Measurements) (seen : List Float)
      → (row_of op m).latency_samples ≡ last 1024 seen
      → (row_of op (record_all cs m)).latency_samples ≡ last 1024 (seen ++ latencies_of op cs)
  unfolding record_all latencies_of
  latencies_from op [] m seen h = rw append-nil h
  latencies_from op (c ∷ cs) m seen h =
      latencies_from op cs (record_call fl c m) (seen ++ latency_in op c)
        (rw row_of-record_call (latency-count_call op c (row_of op m) seen h))
      ∙ ap (last 1024) (append_assoc seen (latency_in op c) (latencies_of op cs))

  note_failure-last :
      (c : Call) (failures seen : List Failure)
      → failures ≡ last 32 seen
      → note_failure fl c failures ≡ last 32 (seen ++ failure_in c)
  unfolding note_failure failure_in
  note_failure-last c failures seen h = elim (Option-cases c.error) [
    | inl e ↦ rw (e, append-nil) h
    | inr (r, e) ↦ rw (e, h) (push-last 32 _ seen)
  ]

  failures_from :
      (cs : List Call) (m : Measurements) (seen : List Failure)
      → m.recent_failures ≡ last 32 seen
      → (record_all cs m).recent_failures ≡ last 32 (seen ++ failures_in cs)
  unfolding record_all failures_in record_call
  failures_from [] m seen h = rw append-nil h
  failures_from (c ∷ cs) m seen h =
      failures_from cs (record_call fl c m) (seen ++ failure_in c)
        (note_failure-last c m.recent_failures seen h)
      ∙ ap (last 32) (append_assoc seen (failure_in c) (failures_in cs))

  -- After any calls, the latency samples of every operation are the durations of its last 1024
  -- successes, and the recent failures are the last 32 failures of all operations, oldest first.
  pub record_all_recent :
      (op : String) (cs : List Call)
      → ((row_of op (record_all cs fresh)).latency_samples ≡ last 1024 (latencies_of op cs))
        × ((record_all cs fresh).recent_failures ≡ last 32 (failures_in cs))
  unfolding lookup
  record_all_recent op cs = (latencies_from op cs fresh [] refl, failures_from cs fresh [] refl)
