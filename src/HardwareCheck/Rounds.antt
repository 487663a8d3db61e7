-- ===== src/HardwareCheck/Rounds.antt =====
-- scripts/hardware-check.py: how the load of the soak ends.
use uart2llm.Prelude.{
  ℕ, zero, suc, ◌+◌, ◌*◌, ◌≤◌, ◌<◌, ◌≡◌, refl, sym, ap, ◌∙◌, arith, String, Option, [], ◌∷◌, length,
  length-append, ltb, ltb→lt, ltb-false, Bool-cases, inl, inr, if◌then◌else◌,
}
use uart2llm.Python.Error.{Error, Result, ok, raise, ok-injective}
use uart2llm.Python.Exec.{Exec, pure, lift, continue, ◌>>=◌, ◌>>◌}
use uart2llm.Python.Float.{Arithmetic}
use uart2llm.Python.Json.{Json}
use uart2llm.HardwareCheck.Bench.{Lab, Bench, PartialSoak, outside, sleep, read_clock, request}
use uart2llm.HardwareCheck.Soak.{note_progress, one_more, add_sample, load_round, load_rounds}
use uart2llm.HardwareCheck.Wait.{Clock}

module _ (lab : Lab) where
  -- Where the action returns, the time has passed.
  record Takes {A : Type 0} (ms : ℕ) (act : Exec (Bench lab) A) : Type 0 where
    passes :
        (b : Bench lab) (a : A) → (act b).0 ≡ ok a → lab.now b.state + ms ≤ lab.now (act b).1.state

  continue-Takes :
      {A B : Type 0} (ms : ℕ) (r : Result A) (k : A → Exec (Bench lab) B) (b : Bench lab) (x : B)
      → ((a : A) → Takes ms (k a))
      → (continue r k b).0 ≡ ok x
      → lab.now b.state + ms ≤ lab.now (continue r k b).1.state
  continue-Takes ms (raise e) k b x h eq = cc
  continue-Takes ms (ok a) k b x h eq = (h a).passes b x eq

  -- The clock does not turn back, whether the action returns or raises.
  record Moves {A : Type 0} (act : Exec (Bench lab) A) : Type 0 where
    later : (b : Bench lab) → lab.now b.state ≤ lab.now (act b).1.state

  Takes-after :
      {A B : Type 0} (ms : ℕ) (m : Exec (Bench lab) A) (k : A → Exec (Bench lab) B)
      → Moves m
      → ((a : A) → Takes ms (k a))
      → Takes ms (m >>= k)
  Takes-after ms m k h g = record {
    passes = λ b x e.
        let before = h.later b in
        let after = continue-Takes ms (m b).0 k (m b).1 x g e in omega arith;
  }

  Moves-lift : {A : Type 0} (r : Result A) → Moves (lift r)
  Moves-lift r = record { later = λ b. omega arith }

  Moves-note_progress : (progress : Option PartialSoak) → Moves (note_progress lab progress)
  unfolding note_progress
  Moves-note_progress progress = record { later = λ b. omega arith }

  Moves-read_clock : Moves (read_clock lab)
  unfolding read_clock outside
  Moves-read_clock = record { later = λ b. omega arith }

  -- Where the action returns, what it returns is one round more.
  record Yields (progress : PartialSoak) (act : Exec (Bench lab) PartialSoak) : Type 0 where
    yields :
        (b : Bench lab) (next : PartialSoak)
        → (act b).0 ≡ ok next
        → (next.rounds_completed ≡ progress.rounds_completed + 1)
          × (length next.samples ≡ length progress.samples + 1)

  continue-Yields :
      {A : Type 0} (progress : PartialSoak) (r : Result A) (k : A → Exec (Bench lab) PartialSoak)
      (b : Bench lab) (next : PartialSoak)
      → ((a : A) → Yields progress (k a))
      → (continue r k b).0 ≡ ok next
      → (next.rounds_completed ≡ progress.rounds_completed + 1)
        × (length next.samples ≡ length progress.samples + 1)
  continue-Yields progress (raise e) k b next h eq = cc
  continue-Yields progress (ok a) k b next h eq = (h a).yields b next eq

  Yields-after :
      {A : Type 0} (progress : PartialSoak) (m : Exec (Bench lab) A)
      (k : A → Exec (Bench lab) PartialSoak)
      → ((a : A) → Yields progress (k a))
      → Yields progress (m >>= k)
  Yields-after progress m k h = record {
    yields = λ b next. continue-Yields progress (m b).0 k (m b).1 next h;
  }

  Yields-one_more :
      (progress : PartialSoak) (ms : ℕ) (memory : Json)
      → Yields progress (pure (one_more lab progress ms memory))
  unfolding one_more
  Yields-one_more progress ms memory = record {
    yields = λ b next e.
        let same : one_more lab progress ms memory ≡ next = ok-injective e in
        (
          sym (ap (λ (p : PartialSoak). p.rounds_completed) same),
          sym (ap (λ (p : PartialSoak). length p.samples) same)
              ∙ length-append progress.samples ((ms, memory) ∷ []),
        );
  }

  Yields-load_round :
      (fl : Arithmetic) (own : Json) (start : ℕ) (progress : PartialSoak)
      → Yields progress (load_round lab fl own start progress)
  unfolding load_round add_sample
  Yields-load_round fl own start progress = search (Yields-one_more, Yields-after) depth 40

  -- How the load ends: past its deadline, after as many rounds as there are samples, and no more than
  -- one for each second; or with the exception of a round that was begun before the deadline.
  pub data Loads (fl : Arithmetic) (own : Json) (start deadline seconds : ℕ)
      : Result PartialSoak → Bench lab → Type 0 where
    time_up :
        (done : PartialSoak) (b : Bench lab)
        → deadline ≤ lab.now b.state
        → done.rounds_completed ≤ seconds
        → length done.samples ≡ done.rounds_completed
        → Loads fl own start deadline seconds (ok done) b
    round_failed :
        (e : Error) (progress : PartialSoak) (before : Bench lab)
        → lab.now before.state < deadline
        → (load_round lab fl own start progress before).0 ≡ raise e
        → Loads fl own start deadline seconds
            (raise e)
            (load_round lab fl own start progress before).1

  module _ (clock : Clock lab) where
    Moves-request :
        (path method : String) (body : Option Json) (expected : ℕ)
        → Moves (request lab path method body expected)
    unfolding request outside
    Moves-request path method body expected = record { later = λ b. clock.sends _ b.state }

    Takes-pause : (p : PartialSoak) → Takes 1000 (sleep lab 1000 >> pure p)
    unfolding sleep outside
    Takes-pause p = record { passes = λ b a e. clock.pauses 1000 b.state }

    Takes-load_round :
        (fl : Arithmetic) (own : Json) (start : ℕ) (progress : PartialSoak)
        → Takes 1000 (load_round lab fl own start progress)
    unfolding load_round add_sample
    Takes-load_round fl own start progress =
        search
          (
            Takes-pause, Takes-after, Moves-lift, Moves-note_progress, Moves-read_clock,
            Moves-request,
          )
          depth 40

    round-Loads :
        (fl : Arithmetic) (own : Json) (start deadline seconds : ℕ) (progress : PartialSoak)
        (b : Bench lab) (r : Result PartialSoak)
        (more : PartialSoak → Result PartialSoak × Bench lab)
        → lab.now b.state < deadline
        → (load_round lab fl own start progress b).0 ≡ r
        → ((next : PartialSoak)
            → r ≡ ok next
            → Loads fl own start deadline seconds (more next).0 (more next).1)
        → let whole : Result PartialSoak × Bench lab =
            elim r as (λ x. Result PartialSoak × Bench lab) [
              | raise e ↦ (raise e, (load_round lab fl own start progress b).1)
              | ok next ↦ more next
            ] in
          Loads fl own start deadline seconds whole.0 whole.1
    round-Loads fl own start deadline seconds progress b (raise e) more early h later =
        round_failed e progress b early h
    round-Loads fl own start deadline seconds progress b (ok next) more early h later =
        later next refl

    load_if :
        (fl : Arithmetic) (own : Json) (start deadline seconds : ℕ) (progress : PartialSoak)
        (b : Bench lab) (whole : Result PartialSoak × Bench lab)
        → progress.rounds_completed ≤ seconds
        → length progress.samples ≡ progress.rounds_completed
        → (lab.now b.state < deadline → Loads fl own start deadline seconds whole.0 whole.1)
        → let all : Result PartialSoak × Bench lab =
            if ltb (lab.now b.state) deadline then whole else (ok progress, b) in
          Loads fl own start deadline seconds all.0 all.1
    load_if fl own start deadline seconds progress b whole most sampled h =
        elim (Bool-cases (ltb (lab.now b.state) deadline)) [
          | inr passed ↦ rw passed (time_up progress b (ltb-false _ _ passed) most sampled)
          | inl early ↦ rw early (h (ltb→lt _ _ early))
        ]

    rounds-Loads :
        (fuel : ℕ) (fl : Arithmetic) (own : Json) (start deadline seconds : ℕ)
        (progress : PartialSoak) (b : Bench lab)
        → deadline ≤ lab.now b.state + 1000 * fuel
        → progress.rounds_completed + fuel ≤ seconds
        → length progress.samples ≡ progress.rounds_completed
        → let whole : Result PartialSoak × Bench lab =
            load_rounds lab (suc fuel) fl own start deadline progress b in
          Loads fl own start deadline seconds whole.0 whole.1
    unfolding load_rounds
    rounds-Loads zero fl own start deadline seconds progress b enough most sampled =
        load_if fl own start deadline seconds progress b _ (omega arith) sampled
          (λ early. absurd (omega arith))
    rounds-Loads (suc fuel) fl own start deadline seconds progress b enough most sampled =
        let b' : Bench lab = (load_round lab fl own start progress b).1 in
        load_if fl own start deadline seconds progress b _ (omega arith) sampled (λ early.
          round-Loads fl own start deadline seconds progress b _ _ early refl (λ next e.
            let passed = (Takes-load_round fl own start progress).passes b next e in
            let (one, sample) = (Yields-load_round fl own start progress).yields b next e in
            rounds-Loads fuel fl own start deadline seconds next b' (omega arith) (omega arith)
              (omega arith)))

    -- On a monotonic clock the load of the soak, started with no round and not before its start, ends:
    -- once its time has passed, with a sample for each round and at most a round for each second of
    -- the time asked for, or with the exception of a round that began in time.
    pub load_rounds-Loads :
        (fl : Arithmetic) (own : Json) (start duration : ℕ) (b : Bench lab)
        → start ≤ lab.now b.state
        → let first : PartialSoak = record { session = own; rounds_completed = 0; samples = [] } in
          let whole : Result PartialSoak × Bench lab =
            load_rounds lab (suc duration) fl own start (start + 1000 * duration) first b in
          Loads fl own start (start + 1000 * duration) duration whole.0 whole.1
    load_rounds-Loads fl own start duration b h =
        rounds-Loads duration fl own start (start + 1000 * duration) duration _ b (omega arith)
          (omega arith) refl
