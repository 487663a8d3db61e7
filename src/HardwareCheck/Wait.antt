-- ===== src/HardwareCheck/Wait.antt =====
-- scripts/hardware-check.py: how `wait_ready` ends.
use uart2llm.Prelude.{
  ℕ, zero, suc, ◌+◌, ◌*◌, ◌≤◌, ◌<◌, ◌≡◌, refl, arith, Bool, true, false, none, some, not, ltb,
  ltb→lt, ltb-false, Bool-cases, inl, inr, if◌then◌else◌,
}
use uart2llm.Python.Error.{Error, Result, ok, raise, timeout_error, runtime_error}
use uart2llm.Python.Json.{Json}
use uart2llm.HardwareCheck.Bench.{
  ApiCall, Lab, Bench, get, request, outside, is_os_error, tested, round_result, ready, wait_rounds,
  wait_ready,
}

-- A monotonic clock: a pause takes its time, and a request does not turn the clock back.
pub record Clock (lab : Lab) : Type 0 where
  pub pauses : (ms : ℕ) (s : lab.State) → lab.now s + ms ≤ lab.now (lab.pause ms s)
  pub sends : (call : ApiCall) (s : lab.State) → lab.now s ≤ lab.now (lab.send call s).1

module _ (lab : Lab) where
  -- How the wait ends: with a state that passes the test, past the deadline, with a daemon that has
  -- gone, or with an error of a request or of the test that is no failure of the network.
  pub data Waits (test : Json → Result Bool) (deadline : ℕ) : Result Json → Bench lab → Type 0 where
    settled :
        (state : Json) (b : Bench lab) → test state ≡ ok true → Waits test deadline (ok state) b
    late :
        (b : Bench lab)
        → deadline ≤ lab.now b.state
        → Waits test deadline (raise (timeout_error "device/daemon readiness deadline")) b
    gone :
        (b : Bench lab)
        → lab.alive b.state ≡ false
        → Waits test deadline (raise (runtime_error "daemon exited; inspect private daemon log")) b
    request_failed :
        (e : Error) (before b : Bench lab)
        → (get lab "/state" before).0 ≡ raise e
        → is_os_error e ≡ false
        → Waits test deadline (raise e) b
    unreadable :
        (e : Error) (state : Json) (b : Bench lab)
        → test state ≡ raise e
        → is_os_error e ≡ false
        → Waits test deadline (raise e) b

  after_round :
      (test : Json → Result Bool) (deadline : ℕ) (before b' : Bench lab) (answer : Result Json)
      (verdict : Result Bool) (later : Result Json × Bench lab)
      → (get lab "/state" before).0 ≡ answer
      → tested lab test answer ≡ verdict
      → Waits test deadline later.0 later.1
      → let whole : Result Json × Bench lab =
          elim (round_result lab answer verdict) as (λ x. Result Json × Bench lab) [
            | none ↦ later
            | some r ↦ (r, b')
          ] in
        Waits test deadline whole.0 whole.1
  unfolding round_result tested
  after_round test deadline before b' (raise e) verdict later h g rest =
      elim (Bool-cases (is_os_error e)) [
        | inl os ↦ rw os rest
        | inr os ↦ rw os (request_failed e before b' h os)
      ]
  after_round test deadline before b' (ok state) (raise e) later h g rest =
      elim (Bool-cases (is_os_error e)) [
        | inl os ↦ rw os rest
        | inr os ↦ rw os (unreadable e state b' g os)
      ]
  after_round test deadline before b' (ok state) (ok true) later h g rest = settled state b' g
  after_round test deadline before b' (ok state) (ok false) later h g rest = rest

  wait_if :
      (test : Json → Result Bool) (deadline : ℕ) (b : Bench lab) (whole : Result Json × Bench lab)
      → (lab.now b.state < deadline → Waits test deadline whole.0 whole.1)
      → let all : Result Json × Bench lab =
          if not (ltb (lab.now b.state) deadline)
          then (raise (timeout_error "device/daemon readiness deadline"), b)
          else if not (lab.alive b.state)
          then (raise (runtime_error "daemon exited; inspect private daemon log"), b)
          else whole in
        Waits test deadline all.0 all.1
  wait_if test deadline b whole h = elim (Bool-cases (ltb (lab.now b.state) deadline)) [
    | inr passed ↦ rw passed (late b (ltb-false _ _ passed))
    | inl early ↦ elim (Bool-cases (lab.alive b.state)) [
      | inr dead ↦ rw (early, dead) (gone b dead)
      | inl alive ↦ rw (early, alive) (h (ltb→lt _ _ early))
    ]
  ]

  -- One round, whatever comes after a pause.
  round-Waits :
      (test : Json → Result Bool) (fuel deadline : ℕ) (b : Bench lab)
      → (let b' : Bench lab = (get lab "/state" b).1 in
          let paused : Bench lab = record b' { state = lab.pause 500 b'.state } in
          let rest : Result Json × Bench lab = wait_rounds lab fuel deadline test paused in
          lab.now b.state < deadline → Waits test deadline rest.0 rest.1)
      → let whole : Result Json × Bench lab = wait_rounds lab (suc fuel) deadline test b in
        Waits test deadline whole.0 whole.1
  unfolding wait_rounds
  round-Waits test fuel deadline b h =
      let answer = (get lab "/state" b).0 in
      wait_if test deadline b _ (λ early.
        after_round test deadline b (get lab "/state" b).1 answer (tested lab test answer) _ refl
          refl (h early))

  wait_rounds-Waits :
      (clock : Clock lab) (test : Json → Result Bool) (fuel deadline : ℕ) (b : Bench lab)
      → deadline ≤ lab.now b.state + 500 * fuel
      → let whole : Result Json × Bench lab = wait_rounds lab (suc fuel) deadline test b in
        Waits test deadline whole.0 whole.1
  unfolding request outside
  wait_rounds-Waits clock test zero deadline b enough =
      round-Waits test zero deadline b (λ early. absurd (omega arith))
  wait_rounds-Waits clock test (suc fuel) deadline b enough =
      let b' : Bench lab = (get lab "/state" b).1 in
      let paused : Bench lab = record b' { state = lab.pause 500 b'.state } in
      let sent : lab.now b.state ≤ lab.now b'.state = clock.sends _ b.state in
      let waited : lab.now b'.state + 500 ≤ lab.now paused.state = clock.pauses 500 b'.state in
      round-Waits test (suc fuel) deadline b
        (λ early. wait_rounds-Waits clock test fuel deadline paused (omega arith))

  -- On a monotonic clock `wait_ready` ends: with a state that is ready, once the 35 seconds have
  -- passed, with a daemon that has gone, or with an error of a request or of a test that is no
  -- failure of the network.
  pub wait_ready-Waits :
      (clock : Clock lab) (paired : Bool) (old : Json) (predicate : Json → Result Bool)
      (b : Bench lab)
      → let whole : Result Json × Bench lab = wait_ready lab paired old predicate b in
        Waits (ready lab paired old predicate) (lab.now b.state + 35000) whole.0 whole.1
  unfolding wait_ready
  wait_ready-Waits clock paired old predicate b =
      wait_rounds-Waits clock (ready lab paired old predicate) 70 (lab.now b.state + 35000) b
        (omega arith)
