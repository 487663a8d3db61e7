-- ===== src/HarnessCheck/Progress.antt =====
-- scripts/harness-check.py: what a `receive` that returns has brought, and that the waits end.
use mathlib.Core.Path.{subst}
use uart2llm.Prelude.{
  ℕ, zero, suc, ◌+◌, ◌-◌, ◌*◌, ◌≤◌, ◌<◌, ◌≡◌, refl, sym, ap, ◌∙◌, arith, String, Bool, true, false,
  Option, some, ◌⊎◌, inl, inr, ◌||◌, ltb, leb, ltb-false, or-eq-false, if◌then◌else◌,
}
use uart2llm.Python.Error.{Error, Result, ok, raise}
use uart2llm.Python.Exec.{Exec, pure, lift, continue, ◌>>=◌}
use uart2llm.Python.Float.{Arithmetic}
use uart2llm.Python.Json
use uart2llm.Python.Json.{Json, null}
use uart2llm.HarnessCheck.Values.{TextTools}
use uart2llm.HarnessCheck.Follow.{Follow}
use uart2llm.HarnessCheck.Review.{Asked, review_of, expected_question, other}
use uart2llm.HarnessCheck.Frames.{frames, Keeps, Keeps-consume}
use uart2llm.HarnessCheck.Session.{
  Remote, Session, Incoming, nothing, failed, closed, arrived, remotely, on_follow, update_follow,
  look, ask_guard, answer_review, answer_question, answer, reply_to, answer_request, note_ready,
  interaction, of_stream, dispatch, count_frame, check_frames, read_frame, incoming, receive,
  receive_while, enough,
}

-- The clock does not turn back, and a `recv` that yields nothing has waited.
pub record Steady (remote : Remote) : Type 0 where
  pub waits :
      (s : remote.State) → (remote.recv s).0 ≡ nothing → remote.now s < remote.now (remote.recv s).1
  pub receives : (s : remote.State) → remote.now s ≤ remote.now (remote.recv s).1
  pub calls :
      (path : String) (v : Json) (s : remote.State)
      → remote.now s ≤ remote.now (remote.rpc path v s).1
  pub guards : (s : remote.State) → remote.now s ≤ remote.now (remote.guard s).1

module _ (remote : Remote) where
  -- The action counts no frame, and the clock does not turn back.
  record Stays {A : Type 0} (act : Exec (Session remote) A) : Type 0 where
    same : (s : Session remote) → frames (act s).1.follow ≡ frames s.follow
    later : (s : Session remote) → remote.now s.state ≤ remote.now (act s).1.state

  continue-Stays :
      {A B : Type 0} (r : Result A) (k : A → Exec (Session remote) B) (s : Session remote)
      → ((a : A) → Stays (k a))
      → (frames (continue r k s).1.follow ≡ frames s.follow)
        × (remote.now s.state ≤ remote.now (continue r k s).1.state)
  continue-Stays (raise e) k s h = (refl, omega arith)
  continue-Stays (ok a) k s h = ((h a).same s, (h a).later s)

  Stays-bind :
      {A B : Type 0} (m : Exec (Session remote) A) (k : A → Exec (Session remote) B)
      → Stays m
      → ((a : A) → Stays (k a))
      → Stays (m >>= k)
  Stays-bind m k h g = record {
    same = λ s. (continue-Stays (m s).0 k (m s).1 g).0 ∙ h.same s;
    later = λ s.
        let first = h.later s in let second = (continue-Stays (m s).0 k (m s).1 g).1 in omega arith;
  }

  Stays-lift : {A : Type 0} (r : Result A) → Stays (lift r)
  Stays-lift r = record { same = λ s. refl; later = λ s. omega arith }

  Stays-look : {A : Type 0} (part : Session remote → Result A) → Stays (λ s. (part s, s))
  Stays-look part = record { same = λ s. refl; later = λ s. omega arith }

  Stays-update_follow :
      (change : Follow → Follow)
      → ((f : Follow) → frames (change f) ≡ frames f)
      → Stays (update_follow remote change)
  Stays-update_follow change h = record { same = λ s. h s.follow; later = λ s. omega arith }

  Stays-if :
      {A : Type 0} (c : Bool) (m n : Exec (Session remote) A)
      → Stays m
      → Stays n
      → Stays (if c then m else n)
  Stays-if true m n h g = h
  Stays-if false m n h g = g

  Stays-on_follow : {A : Type 0} (act : Exec Follow A) → Keeps act → Stays (on_follow remote act)
  unfolding on_follow
  Stays-on_follow act h = record { same = λ s. h.same s.follow; later = λ s. omega arith }

  module _ (steady : Steady remote) where
    Stays-rpc : (path : String) (v : Json) → Stays (remotely remote (remote.rpc path v))
    unfolding remotely
    Stays-rpc path v = record { same = λ s. refl; later = λ s. steady.calls path v s.state }

    Stays-guard : Stays (remotely remote remote.guard)
    unfolding remotely
    Stays-guard = record { same = λ s. refl; later = λ s. steady.guards s.state }

    ruleset session_steps = (
      Stays-rpc, Stays-guard, Stays-on_follow, Stays-if, Stays-lift, Stays-look, Stays-bind,
      Stays-update_follow, Keeps-consume, refl,
    )

    Stays-answer_review :
        (t : TextTools) (question : Json) → Stays (answer_review remote t question)
    unfolding answer_review ask_guard
    Stays-answer_review t question = search session_steps depth 40

    Stays-answer : (t : TextTools) (request : Asked) → Stays (answer remote t request)
    unfolding answer answer_question
    Stays-answer t (review_of question) = Stays-answer_review t question
    Stays-answer t expected_question = search session_steps depth 40
    Stays-answer t other = search session_steps depth 40

    Stays-interaction : (t : TextTools) (value : Json) → Stays (interaction remote t value)
    unfolding interaction answer_request reply_to note_ready
    Stays-interaction t value = search (Stays-answer, session_steps) depth 40

    Stays-dispatch :
        (t : TextTools) (fl : Arithmetic) (id frame : Json) → Stays (dispatch remote t fl id frame)
    unfolding dispatch
    Stays-dispatch t fl id frame = search (Stays-interaction, session_steps) depth 40

    after_check :
        (c : Bool) (e : Error) (k : Unit {0} → Exec (Session remote) (Unit {0}))
        (s : Session remote) (x : Unit {0})
        → (continue (if c then raise e else ok tt) k s).0 ≡ ok x
        → (c ≡ false) × ((continue (if c then raise e else ok tt) k s).1 ≡ (k tt s).1)
    after_check true e k s x h = cc
    after_check false e k s x h = (refl, refl)

    -- What a `receive` that returns has brought: it has waited, or it has counted one frame more, within
    -- the bounds.
    abbrev pub Counted : Session remote → Session remote → Type 0
    Counted s s' =
        (remote.now s.state ≤ remote.now s'.state)
        × (s'.follow.frame_count ≡ s.follow.frame_count + 1)
        × (s'.follow.frame_count ≤ 100000)
        × (s'.follow.received_bytes ≤ 32 * 1024 * 1024)

    abbrev pub Progress : Session remote → Session remote → Type 0
    Progress s s' =
        ((remote.now s.state < remote.now s'.state) × (frames s'.follow ≡ frames s.follow))
        ⊎ Counted s s'

    -- The rest of `read_frame` after the checks.
    rest_of : TextTools → Arithmetic → Result Json → Exec (Session remote) (Unit {0})
    rest_of t fl parsed = do
      frame ← lift parsed
      id ← lift (Json.get "streamId" null frame)
      ours ← look remote (λ f. of_stream remote f id)
      if ours then dispatch remote t fl id frame else pure tt

    Stays-rest_of :
        (t : TextTools) (fl : Arithmetic) (parsed : Result Json) → Stays (rest_of t fl parsed)
    unfolding rest_of
    Stays-rest_of t fl parsed = search (Stays-dispatch, session_steps) depth 40

    counted :
        (s s1 s2 : Session remote)
        → s1.follow.frame_count ≡ s.follow.frame_count + 1
        → frames s2.follow ≡ frames s1.follow
        → remote.now s1.state ≤ remote.now s2.state
        → remote.now s.state ≤ remote.now s1.state
        → s1.follow.frame_count ≤ 100000
        → s1.follow.received_bytes ≤ 32 * 1024 * 1024
        → Counted s s2
    counted s s1 s2 one kept later before count bytes =
        let same_count : s2.follow.frame_count ≡ s1.follow.frame_count = ap (λ p. p.0) kept in
        let same_bytes : s2.follow.received_bytes ≡ s1.follow.received_bytes = ap (λ p. p.1) kept in
        (omega arith, omega arith, omega arith, omega arith)

    read_frame-Progress :
        (t : TextTools) (fl : Arithmetic) (size : ℕ) (parsed : Result Json) (s : Session remote)
        (x : Unit {0})
        → (read_frame remote t fl size parsed s).0 ≡ ok x
        → Counted s (read_frame remote t fl size parsed s).1
    unfolding read_frame count_frame check_frames rest_of
    read_frame-Progress t fl size parsed s x h =
        let s1 : Session remote = (count_frame remote size s).1 in
        let c : Bool =
          ltb (32 * 1024 * 1024) s1.follow.received_bytes || ltb 100000 s1.follow.frame_count in
        let (clear, same) = after_check c _ (λ u. rest_of t fl parsed) s1 x h in
        let (bytes, count) =
          or-eq-false (ltb (32 * 1024 * 1024) s1.follow.received_bytes) _ clear in
        let kept = (Stays-rest_of t fl parsed).same s1 in
        let later = (Stays-rest_of t fl parsed).later s1 in
        subst (Counted s) (sym same) (
          counted s s1 (rest_of t fl parsed s1).1 (omega arith) kept later (omega arith)
            (ltb-false _ _ count) (ltb-false _ _ bytes))

    incoming-Progress :
        (t : TextTools) (fl : Arithmetic) (found : Incoming) (s : Session remote) (x : Unit {0})
        → (remote.recv s.state).0 ≡ found
        → (let s0 : Session remote = record s { state = (remote.recv s.state).1 } in
            (incoming remote t fl found s0).0 ≡ ok x)
        → let s0 : Session remote = record s { state = (remote.recv s.state).1 } in
          Progress s (incoming remote t fl found s0).1
    unfolding incoming
    incoming-Progress t fl nothing s x h e = inl (steady.waits s.state h, refl)
    incoming-Progress t fl (failed y) s x h e = cc
    incoming-Progress t fl closed s x h e = cc
    incoming-Progress t fl (arrived size parsed) s x h e =
        let s0 : Session remote = record s { state = (remote.recv s.state).1 } in
        let (later, count, most, bytes) = read_frame-Progress t fl size parsed s0 x e in
        let received = steady.receives s.state in inr (omega arith, count, most, bytes)

    in_time :
        (late : Bool) (e : Error) (s : Session remote) (rest : Result (Unit {0}) × Session remote)
        (x : Unit {0})
        → (let whole : Result (Unit {0}) × Session remote = if late then (raise e, s) else rest in
            whole.0 ≡ ok x)
        → let whole : Result (Unit {0}) × Session remote = if late then (raise e, s) else rest in
          (late ≡ false) × (rest.0 ≡ ok x) × (whole.1 ≡ rest.1)
    in_time true e s rest x h = cc
    in_time false e s rest x h = (refl, h, refl)

    leb-false : (a b : ℕ) → leb a b ≡ false → b < a
    leb-false a b h = ground arith

    -- A receive that returns was started before the deadline; it has waited and counted no frame, or it
    -- has counted one frame more, and the frames are 100000 at most, with lengths of 32 * 1024 * 1024
    -- at most in all.
    pub receive-Progress :
        (t : TextTools) (fl : Arithmetic) (deadline : ℕ) (s : Session remote) (x : Unit {0})
        → (receive remote t fl deadline s).0 ≡ ok x
        → (remote.now s.state < deadline) × Progress s (receive remote t fl deadline s).1
    unfolding receive incoming
    receive-Progress t fl deadline s x h =
        let state = (remote.recv s.state).1 in
        let found = (remote.recv s.state).0 in
        let s0 : Session remote = record s { state = state } in
        let (early, came, same) =
          in_time (leb deadline (remote.now s.state)) _ s (incoming remote t fl found s0) x h in
        (
          leb-false deadline (remote.now s.state) early,
          subst (Progress s) (sym same) (incoming-Progress t fl found s x refl came),
        )

    -- Whether the loop has ended.
    Ended : Option (Result (Unit {0})) × Session remote → Type 0
    Ended p = (r : Result (Unit {0})) × (p.0 ≡ some r)

    after_receive :
        (got : Result (Unit {0})) (s' : Session remote)
        (later : Option (Result (Unit {0})) × Session remote)
        → ((u : Unit {0}) → got ≡ ok u → Ended later)
        → Ended (elim got as (λ g. Option (Result (Unit {0})) × Session remote) [
          | raise e ↦ (some (raise e), s')
          | ok u ↦ later
        ])
    unfolding Ended
    after_receive (raise e) s' later h = (raise e, refl)
    after_receive (ok u) s' later h = h u refl

    Ended-if :
        (go : Bool) (p : Option (Result (Unit {0})) × Session remote) (s : Session remote)
        → Ended p
        → Ended (if go then p else (some (ok tt), s))
    unfolding Ended
    Ended-if true p s h = h
    Ended-if false p s h = (ok tt, refl)

    falls :
        (s s' : Session remote) (deadline fuel : ℕ)
        → remote.now s.state < deadline
        → Progress s s'
        → 100001 - s.follow.frame_count + (deadline - remote.now s.state) < suc fuel
        → 100001 - s'.follow.frame_count + (deadline - remote.now s'.state) < fuel
    falls s s' deadline fuel early (inl (later, same)) h =
        let same_count : s'.follow.frame_count ≡ s.follow.frame_count = ap (λ p. p.0) same in
        omega arith
    falls s s' deadline fuel early (inr (later, one, most, bytes)) h = omega arith

    receive_while-Ended :
        (fuel : ℕ) (waiting : Follow → Bool) (t : TextTools) (fl : Arithmetic) (deadline : ℕ)
        (s : Session remote)
        → 100001 - s.follow.frame_count + (deadline - remote.now s.state) < fuel
        → Ended (receive_while remote fuel waiting t fl deadline s)
    unfolding receive_while
    receive_while-Ended zero waiting t fl deadline s h = absurd (omega arith)
    receive_while-Ended (suc fuel) waiting t fl deadline s h =
        let s' : Session remote = (receive remote t fl deadline s).1 in
        let got = (receive remote t fl deadline s).0 in
        Ended-if (waiting s.follow) _ s (
          after_receive got s' (receive_while remote fuel waiting t fl deadline s') (λ u e.
            let (early, came) = receive-Progress t fl deadline s u e in
            receive_while-Ended fuel waiting t fl deadline s'
              (falls s s' deadline fuel early came h)))

    -- A wait of the follower ends, with what the loop of receives came to, however many frames arrive:
    -- the number of rounds that it is given is enough, on a clock that does not turn back.
    pub wait_ends :
        (waiting : Follow → Bool) (t : TextTools) (fl : Arithmetic) (deadline : ℕ)
        (s : Session remote)
        → (r : Result (Unit {0})) × ((receive_while remote
              (enough remote deadline s)
              waiting
              t
              fl
              deadline
              s).0
            ≡ some r)
    unfolding Ended
    wait_ends waiting t fl deadline s =
        receive_while-Ended (enough remote deadline s) waiting t fl deadline s (omega arith)
