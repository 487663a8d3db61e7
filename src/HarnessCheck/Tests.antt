-- ===== src/HarnessCheck/Tests.antt =====
-- scripts/harness-check.py: tests, and the theorems at concrete inputs.
use uart2llm.Prelude.{
  ℕ, ◌+◌, ◌*◌, ◌≤◌, ◌<◌, ◌≡◌, refl, arith, Bool, true, false, some, [], ◌∷◌, ◌⊎◌, ◌==◌, leb, length,
  codes,
}
use uart2llm.Python.Error.{Result, ok, raise, value_error}
use uart2llm.Python.Float.{Arithmetic}
use uart2llm.Python.Json.{Json, str, arr, obj, field, end, nil, cons}
use uart2llm.HarnessCheck.Values.{TextTools}
use uart2llm.HarnessCheck.Follow.{Follow, new_follow}
use uart2llm.HarnessCheck.Session.{
  Remote, Session, Incoming, nothing, arrived, interaction, receive, receive_while, enough,
}
use uart2llm.HarnessCheck.Progress.{Steady, Progress, receive-Progress, wait_ends}
use uart2llm.HarnessCheck.Approvals.{approvals, interactions, approvals_at_most_one}
use uart2llm.HarnessCheck.Questions.{AsksReview}
use uart2llm.HarnessCheck.Reviewers.{interaction-AsksReview}

abbrev plain_text : TextTools
plain_text = record {
  loads = λ v. raise (value_error "no JSON");
  text_of = λ v. "text";
  dumps = λ v. "{}";
  digest = λ s. "digest";
  encoded_length = λ s. length (codes s);
  lstrip = λ s. codes s;
  strip = λ s. s;
}

abbrev no_arithmetic : Arithmetic
no_arithmetic = record {
  add = λ x y. x + y;
  sub = λ x y. x;
  mul = λ x y. x * y;
  div = λ x y. x;
  less = λ x y. false;
  of_int = λ z. 0;
  round3 = λ x. x;
}

-- A frame of another stream.
abbrev foreign_frame : Json
foreign_frame = obj (field "streamId" (str "other") end)

first_frame : Bool → ℕ → Incoming × ℕ
first_frame true t = (arrived 20 (ok foreign_frame), t + 1)
first_frame false t = (nothing, t + 1000)

-- A harness whose state is the time alone: the first frame is of another stream, and no other comes.
harness_recv : ℕ → Incoming × ℕ
unfolding first_frame
harness_recv t = first_frame (t == 0) t

abbrev harness : Remote
unfolding harness_recv
harness = record {
  State = ℕ;
  rpc = λ path v t. (ok (obj end), t + 1);
  guard = λ t. (ok true, t);
  recv = harness_recv;
  send = λ v t. (ok tt, t);
  now = λ t. t;
}

first_frame_waits : (b : Bool) (t : ℕ) → (first_frame b t).0 ≡ nothing → t < (first_frame b t).1
unfolding first_frame
first_frame_waits true t h = cc
first_frame_waits false t h = omega arith

first_frame_later : (b : Bool) (t : ℕ) → t ≤ (first_frame b t).1
unfolding first_frame
first_frame_later true t = omega arith
first_frame_later false t = omega arith

steady_harness : Steady harness
unfolding harness harness_recv
steady_harness = record {
  waits = λ t. first_frame_waits (t == 0) t;
  receives = λ t. first_frame_later (t == 0) t;
  calls = λ path v t. omega arith;
  guards = λ t. omega arith;
}

fresh_session : Session harness
unfolding harness
fresh_session = record { state = 0; follow = new_follow (str "s1") "stream" }

received_one : (receive harness plain_text no_arithmetic 5000 fresh_session).0 ≡ ok tt
unfolding receive harness harness_recv first_frame fresh_session new_follow
received_one = refl

receive-Progress_example :
    (harness.now fresh_session.state < 5000)
    × Progress harness steady_harness fresh_session
        (receive harness plain_text no_arithmetic 5000 fresh_session).1
receive-Progress_example =
    receive-Progress harness steady_harness plain_text no_arithmetic 5000 fresh_session tt
      received_one

no_turn_yet : Follow → Bool
no_turn_yet f = leb (length f.turn_ends) 0

wait_ends_example :
    (r : Result (Unit {0})) × ((receive_while harness
        (enough harness 5000 fresh_session)
        no_turn_yet
        plain_text
        no_arithmetic
        5000
        fresh_session).0
      ≡ some r)
wait_ends_example =
    wait_ends harness steady_harness no_turn_yet plain_text no_arithmetic 5000 fresh_session

abbrev plan_question : Json
plan_question = obj (
    field "id" (str "plan-review") (
      field "intent" (obj (field "kind" (str "plan-review") (field "approve" (str "Approve") end)))
        (field "options" (arr (cons (obj (field "label" (str "Approve") end)) nil))
          (field "detail" (str "# Change price.py and run verify.py") end))))

abbrev plan_request : Json
plan_request = obj (
    field "type" (str "waterfall") (
      field "agentId" (str "s1") (
        field "event" (str "user-questions/request") (
          field "eventId" (str "e1")
            (field "request" (obj (field "questions" (arr (cons plan_question nil)) end)) end)))))

guarded_session : Session harness
unfolding harness new_follow
guarded_session =
    let f : Follow = new_follow (str "s1") "stream" in
    record { state = 0; follow = record f { has_guard = true } }

none_approved : approvals guarded_session.follow.plan_reviews ≤ 1
unfolding guarded_session new_follow approvals
none_approved = omega arith

approvals_at_most_one_example :
    approvals
      (interactions harness plain_text
        (plan_request ∷ plan_request ∷ [])
        guarded_session).follow.plan_reviews
    ≤ 1
approvals_at_most_one_example =
    approvals_at_most_one harness plain_text (plan_request ∷ plan_request ∷ []) guarded_session
      none_approved

interaction-AsksReview_example :
    ((interaction harness plain_text plan_request guarded_session).1.follow.plan_reviews
      ≡ guarded_session.follow.plan_reviews)
    ⊎ AsksReview plan_request guarded_session.follow
interaction-AsksReview_example =
    interaction-AsksReview harness plain_text plan_request guarded_session
