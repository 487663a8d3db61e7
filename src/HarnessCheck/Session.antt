-- ===== src/HarnessCheck/Session.antt =====
-- scripts/harness-check.py: `Follow` with the harness behind it: `interaction`, `receive`, `wait_turn`,
-- `subscribe_reviews`, `open` and `close`.
use uart2llm.Prelude.{
  ℕ, zero, suc, ◌+◌, ◌-◌, ◌*◌, String, Bool, true, false, Option, none, some, List, [], ◌∷◌, ◌++◌,
  not, ◌&&◌, ◌||◌, ltb, leb, any, length, if◌then◌else◌,
}
use uart2llm.Prelude.Int.{pos}
use uart2llm.Python.Error.{
  Error, Result, ok, raise, runtime_error, timeout_error, connection_error, index_error,
}
use uart2llm.Python.Exec.{Exec, pure, lift, ◌>>=◌, ◌>>◌}
use uart2llm.Python.Float.{Arithmetic}
use uart2llm.Python.Json
use uart2llm.Python.Json.{
  Json, null, bool, int, str, arr, obj, nil, cons, field, end, empty, equals_str, truthy, item,
}
use uart2llm.Python.Json.Equality.{equals}
use uart2llm.HarnessCheck.Values.{TextTools, code, at_most, is_negative_number}
use uart2llm.HarnessCheck.Follow.{Follow, Attempt}
use uart2llm.HarnessCheck.Records.{consume}
use uart2llm.HarnessCheck.Review.{
  Asked, review_of, expected_question, other, classify, reviewed, answer_next, answer_with,
}

-- What `recv` yields: nothing within its second, another exception, the end of the stream, or a frame
-- with its length, which counts the characters of a text, and what `json.loads` makes of it.
pub data Incoming : Type 0 where
  nothing : Incoming
  failed : Error → Incoming
  closed : Incoming
  arrived : ℕ → Result Json → Incoming

-- The harness behind the web socket: its answers to calls, the frames it sends, the guard of the
-- fixture's files, and the clock in milliseconds.
pub record Remote : Type 1 where
  pub State : Type 0
  pub rpc : String → Json → State → Result Json × State
  pub guard : State → Result Bool × State
  pub recv : State → Incoming × State
  pub send : Json → State → Result (Unit {0}) × State
  pub now : State → ℕ

module _ (remote : Remote) where
  pub record Session : Type 0 where
    pub state : remote.State
    pub follow : Follow

  unfoldable pub remotely : {A : Type 0} → (remote.State → Result A × remote.State) → Exec Session A
  remotely act s = let (r, state) = act s.state in (r, record s { state = state })

  unfoldable pub on_follow : {A : Type 0} → Exec Follow A → Exec Session A
  on_follow act s = let (r, follow) = act s.follow in (r, record s { follow = follow })

  abbrev pub update_follow : (Follow → Follow) → Exec Session (Unit {0})
  update_follow change s = (ok tt, record s { follow = change s.follow })

  abbrev pub look : {A : Type 0} → (Follow → A) → Exec Session A
  look part s = (ok (part s.follow), s)

  -- `self.review_guard() if self.review_guard else False`
  unfoldable pub ask_guard : Exec Session Bool
  unfolding remotely
  ask_guard = do
    there ← look (λ f. f.has_guard)
    if there then remotely remote.guard else pure false

  -- The answer to the review of a plan, and whether it approves.
  unfoldable pub answer_review : TextTools → Json → Exec Session (Json × Bool)
  unfolding ask_guard reviewed answer_with answer_next
  answer_review t question = do
    detail ← lift (Json.get "detail" (str "") question)
    unchanged ← ask_guard
    review ← look (λ f. reviewed t f unchanged detail)
    update_follow (λ f. record f { plan_reviews = f.plan_reviews ++ (review ∷ []) })
    pure (
        if review.approved
        then (answer_with (str "plan-review") "Approve", true)
        else (answer_next, false))

  question_entry : Json → Json
  question_entry id = obj (
      field "id" id
        (field "selected" (str "Blue") (field "exact_question_matched" (bool true) end)))

  unfoldable pub answer_question : Exec Session (Json × Bool)
  unfolding answer_with question_entry item
  answer_question = do
    expected ← look (λ f. f.fixture_question)
    id ← lift (item "id" expected)
    update_follow
        (λ f. record f { question_answers = f.question_answers ++ (question_entry id ∷ []) })
    pure (answer_with id "Blue", true)

  -- The answer to a request, and whether the run may go on.
  unfoldable pub answer : TextTools → Asked → Exec Session (Json × Bool)
  unfolding answer_review answer_question answer_next
  answer t (review_of question) = answer_review t question
  answer t expected_question = answer_question
  answer t other = pure (answer_next, false)

  result_call : Json → Json → Json → Json
  result_call client id outcome =
      obj (field "clientId" client (field "eventId" id (field "outcome" outcome end)))

  -- The answer is sent in any case; what was not expected of an own request ends the run.
  unfoldable pub reply_to : TextTools → Json → Bool → Asked → Exec Session (Unit {0})
  unfolding answer result_call remotely item
  reply_to t value owned request = do
    reply ← answer t request
    client ← look (λ f. f.event_client_id)
    id ← lift (item "eventId" value)
    _ ← remotely (remote.rpc "$events/result" (result_call client id reply.0))
    if owned && not reply.1
        then lift (raise (runtime_error "unexpected_or_unsafe_fixture_interaction"))
        else pure tt

  unfoldable pub answer_request : TextTools → Json → Exec Session (Unit {0})
  unfolding reply_to classify equals
  answer_request t value = do
    agent ← lift (Json.get "agentId" null value)
    owned ← look (λ f. equals agent f.session_id)
    request ← (λ s. (classify s.follow value, s))
    reply_to t value owned request

  unfoldable pub note_ready : Json → Exec Session (Unit {0})
  unfolding item
  note_ready value = do
    client ← lift (item "clientId" value)
    update_follow (λ f. record f { event_client_id = client })

  -- `interaction`
  unfoldable pub interaction : TextTools → Json → Exec Session (Unit {0})
  unfolding answer_request note_ready equals_str
  interaction t value = do
    kind ← lift (Json.get "type" null value)
    if equals_str "ready" kind
        then note_ready value
        else if equals_str "waterfall" kind
        then answer_request t value
        else pure tt

  -- Whether a frame is of one of the two streams, and of the second.
  unfoldable pub of_stream : Follow → Json → Bool
  unfolding equals
  of_stream f id = equals id (str f.stream_id) || equals id f.interaction_stream_id

  -- What a frame of the session's streams does, by its type.
  unfoldable pub dispatch : TextTools → Arithmetic → Json → Json → Exec Session (Unit {0})
  unfolding interaction consume on_follow code equals_str equals item
  dispatch t fl id frame = do
    kind ← lift (item "type" frame)
    if equals_str "error" kind
        then (do
          error ← lift (Json.get "error" empty frame)
          found ← lift (Json.get "code" null error)
          lift (raise (runtime_error (t.dumps (obj (field "code" (code found) end))))))
        else if equals_str "end" kind
        then lift (raise (connection_error "harness_follow_ended"))
        else if equals_str "item" kind
        then (do
          value ← lift (Json.get "value" empty frame)
          second ← look (λ f. equals id f.interaction_stream_id)
          if second then interaction t value else on_follow (consume t fl value))
        else pure tt

  -- A frame is counted before it is read.
  unfoldable pub count_frame : ℕ → Exec Session (Unit {0})
  count_frame size =
      update_follow (λ f. record f {
        received_bytes = f.received_bytes + size;
        frame_count = f.frame_count + 1;
      })

  unfoldable pub check_frames : Exec Session (Unit {0})
  check_frames s = (
    (if ltb (32 * 1024 * 1024) s.follow.received_bytes || ltb 100000 s.follow.frame_count
        then raise (runtime_error "websocket_observation_bound_exceeded")
        else ok tt),
    s,
  )

  unfoldable pub read_frame : TextTools → Arithmetic → ℕ → Result Json → Exec Session (Unit {0})
  unfolding count_frame check_frames of_stream dispatch
  read_frame t fl size parsed = do
    count_frame size
    check_frames
    frame ← lift parsed
    id ← lift (Json.get "streamId" null frame)
    ours ← look (λ f. of_stream f id)
    if ours then dispatch t fl id frame else pure tt

  unfoldable pub incoming : TextTools → Arithmetic → Incoming → Exec Session (Unit {0})
  unfolding read_frame
  incoming t fl nothing = pure tt
  incoming t fl (failed e) = lift (raise e)
  incoming t fl closed = lift (raise (connection_error "harness_websocket_closed"))
  incoming t fl (arrived size parsed) = read_frame t fl size parsed

  -- `receive`
  unfoldable pub receive : TextTools → Arithmetic → ℕ → Exec Session (Unit {0})
  unfolding incoming
  receive t fl deadline s =
      let (found, state) = remote.recv s.state in
      let rest = incoming t fl found (record s { state = state }) in
      if leb deadline (remote.now s.state)
      then (raise (timeout_error "harness_phase_deadline"), s)
      else rest

  -- `while waiting: self.receive(deadline)`, on fuel; none where that is used up.
  unfoldable pub receive_while :
      ℕ
      → (Follow → Bool)
      → TextTools
      → Arithmetic
      → ℕ
      → Session
      → Option (Result (Unit {0})) × Session
  unfolding receive
  receive_while zero waiting t fl deadline s = (none, s)
  receive_while (suc fuel) waiting t fl deadline s =
      let (got, s') = receive t fl deadline s in
      let later = receive_while fuel waiting t fl deadline s' in
      if waiting s.follow
      then elim got [ raise e ↦ (some (raise e), s') | ok u ↦ later ]
      else (some (ok tt), s)

  -- A receive that returns has read a frame, of which there are 100000 at most, or has waited for a
  -- second.
  abbrev pub enough : ℕ → Session → ℕ
  enough deadline s = 100002 + (deadline - remote.now s.state)

  unfoldable pub wait_for : (Follow → Bool) → TextTools → Arithmetic → ℕ → Exec Session (Unit {0})
  unfolding receive_while
  wait_for waiting t fl deadline s =
      let (got, s') = receive_while (enough deadline s) waiting t fl deadline s in
      (elim got [ none ↦ raise (runtime_error "the loop did not end") | some r ↦ r ], s')

  last_reason : List Json → Result Json
  unfolding item
  last_reason [] = raise index_error
  last_reason (v ∷ []) = item "reason" v
  last_reason (v ∷ w ∷ vs) = last_reason (w ∷ vs)

  unfoldable pub unfinished : Follow → Bool
  unfinished f = any (λ (entry : Json × Attempt). not entry.1.ended) f.attempts

  -- `wait_turn`
  unfoldable pub wait_turn : ℕ → TextTools → Arithmetic → ℕ → Exec Session Json
  unfolding wait_for unfinished last_reason
  wait_turn before t fl deadline = do
    wait_for (λ f. leb (length f.turn_ends) before) t fl deadline
    wait_for unfinished t fl deadline
    ends ← look (λ f. f.turn_ends)
    lift (last_reason ends)

  open_message : Json → String → Json → Json
  open_message id endpoint arguments = obj (
      field "type" (str "open") (
        field "streamId" id (
          field "endpoint" (str endpoint)
            (field "payload" (obj (field "args" arguments end)) end))))

  -- `subscribe_reviews`, with the random id of the stream.
  unfoldable pub subscribe_reviews : String → TextTools → Arithmetic → ℕ → Exec Session (Unit {0})
  unfolding wait_for open_message remotely
  subscribe_reviews id t fl deadline = do
    update_follow (λ f. record f { has_guard = true; interaction_stream_id = str id })
    remotely (remote.send (open_message (str id) "$events" empty))
    wait_for (λ f. not (truthy f.event_client_id)) t fl deadline

  follow_request : Json → Json
  follow_request address = obj (
      field "request"
        (obj (
          field "address" address
            (field "maxMessages" (int (pos 100)) (field "assistantStream" (bool true) end))))
        end)

  -- `open`, once the socket is connected. The loop's condition raises for a cursor that is no number.
  unfoldable pub open_stream : Json → TextTools → Arithmetic → ℕ → Exec Session (Unit {0})
  unfolding wait_for open_message follow_request remotely
  open_stream address t fl deadline = do
    id ← look (λ f. f.stream_id)
    remotely (remote.send (open_message (str id) "session/follow" (follow_request address)))
    wait_for (λ f. is_negative_number fl f.cursor) t fl deadline
    cursor ← look (λ f. f.cursor)
    _ ← lift (at_most fl cursor cursor)
    pure tt
