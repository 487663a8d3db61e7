-- ===== src/HarnessCheck/Follow.antt =====
-- scripts/harness-check.py: `Follow`, and what it makes of the records that the harness streams.
use uart2llm.Prelude.{
  ℕ, ◌+◌, String, Bool, true, false, none, some, List, [], ◌∷◌, ◌++◌, if◌then◌else◌,
}
use uart2llm.Prelude.Int.{negsuc}
use uart2llm.Python.Error.{ok}
use uart2llm.Python.Exec.{Exec, pure, lift, ◌>>=◌, ◌>>◌}
use uart2llm.Python.Json
use uart2llm.Python.Json.{
  Json, Items, Fields, null, bool, int, float, str, arr, obj, nil, cons, end, field, empty,
  or_empty, equals_str, truthy, iterate, item,
}
use uart2llm.HarnessCheck.Values.{add_all, find, put, require_hash, tally}
use uart2llm.HarnessCheck.Tools.{Tool}

-- An entry of `self.attempts`.
pub record Attempt : Type 0 where
  pub chunks : ℕ
  pub started : Bool
  pub ended : Bool
  pub outcome : Json

-- An entry of `self.plan_reviews`.
pub record PlanReview : Type 0 where
  pub fixture_unchanged : Bool
  pub plan_scope_valid : Bool
  pub plan_sha256 : String
  pub plan_bytes : ℕ
  pub approved : Bool

-- An entry of `self.turn_ends`, which is an event too.
pub record Follow : Type 0 where
  pub session_id : Json
  pub stream_id : String
  pub events : List Json
  pub tools : List (Json × Tool)
  pub attempts : List (Json × Attempt)
  pub counts : List (Json × ℕ)
  pub usage : List (String × Json)
  pub markers : List String
  pub cursor : Json
  pub turn_ends : List Json
  pub children : List Json
  pub available_tools : List String
  pub gaps : List String
  pub text_bytes : ℕ
  pub received_bytes : ℕ
  pub frame_count : ℕ
  pub interaction_stream_id : Json
  pub event_client_id : Json
  pub has_guard : Bool
  pub plan_reviews : List PlanReview
  pub fixture_question : Json
  pub question_answers : List Json
  pub goal_states : List Json
  pub todo_states : List Json
  pub owned_jobs : List Json

-- `__init__`, for a session and the random id of its stream.
unfoldable pub new_follow : Json → String → Follow
new_follow session stream = record {
  session_id = session;
  stream_id = stream;
  events = [];
  tools = [];
  attempts = [];
  counts = [];
  usage = [];
  markers = [];
  cursor = int (negsuc 0);
  turn_ends = [];
  children = [];
  available_tools = [];
  gaps = [];
  text_bytes = 0;
  received_bytes = 0;
  frame_count = 0;
  interaction_stream_id = null;
  event_client_id = null;
  has_guard = false;
  plan_reviews = [];
  fixture_question = null;
  question_answers = [];
  goal_states = [];
  todo_states = [];
  owned_jobs = [];
}

abbrev pub modify : (Follow → Follow) → Exec Follow (Unit {0})
modify change f = (ok tt, change f)

abbrev pub read_field : {A : Type 0} → (Follow → A) → Exec Follow A
read_field part f = (ok (part f), f)

-- `self.counts[key] += n`
unfoldable pub count_more : ℕ → Json → Exec Follow (Unit {0})
unfolding tally
count_more n key = modify (λ f. record f { counts = tally n key f.counts })

unfoldable pub add_gap : String → Exec Follow (Unit {0})
add_gap what = modify (λ f. record f { gaps = f.gaps ++ (what ∷ []) })

unfoldable pub add_markers : List String → Exec Follow (Unit {0})
unfolding add_all
add_markers found = modify (λ f. record f { markers = add_all found f.markers })

abbrev fresh_attempt : Attempt
fresh_attempt = record { chunks = 0; started = false; ended = false; outcome = null }

-- `self.attempts.setdefault(...)`
unfoldable pub attempt_of : Json → List (Json × Attempt) → Attempt
unfolding find
attempt_of id attempts = elim (find id attempts) [ none ↦ fresh_attempt | some a ↦ a ]

unfoldable pub set_attempt : Json → Attempt → Exec Follow (Unit {0})
unfolding put
set_attempt id attempt = modify (λ f. record f { attempts = put id attempt f.attempts })

unfoldable pub is_count : ℕ → Json → Bool
is_count n v = Json.equals_ℕ n v

-- A chunk, whose index has to be the number of chunks so far.
unfoldable pub chunk_frame : Json → Json → Attempt → Exec Follow (Unit {0})
unfolding is_count add_gap set_attempt count_more
chunk_frame id frame attempt = do
  index ← lift (Json.get "index" null frame)
  (if is_count attempt.chunks index then pure tt else add_gap "assistant_chunk_index")
  set_attempt id (record attempt { chunks = attempt.chunks + 1 })
  count_more 1 (str "live_assistant_chunks")

unfoldable pub end_frame : Json → Json → Attempt → Exec Follow (Unit {0})
unfolding is_count add_gap set_attempt
end_frame id frame attempt = do
  index ← lift (Json.get "index" null frame)
  (if is_count attempt.chunks index then pure tt else add_gap "assistant_end_index")
  set_attempt id (record attempt { ended = true })
  outcome ← lift (Json.get "outcome" empty frame)
  kind ← lift (Json.get "kind" null outcome)
  set_attempt id (record attempt { ended = true; outcome = kind })

-- A frame of the stream of the assistant's message.
unfoldable pub stream_frame : Json → Exec Follow (Unit {0})
unfolding attempt_of set_attempt chunk_frame end_frame equals_str
stream_frame frame = do
  id ← lift (item "attemptId" frame)
  lift (require_hash id)
  attempt ← read_field (λ f. attempt_of id f.attempts)
  set_attempt id attempt
  kind ← lift (item "type" frame)
  if equals_str "start" kind
      then set_attempt id (record attempt { started = true })
      else if equals_str "chunk" kind
      then chunk_frame id frame attempt
      else if equals_str "end" kind
      then end_frame id frame attempt
      else pure tt
