-- ===== src/HarnessCheck/Records.antt =====
-- scripts/harness-check.py: `Follow.event`, by the kind of the event, and `Follow.consume`.
use uart2llm.Prelude.{Bool, true, false, List, [], ◌∷◌, ◌++◌, ◌||◌, ltb, length, if◌then◌else◌}
use uart2llm.Python.Error.{ok, raise, runtime_error}
use uart2llm.Python.Exec.{Exec, pure, lift, ◌>>=◌, ◌>>◌}
use uart2llm.Python.Float.{Arithmetic}
use uart2llm.Python.Json
use uart2llm.Python.Json.{Json, null, str, arr, obj, nil, empty, equals_str, truthy, iterate, item}
use uart2llm.HarnessCheck.Values.{TextTools, require_hash, count_of, at_most}
use uart2llm.HarnessCheck.Tools.{Tool}
use uart2llm.HarnessCheck.Follow.{Follow, modify, read_field, count_more, stream_frame}
use uart2llm.HarnessCheck.Briefs.{to_fields, code_at, goal_state, todo_state, turn_reason}
use uart2llm.HarnessCheck.Events.{
  check_sequence, request_header, catalog_entry, assistant_message, tool_call, tool_result,
}

-- What an event of this kind does, and what it adds to the brief entry; the entry of a turn's end is
-- kept in `turn_ends` too.
unfoldable pub by_kind : TextTools → Arithmetic → Json → Json → Tool → Exec Follow Tool
unfolding request_header catalog_entry assistant_message tool_call tool_result turn_reason
    goal_state todo_state code_at equals_str to_fields
by_kind t fl kind data_of brief =
    if equals_str "request/header" kind
    then request_header data_of
    else if equals_str "subagent/catalog" kind
    then catalog_entry data_of
    else if equals_str "plan/mode" kind
    then (do active ← lift (Json.get "active" null data_of); pure (("active", active) ∷ []))
    else if equals_str "tool-workflow/run-end" kind
    then (do reason ← lift (code_at "stopReason" data_of); pure (("stop_reason", reason) ∷ []))
    else if equals_str "goal/change" kind
    then (do
      state ← lift (goal_state data_of)
      modify (λ f. record f { goal_states = f.goal_states ++ (state ∷ []) })
      pure [])
    else if equals_str "todo/write" kind
    then (do
      state ← lift (todo_state data_of)
      modify (λ f. record f { todo_states = f.todo_states ++ (state ∷ []) })
      pure [])
    else if equals_str "turn/end" kind
    then (do
      reason ← lift (turn_reason data_of)
      modify (λ f. record f { turn_ends = f.turn_ends ++ (obj (to_fields (brief ++ reason)) ∷ []) })
      pure reason)
    else if equals_str "assistant/message" kind
    then assistant_message t fl data_of
    else if equals_str "tool/call" kind
    then tool_call t data_of >> pure []
    else if equals_str "tool/result" kind
    then tool_result t data_of
    else pure []

-- The bounds on the events of a session and on its requests to the model.
unfoldable pub check_bounds : Exec Follow (Unit {0})
unfolding count_of
check_bounds f = (
  (if ltb 15000 (length f.events) || ltb 48 (count_of (str "step/start") f.counts)
      then raise (runtime_error "session_event_or_model_request_bound_exceeded")
      else ok tt),
  f,
)

-- An event that is new.
unfoldable pub new_event :
    TextTools → Arithmetic → Bool → Json → Json → Json → Json → Exec Follow (Unit {0})
unfolding check_sequence by_kind check_bounds count_more to_fields
new_event t fl opening value seq kind data_of = do
  check_sequence fl opening seq
  modify (λ f. record f { cursor = seq })
  lift (require_hash kind)
  count_more 1 kind
  time ← lift (Json.get "time" null value)
  let brief : Tool = ("seq", seq) ∷ ("type", kind) ∷ ("time", time) ∷ []
  more ← by_kind t fl kind data_of brief
  modify (λ f. record f { events = f.events ++ (obj (to_fields (brief ++ more)) ∷ []) })
  check_bounds

-- `event`
unfoldable pub event : TextTools → Arithmetic → Bool → Json → Exec Follow (Unit {0})
unfolding new_event at_most item
event t fl opening value = do
  seq ← lift (item "seq" value)
  kind ← lift (item "type" value)
  data_of ← lift (Json.get "data" empty value)
  cursor ← read_field (λ f. f.cursor)
  old ← lift (at_most fl seq cursor)
  if old then pure tt else new_event t fl opening value seq kind data_of

-- The events among the records of a snapshot.
unfoldable pub snapshot_events : TextTools → Arithmetic → List Json → Exec Follow (Unit {0})
unfolding event equals_str item
snapshot_events t fl [] = pure tt
snapshot_events t fl (entry ∷ entries) = do
  kind ← lift (Json.get "type" null entry)
  (if equals_str "event" kind
      then (do value ← lift (item "event" entry); event t fl true value)
      else pure tt)
  snapshot_events t fl entries

-- The snapshot at the opening of a stream.
unfoldable pub snapshot : TextTools → Arithmetic → Json → Exec Follow (Unit {0})
unfolding snapshot_events truthy iterate item
snapshot t fl value = do
  more ← lift (Json.get "hasMore" null value)
  (if truthy more then lift (raise (runtime_error "opening_history_exceeds_bound")) else pure tt)
  found ← lift (Json.get "records" (arr nil) value)
  entries ← lift (iterate found)
  snapshot_events t fl entries
  cursor ← lift (item "cursor" value)
  modify (λ f. record f { cursor = cursor })
  stream ← lift (Json.get "assistantStream" empty value)
  active ← lift (Json.get "activeAttempt" null stream)
  if truthy active
      then lift (raise (runtime_error "unexpected_active_attempt_at_open"))
      else pure tt

-- `consume`
unfoldable pub consume : TextTools → Arithmetic → Json → Exec Follow (Unit {0})
unfolding snapshot event stream_frame equals_str item
consume t fl value = do
  kind ← lift (Json.get "type" null value)
  if equals_str "snapshot" kind
      then snapshot t fl value
      else if equals_str "event" kind
      then (do inner ← lift (item "event" value); event t fl false inner)
      else if equals_str "assistant-stream" kind
      then (do frame ← lift (item "frame" value); stream_frame frame)
      else pure tt
