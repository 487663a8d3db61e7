-- ===== src/HarnessCheck/Events.antt =====
-- scripts/harness-check.py: `Follow.event` and `Follow.consume`.
use uart2llm.Prelude.{
  ◌+◌, String, Bool, false, Option, none, some, List, [], ◌∷◌, ◌++◌, not, ◌&&◌, any, if◌then◌else◌,
}
use uart2llm.Prelude.Int.{pos}
use uart2llm.Python.Exec.{Exec, pure, lift, ◌>>=◌, ◌>>◌}
use uart2llm.Python.Float.{Arithmetic}
use uart2llm.Python.Json
use uart2llm.Python.Json.{
  Json, null, bool, int, str, arr, obj, nil, field, end, empty, or_empty, equals_str, truthy,
  iterate, item,
}
use uart2llm.Python.Json.Equality.{equals}
use uart2llm.HarnessCheck.Values.{
  TextTools, code, markers_in, text_blocks, add_all, find, put, require_hash, at_most, next_number,
}
use uart2llm.HarnessCheck.Tools.{
  Tool, parsed_arguments, argument_keys, evidence_markers, call_fields, call_entry, update,
  join_lines, started_job, with_result,
}
use uart2llm.HarnessCheck.Follow.{Follow, modify, read_field, count_more, add_gap, add_markers}
use uart2llm.HarnessCheck.Briefs.{
  to_fields, route, offered, child_of, with_child, message_parts, message_usage, add_usage,
  error_code,
}

-- Events come in order, but those of the snapshot.
unfoldable pub check_sequence : Arithmetic → Bool → Json → Exec Follow (Unit {0})
unfolding at_most next_number equals add_gap
check_sequence fl opening seq = do
  cursor ← read_field (λ f. f.cursor)
  begun ← lift (at_most fl (int (pos 0)) cursor)
  next ← lift (next_number fl cursor)
  if not opening && begun && not (equals seq next)
      then add_gap "durable_event_sequence"
      else pure tt

-- The texts of a message are measured and searched for markers.
unfoldable pub add_texts : TextTools → List String → Exec Follow (Unit {0})
unfolding add_markers markers_in
add_texts t [] = pure tt
add_texts t (text ∷ texts) = do
  modify (λ f. record f { text_bytes = f.text_bytes + t.encoded_length text })
  add_markers (markers_in text)
  add_texts t texts

unfoldable pub request_header : Json → Exec Follow Tool
unfolding route offered
request_header data_of = do
  found ← lift (route data_of)
  names ← lift (offered data_of)
  modify (λ f. record f { available_tools = add_all names f.available_tools })
  pure (("route", obj (to_fields found)) ∷ [])

unfoldable pub catalog_entry : Json → Exec Follow Tool
unfolding child_of with_child
catalog_entry data_of = do
  child ← lift (child_of data_of)
  modify (λ f. record f { children = with_child child f.children })
  pure []

unfoldable pub assistant_message : TextTools → Arithmetic → Json → Exec Follow Tool
unfolding message_parts message_usage add_usage count_more add_texts
assistant_message t fl data_of = do
  parts ← lift (message_parts data_of)
  count_more parts.0 (str "reasoning_blocks")
  add_texts t parts.1
  usage ← lift (message_usage data_of)
  modify (λ f. record f { usage = add_usage fl usage f.usage })
  interrupted ← lift (Json.get "interrupted" (bool false) data_of)
  pure (("interrupted", interrupted) ∷ [])

unfoldable pub tool_call : TextTools → Json → Exec Follow (Unit {0})
unfolding parsed_arguments argument_keys evidence_markers call_fields call_entry add_markers put
tool_call t data_of = do
  arguments ← lift (Json.get "arguments" (str "") data_of)
  parsed ← lift (parsed_arguments (t.loads arguments))
  id ← lift (Json.get "callId" null data_of)
  name ← lift (Json.get "name" null data_of)
  keys ← lift (argument_keys parsed.0)
  found ← lift (evidence_markers t name parsed.0)
  add_markers found
  children ← read_field (λ f. f.children)
  jobs ← read_field (λ f. f.owned_jobs)
  more ← lift (call_fields children jobs (code name) parsed.0)
  key ← lift (item "callId" data_of)
  lift (require_hash key)
  modify (λ f. record f {
    tools = put key (update more (call_entry t id name arguments parsed.0 parsed.1 keys)) f.tools;
  })

-- `self.tools.setdefault(...)`
unfoldable pub tool_of : Json → List (Json × Tool) → Tool
unfolding find
tool_of id tools = elim (find id tools) [ none ↦ ("call_id", id) ∷ [] | some tool ↦ tool ]

abbrev pub with_job : Option Json → List Json → List Json
with_job none jobs = jobs
with_job (some job) jobs = if any (equals job) jobs then jobs else jobs ++ (job ∷ [])

-- A block of a tool's result.
unfoldable pub result_block : TextTools → Json → Exec Follow (Unit {0})
unfolding tool_of with_result started_job join_lines put add_markers text_blocks markers_in
result_block t block = do
  id ← lift (Json.get "toolCallId" null block)
  lift (require_hash id)
  tool ← read_field (λ f. tool_of id f.tools)
  is_error ← lift (Json.get "isError" null block)
  content ← lift (Json.get "content" null block)
  let texts : String = join_lines (text_blocks content)
  add_markers (markers_in texts)
  modify (λ f. record f {
    owned_jobs = with_job (started_job t tool (truthy is_error) texts) f.owned_jobs;
  })
  after ← lift (with_result t (truthy is_error) texts tool)
  modify (λ f. record f { tools = put id after f.tools })

unfoldable pub result_blocks : TextTools → List Json → Exec Follow (Unit {0})
unfolding result_block equals_str
result_blocks t [] = pure tt
result_blocks t (block ∷ blocks) = do
  kind ← lift (Json.get "type" null block)
  (if equals_str "tool-result" kind then result_block t block else pure tt)
  result_blocks t blocks

unfoldable pub tool_result : TextTools → Json → Exec Follow Tool
unfolding result_blocks error_code iterate
tool_result t data_of = do
  message ← lift (Json.get "message" empty data_of)
  content ← lift (Json.get "content" (arr nil) message)
  blocks ← lift (iterate content)
  result_blocks t blocks
  found ← lift (error_code data_of)
  pure (("error_code", found) ∷ [])
