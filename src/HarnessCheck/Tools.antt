-- ===== src/HarnessCheck/Tools.antt =====
-- scripts/harness-check.py: what `Follow.event` records of a tool's call and of its result.
use Prim.Native.String.{◌++◌ as ◌<>◌}
use uart2llm.Prelude.{
  zero, suc, ℕ, String, Bool, true, false, Option, none, some, List, [], ◌∷◌, not, ◌&&◌, ◌||◌, leb,
  ◌==◌, any, all, length, codes, if◌then◌else◌,
}
use uart2llm.Prelude.Int.{pos}
use uart2llm.Python.Error.{
  Error, Result, ok, raise, ◌>>=◌, value_error, attribute_error, index_error, type_error, key_error,
  overflow_error, runtime_error, assertion_error, os_error, timeout_error, connection_error,
  http_exception, timeout_expired, keyboard_interrupt, system_exit,
}
use uart2llm.Python.Dict.{insert}
use uart2llm.Python.Json
use uart2llm.Python.Json.{
  Json, Items, null, bool, int, str, arr, obj, nil, cons, end, field, empty, or_empty, is_dict,
  is_true, equals_str, truthy, iterate, item,
}
use uart2llm.Python.Json.Equality.{equals}
use uart2llm.Python.Text.{starts_with}
use uart2llm.HarnessCheck.Values.{TextTools, code, contains, markers_in, require_hash, field_or}

-- An entry of `self.tools`.
abbrev pub Tool : Type 0
Tool = List (String × Json)

abbrev pub coordination_script : String
coordination_script =
    "const values = [2,3,5,7]; const sum = values.reduce((a,b)=>a+b,0); const squares = values.reduce((a,b)=>a+b*b,0); return {marker:'HARNESS-JS-VERIFIED',sum,squares};"

-- `json.loads` of the arguments; what is no JSON counts as an empty dict.
unfoldable pub parsed_arguments : Result Json → Result (Json × Bool)
parsed_arguments (ok v) = ok (v, is_dict v)
parsed_arguments (raise (value_error _)) = ok (empty, false)
parsed_arguments (raise type_error) = ok (empty, false)
parsed_arguments (raise e) = raise e

code_items : List Json → Items
unfolding code truthy
code_items [] = nil
code_items (v ∷ vs) = let rest = code_items vs in if truthy (code v) then cons v rest else rest

-- `[k for k in parsed if code(k)]`
unfoldable pub argument_keys : Json → Result Json
unfolding iterate code_items
argument_keys parsed = do keys ← iterate parsed; ok (arr (code_items keys))

-- The markers in the evidence of a structured output.
unfoldable pub evidence_markers : TextTools → Json → Json → Result (List String)
unfolding Json.get equals_str
evidence_markers t name parsed =
    if equals_str "structured_output" name
    then (do
      status ← Json.get "status" null parsed
      evidence ← Json.get "evidence" (str "") parsed
      ok (if equals_str "complete" status then markers_in (t.dumps evidence) else []))
    else ok []

-- Whether the arguments name a child of the session that goes on.
unfoldable pub own_child : List Json → Json → Result Bool
unfolding item Json.get equals equals_str
own_child [] parsed = ok false
own_child (c ∷ cs) parsed = do
  id ← item "child_id" c
  agent ← Json.get "agent_id" null parsed
  mode ← item "mode" c
  rest ← own_child cs parsed
  ok ((equals id agent && equals_str "continuable" mode) || rest)

-- Whether the arguments name a job of the session; only what has a hash can be in a set.
unfoldable pub own_job : List Json → Json → Result Bool
unfolding Json.get equals
own_job jobs parsed = do
  job ← Json.get "job_id" null parsed
  _ ← require_hash job
  ok (any (equals job) jobs)

-- The fields that a tool of this name has besides.
unfoldable pub call_fields : List Json → List Json → Json → Json → Result Tool
unfolding Json.get equals_str own_child own_job is_true
call_fields children jobs name parsed =
    if equals_str "create_goal" name
    then (do cap ← Json.get "max_goal_rounds" null parsed; ok (("goal_round_cap", cap) ∷ []))
    else if equals_str "update_goal" name
    then (do action ← Json.get "action" null parsed; ok (("goal_action", code action) ∷ []))
    else if equals_str "ralph" name
    then (do cap ← Json.get "maxRounds" null parsed; ok (("ralph_round_cap", cap) ∷ []))
    else if equals_str "workflow" name
    then (do
      script ← Json.get "script" null parsed
      ok (("exact_pure_js_script", bool (equals_str coordination_script script)) ∷ []))
    else if equals_str "send_message" name || equals_str "interrupt_agent" name
    then (do own ← own_child children parsed; ok (("targets_own_child", bool own) ∷ []))
    else if equals_str "pwsh" name
    then (do
      background ← Json.get "run_in_background" null parsed
      ok (("background", bool (is_true background)) ∷ []))
    else if equals_str "job_output" name || equals_str "job_kill" name
    then (do own ← own_job jobs parsed; ok (("targets_own_job", bool own) ∷ []))
    else ok []

-- The entry of a call, before its own fields.
unfoldable pub call_entry : TextTools → Json → Json → Json → Json → Bool → Json → Tool
call_entry t id name arguments parsed valid keys =
    ("call_id", id)
    ∷ ("name", code name)
    ∷ ("arguments_sha256", str (t.digest (t.text_of arguments)))
    ∷ ("arguments_valid_json", bool valid)
    ∷ ("result_received", bool false)
    ∷ ("argument_keys", keys)
    ∷ []

-- `'\n'.join(texts)`
unfoldable pub join_lines : List String → String
join_lines [] = ""
join_lines (t ∷ []) = t
join_lines (t ∷ u ∷ us) = t <> ("\n" <> join_lines (u ∷ us))

drop_text : ℕ → String → String
drop_text zero s = s
drop_text (suc n) String.[] = String.[]
drop_text (suc n) (String.◌∷◌ c s) = drop_text n s

-- `texts.split(separator, 1)[1]`, for a separator that is not empty.
unfoldable pub after_first : String → String → Result String
unfolding drop_text
after_first separator String.[] = raise index_error
after_first separator (String.◌∷◌ c s) =
    let later = after_first separator s in
    if starts_with (codes separator) (codes (String.◌∷◌ c s))
    then ok (drop_text (length (codes separator)) (String.◌∷◌ c s))
    else later

job_letter : ℕ → Bool
job_letter c =
    (leb b'0' c && leb c b'9')
    || (leb b'A' c && leb c b'Z')
    || (leb b'a' c && leb c b'z')
    || c == b'_'
    || c == b'-'

abbrev job_prefix : String
job_prefix = "started background job "

-- The pattern of a started job, on a text without white space at its ends: the job's name.
unfoldable pub job_name : String → Option Json
unfolding job_letter drop_text
job_name text =
    let name = drop_text (length (codes job_prefix)) text in
    if starts_with (codes job_prefix) (codes text)
      && not (length (codes name) == 0)
      && all job_letter (codes name)
    then some (str name)
    else none

-- A dict is equal to the result that the workflow has to return.
unfoldable pub is_workflow_result : Json → Bool
unfolding equals
is_workflow_result v = equals v (
    obj (
      field "marker" (str "HARNESS-JS-VERIFIED")
        (field "sum" (int (pos 17)) (field "squares" (int (pos 87)) end))))

-- The report of the worker is complete, and names its marker.
unfoldable pub is_worker_report : TextTools → Json → Result Bool
unfolding Json.get equals_str equals
is_worker_report t v = do
  status ← Json.get "status" null v
  steps ← Json.get "nextSteps" null v
  blocker ← Json.get "blocker" null v
  evidence ← Json.get "evidence" (arr nil) v
  ok (
      equals_str "complete" status
      && equals steps (arr nil)
      && equals_str "" blocker
      && contains "HARNESS-RALPH-VERIFIED" (t.dumps evidence))

-- `except (ValueError, AttributeError, IndexError)`; elsewhere one of the last two cannot arise.
caught : Error → Bool
caught (value_error _) = true
caught attribute_error = true
caught index_error = true
caught key_error = false
caught type_error = false
caught overflow_error = false
caught (runtime_error _) = false
caught (assertion_error _) = false
caught os_error = false
caught (timeout_error _) = false
caught (connection_error _) = false
caught http_exception = false
caught timeout_expired = false
caught keyboard_interrupt = false
caught (system_exit _) = false

-- What the handler for these exceptions makes of them.
unfoldable pub or_else {ℓ} : {A : Type ℓ} → A → Result A → Result A
unfolding caught
or_else d (ok a) = ok a
or_else d (raise e) = if caught e then ok d else raise e

-- A tool's fields with others written over them.
unfoldable pub update : Tool → Tool → Tool
unfolding insert
update [] tool = tool
update (entry ∷ entries) tool = update entries (insert entry.0 entry.1 tool)

goal_phase : TextTools → String → Result Tool
unfolding Json.get truthy
goal_phase t texts = do
  v ← t.loads (str texts)
  goal ← Json.get "goal" null v
  phase ← Json.get "phase" null (or_empty goal)
  ok (("goal_result_phase", code phase) ∷ [])

workflow_result : TextTools → String → Result Tool
unfolding is_workflow_result after_first
workflow_result t texts = do
  text ← after_first "\nReturn value:\n" texts
  v ← t.loads (str text)
  ok (("pure_js_result_verified", bool (is_workflow_result v)) ∷ [])

worker_report : TextTools → String → Result Tool
unfolding is_worker_report after_first
worker_report t texts = do
  text ← after_first "\nFinal report:\n" texts
  v ← t.loads (str text)
  good ← is_worker_report t v
  ok (("structured_report_verified", bool good) ∷ [])

-- The fields that the result of a tool of this name sets besides.
unfoldable pub result_fields : TextTools → Json → String → Result Tool
unfolding equals_str goal_phase workflow_result worker_report or_else contains
result_fields t name texts =
    if equals_str "job_output" name || equals_str "job_kill" name
    then ok (
        ("job_status_killed", bool (contains "[status: killed" texts))
        ∷ ("cancellation_requested", bool (contains "requested cancellation of job " texts))
        ∷ [])
    else if equals_str "create_goal" name
        || equals_str "get_goal" name
        || equals_str "update_goal" name
    then or_else [] (goal_phase t texts)
    else if equals_str "workflow" name
    then or_else (("pure_js_result_verified", bool false) ∷ []) (workflow_result t texts)
    else if equals_str "ralph" name
    then (do
      report ← or_else (("structured_report_verified", bool false) ∷ []) (worker_report t texts)
      ok (
          (
            "one_round_completion",
            bool (
                starts_with (codes "Ralph worker reported completion after 1 round.")
                  (codes texts)),
          )
          ∷ report))
    else ok []

texts_json : List String → Items
texts_json [] = nil
texts_json (t ∷ ts) = cons (str t) (texts_json ts)

-- The fields that every result sets.
unfoldable pub common_fields : TextTools → Bool → String → Tool
unfolding texts_json markers_in
common_fields t is_error texts =
    ("result_received", bool true)
    ∷ ("is_error", bool is_error)
    ∷ ("result_text_bytes", int (pos (t.encoded_length texts)))
    ∷ ("result_sha256", str (t.digest texts))
    ∷ ("markers", arr (texts_json (markers_in texts)))
    ∷ []

-- The job that a result of the shell tool has started.
unfoldable pub started_job : TextTools → Tool → Bool → String → Option Json
unfolding job_name equals_str truthy field_or
started_job t tool is_error texts =
    if equals_str "pwsh" (field_or "name" null tool)
      && truthy (field_or "background" null tool)
      && not is_error
    then job_name (t.strip texts)
    else none

-- A tool after its result.
unfoldable pub with_result : TextTools → Bool → String → Tool → Result Tool
unfolding common_fields result_fields update field_or
with_result t is_error texts tool = do
  more ← result_fields t (field_or "name" null tool) texts
  ok (update more (update (common_fields t is_error texts) tool))
