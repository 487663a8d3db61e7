-- ===== src/HarnessCheck/Runner.antt =====
-- scripts/harness-check.py: `Runner`, but for the opening of its follows, and `safe_error`.
use uart2llm.Prelude.{String, Bool, List, [], ◌∷◌, ◌++◌, not, ◌&&◌, length, if◌then◌else◌}
use uart2llm.Python.Error.{
  Error, Result, ok, raise, class_name, attribute_error, key_error, index_error, type_error,
  overflow_error, value_error, runtime_error, assertion_error, os_error, timeout_error,
  connection_error, http_exception, timeout_expired, keyboard_interrupt, system_exit,
}
use uart2llm.Python.Exec.{Exec, pure, lift, ◌>>=◌, ◌>>◌}
use uart2llm.Python.Float.{Arithmetic}
use uart2llm.Python.Json
use uart2llm.Python.Json.{
  Json, null, bool, int, float, str, arr, obj, nil, cons, field, end, empty, equals_str, truthy,
  iterate, item, is_dict,
}
use uart2llm.HarnessCheck.Values.{TextTools, code}
use uart2llm.HarnessCheck.Session.{Remote, Session, remotely, look, wait_turn}
use uart2llm.Prelude.{ℕ}

-- `str(error)`, of the classes that carry a text; the text of the others is no JSON object.
unfoldable pub message_of : Error → String
message_of (value_error s) = s
message_of (runtime_error s) = s
message_of (assertion_error s) = s
message_of (timeout_error s) = s
message_of (connection_error s) = s
message_of (system_exit s) = s
message_of attribute_error = ""
message_of key_error = ""
message_of index_error = ""
message_of type_error = ""
message_of overflow_error = ""
message_of os_error = ""
message_of http_exception = ""
message_of timeout_expired = ""
message_of keyboard_interrupt = ""

-- `safe_error`: of a message, no more than a short code goes to the report.
unfoldable pub safe_error : TextTools → Error → Json
unfolding message_of code truthy
safe_error t e =
    obj (field "class" (str (class_name e)) (code_field (t.loads (str (message_of e)))))
  where
    code_if : Json → Json.Fields
    code_if found = if truthy (code found) then field "code" found end else end

    found_code : Result Json → Json.Fields
    found_code (ok found) = code_if found
    found_code (raise problem) = end

    code_field : Result Json → Json.Fields
    code_field (ok v) = found_code (Json.get "code" null v)
    code_field (raise problem) = end

module _ (remote : Remote) where
  prompt_request : String → Json → String → Json
  prompt_request id session text = obj (
      field "requestId" (str id) (
        field "sessionId" session (
          field "mode" (str "queue") (
            field "clientTimeZone" (str "Asia/Shanghai") (
              field "content"
                (arr (cons (obj (field "type" (str "text") (field "text" (str text) end))) nil))
                end)))))

  -- `enqueue`, with the random id of the request.
  unfoldable pub enqueue : String → String → Exec (Session remote) (Unit {0})
  unfolding prompt_request remotely
  enqueue id text = do
    session ← look remote (λ f. f.session_id)
    _ ←
        remotely remote
          (remote.rpc "session/prompt" (obj (field "request" (prompt_request id session text) end)))
    pure tt

  -- `prompt`: it waits for one turn more than there were before.
  unfoldable pub prompt : String → String → TextTools → Arithmetic → ℕ → Exec (Session remote) Json
  unfolding enqueue wait_turn
  prompt id text t fl deadline = do
    before ← look remote (λ f. length f.turn_ends)
    enqueue id text
    wait_turn remote before t fl deadline

  -- The kind of a command's result.
  command_kind : Json → Result Json
  command_kind result = found (Json.get "result" empty result)
    where
      found : Result Json → Result Json
      found (ok inner) = Json.get "kind" null inner
      found (raise e) = raise e

  -- `command`
  unfoldable pub command : String → Exec (Session remote) Json
  unfolding command_kind equals_str remotely
  command line = do
    session ← look remote (λ f. f.session_id)
    result ← remotely remote (
        remote.rpc "commands/execute" (
          obj (
            field "agentId" session
              (field "line" (str line) (field "submittedAttachments" (arr nil) end)))))
    if not (is_dict result) then lift (raise (runtime_error "harness_command_failed")) else (do
      kind ← lift (command_kind result)
      if equals_str "success" kind
          then pure result
          else lift (raise (runtime_error "harness_command_failed")))

  -- What the clean-up uses besides: the files that stop the workers, and the sockets.
  pub record Local : Type 0 where
    pub stop : String → remote.State → Result (Unit {0}) × remote.State
    pub close : String → remote.State → remote.State

  cancel_call : Json → Json
  cancel_call session = obj (field "request" (obj (field "sessionId" session end)) end)

  interrupt_call : Json → Json → Json
  interrupt_call parent child = obj (
      field "childSessionId" child
        (field "parentSessionId" parent (field "mode" (str "continuable") end)))

  -- The children of a session that go on are interrupted.
  interrupt_each : Json → List Json → Exec remote.State (Unit {0})
  unfolding interrupt_call equals_str item
  interrupt_each parent [] = pure tt
  interrupt_each parent (child ∷ children) = do
    kind ← lift (Json.get "kind" null child)
    mode ← lift (Json.get "mode" null child)
    (if equals_str "child" kind && equals_str "continuable" mode
        then (do
          id ← lift (item "id" child)
          _ ← remote.rpc "subagents/interruptByParent" (interrupt_call parent id)
          pure tt)
        else pure tt)
    interrupt_each parent children

  unfoldable pub interrupt_children : Json → Exec remote.State (Unit {0})
  unfolding interrupt_each iterate
  interrupt_children parent = do
    catalog ← remote.rpc "subagents/list" (obj (field "parentSessionId" parent end))
    entries ← lift (Json.get "entries" (arr nil) catalog)
    children ← lift (iterate entries)
    interrupt_each parent children

  -- `try: ... except Exception: errors.append(...)`
  unfoldable pub guarded :
      {A : Type 0}
      → (Error → Json)
      → Exec remote.State A
      → List Json × remote.State
      → List Json × remote.State
  guarded note act (errors, s) =
      let (r, s') = act s in (elim r [ ok a ↦ errors | raise e ↦ errors ++ (note e ∷ []) ], s')

  unfoldable pub stop_workers :
      TextTools → Local → List String → List Json × remote.State → List Json × remote.State
  unfolding guarded safe_error
  stop_workers t local [] p = p
  stop_workers t local (file ∷ files) p =
      stop_workers t local files
        (guarded (λ e. obj (field "fixture_worker_stop" (safe_error t e) end)) (local.stop file) p)

  unfoldable pub session_error : TextTools → Json → Error → Json
  unfolding safe_error
  session_error t session e = with_error (safe_error t e)
    where
      with_error : Json → Json
      with_error (obj fields) = obj (field "session_id" session fields)
      with_error v = v

  unfoldable pub cancel_sessions :
      TextTools → Bool → List Json → List Json × remote.State → List Json × remote.State
  unfolding guarded session_error cancel_call interrupt_children safe_error
  cancel_sessions t children [] p = p
  cancel_sessions t children (session ∷ sessions) p =
      let cancelled =
        guarded (session_error t session) (remote.rpc "session/cancel" (cancel_call session)) p in
      let interrupted =
        guarded
          (λ e.
            obj (field "parent_session_id" session (field "child_cleanup" (safe_error t e) end)))
          (interrupt_children session) cancelled in
      cancel_sessions t children sessions (if children then interrupted else cancelled)

  unfoldable pub close_all_streams : Local → List String → remote.State → remote.State
  close_all_streams local [] s = s
  close_all_streams local (id ∷ ids) s = close_all_streams local ids (local.close id s)

  -- `cleanup`, for the stop files, the sessions and the streams of a runner: the errors, and no
  -- exception.
  unfoldable pub cleanup :
      TextTools
      → Local
      → Bool
      → List String
      → List Json
      → List String
      → remote.State
      → List Json × remote.State
  unfolding stop_workers cancel_sessions close_all_streams
  cleanup t local children files sessions streams s =
      let (errors, s') = cancel_sessions t children sessions (stop_workers t local files ([], s)) in
      (errors, close_all_streams local streams s')
