-- ===== src/HarnessConfigure.antt =====
-- scripts/harness-configure.py: `main`, which adds the local provider to the harness. The RPC of the
-- harness and the random name are parameters; what is printed is not modelled.
use Prim.Native.String.{◌++◌ as ◌<>◌}
use uart2llm.Prelude.{String, Bool, true, false, List, [], ◌∷◌, not, str_eq, if◌then◌else◌}
use uart2llm.Prelude.Int.{pos}
use uart2llm.Python.Error.{Error, Result, ok, raise, key_error, type_error, runtime_error}
use uart2llm.Python.Exec.{Exec, pure, lift, ◌>>=◌, ◌>>◌}
use uart2llm.Python.Json
use uart2llm.Python.Json.{
  Json, null, bool, int, float, str, arr, obj, nil, cons, field, end, empty, truthy, equals_str,
  iterate, item, item_at,
}
use uart2llm.Python.Json.Equality.{is_null}

abbrev base_url : String
base_url = "http://127.0.0.1:8765/v1"

-- The inputs that a model takes: pictures too, or text alone.
model_inputs : Bool → Json
model_inputs true = arr (cons (str "text") (cons (str "image") nil))
model_inputs false = arr (cons (str "text") nil)

-- The entry of a model.
model_entry : String → Json
unfolding model_inputs
model_entry m = obj (
    field "id" (str m) (
      field "contextWindow" (int (pos 1000000)) (
        field "maxTokens" (int (pos 8192)) (
          field "input" (model_inputs (str_eq m "deepseek-flash")) (
            field "reasoningEfforts"
              (obj
                (field "off" (str "off") (field "high" (str "high") (field "max" (str "max") end))))
              end)))))

compatibility : Json
compatibility = obj (
    field "thinkingFormat" (str "deepseek") (
      field "requiresReasoningContentOnAssistantMessages" (bool true) (
        field "supportsDeveloperRole" (bool false) (
          field "maxTokensField" (str "max_tokens") (
            field "supportsStore" (bool false) (
              field "supportsUsageInStreaming" (bool true)
                (field "supportsReasoningEffort" (bool true) end)))))))

-- `profile`, with the name of its credential.
provider_profile : String → Json
unfolding model_entry compatibility
provider_profile credential = obj (
    field "displayName" (str "uart2llm 本地代理") (
      field "api" (str "openai-completions") (
        field "baseURL" (str base_url) (
          field "apiKeyEnv" (str credential) (
            field "models"
              (arr (cons (model_entry "deepseek-flash") (cons (model_entry "deepseek-v4-pro") nil)))
              (field "reasoning" (str "off") (
                field "defaultMaxTokens" (int (pos 8192)) (
                  field "compat" compatibility (
                    field "retryPolicy"
                      (obj (field "mode" (str "normal") (field "maxRetries" (int (pos 0)) end)))
                      end)))))))))

module _ (State : Type 0) (rpc : String → Json → State → Result Json × State) where
  -- The described sections; each has to have a name.
  check_names : List Json → Exec State (Unit {0})
  unfolding item
  check_names [] = pure tt
  check_names (section ∷ sections) = do _ ← lift (item "ns" section); check_names sections

  describe : Exec State (List Json)
  unfolding item iterate
  describe = do
    described ← rpc "settings/describe" empty
    namespaces ← lift (item "namespaces" described)
    lift (iterate namespaces)

  -- `sections['llm-pi-ai']`: in a dict the last section of a name counts.
  last_section : List Json → Result Json → Exec State Json
  unfolding item equals_str
  last_section [] found = lift found
  last_section (section ∷ sections) found = do
    name ← lift (item "ns" section)
    last_section sections (if equals_str "llm-pi-ai" name then ok section else found)

  -- `next(n for n in ... if n['ns'] == 'llm-pi-ai')`
  first_section : List Json → Exec State Json
  unfolding item equals_str
  first_section [] = lift (raise (runtime_error "StopIteration"))
  first_section (section ∷ sections) = do
    name ← lift (item "ns" section)
    if equals_str "llm-pi-ai" name then pure section else first_section sections

  discovery : String → Json
  discovery token = obj (
      field "settingsNs" (str "llm-pi-ai") (
        field "request"
          (obj (
            field "provider" (str "uart2llm") (
              field "baseURL" (str base_url)
                (field "api" (str "openai-completions") (field "apiKey" (str token) end)))))
          end))

  -- The provider that is there already, or null.
  existing_provider : Json → Exec State Json
  unfolding item
  existing_provider section = do
    value ← lift (item "value" section)
    providers ← lift (Json.get "providers" empty value)
    lift (Json.get "uart2llm" null providers)

  refs : Json → Json
  refs ref = obj (field "refs" (arr (cons ref nil)) end)

  -- `v[ref]` of a dict of JSON, whose keys are texts.
  entry_of : Json → Json → Result Json
  unfolding item
  entry_of v (str s) = item s v
  entry_of v (arr _) = raise type_error
  entry_of v (obj _) = raise type_error
  entry_of v null = raise key_error
  entry_of v (bool _) = raise key_error
  entry_of v (int _) = raise key_error
  entry_of v (float _) = raise key_error

  missing_credential : Error
  missing_credential =
      runtime_error "Existing provider credential is missing; repair it in Harness settings"

  -- A provider that is there is left as it is, if it is this one and has its credential.
  preserve : Json → Exec State (Unit {0})
  unfolding entry_of missing_credential refs truthy equals_str item
  preserve existing = do
    url ← lift (Json.get "baseURL" null existing)
    if not (equals_str base_url url)
        then lift (raise (runtime_error "Existing uart2llm provider points elsewhere; preserved"))
        else (do
          ref ← lift (Json.get "apiKeyEnv" null existing)
          if not (truthy ref) then lift (raise missing_credential) else (do
            described ← rpc "credentials/describe" (refs ref)
            entry ← lift (entry_of described ref)
            configured ← lift (item "configured" entry)
            if truthy configured then pure tt else lift (raise missing_credential)))

  set_credential : String → String → Json
  set_credential ref token = obj (field "ref" (str ref) (field "value" (str token) end))

  set_provider : Json → String → Json
  unfolding provider_profile
  set_provider revision ref = obj (
      field "ns" (str "llm-pi-ai") (
        field "expectedRevision" revision (
          field "ops"
            (arr (
              cons
                (obj (
                  field "op" (str "set") (
                    field "path" (arr (cons (str "providers") (cons (str "uart2llm") nil)))
                      (field "value" (provider_profile ref) end))))
                nil))
            end)))

  -- The credential is set under a new name before the provider that refers to it.
  add_provider : Json → String → String → Exec State (Unit {0})
  unfolding set_credential set_provider describe first_section refs item item_at
  add_provider section name token = do
    _ ← rpc "credentials/set" (set_credential ("UART2LLM_API_KEY_" <> name) token)
    revision ← lift (item "revision" section)
    _ ← rpc "settings/mutate" (set_provider revision ("UART2LLM_API_KEY_" <> name))
    _ ← rpc "credentials/describe" (refs (str ("UART2LLM_API_KEY_" <> name)))
    sections ← describe
    updated ← first_section sections
    _ ← lift (item_at ("value" ∷ "providers" ∷ "uart2llm" ∷ []) updated)
    pure tt

  -- `main`, for the token of the gateway and a random name.
  configure : String → String → Exec State (Unit {0})
  unfolding describe check_names last_section discovery existing_provider preserve add_provider
  configure token name = do
    sections ← describe
    check_names sections
    _ ← rpc "llm/discoverModels" (discovery token)
    section ← last_section sections (raise key_error)
    existing ← existing_provider section
    if is_null existing then add_provider section name token else preserve existing
