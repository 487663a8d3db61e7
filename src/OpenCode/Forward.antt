-- ===== src/OpenCode/Forward.antt =====
-- scripts/opencode-check.py: what the observer's handler records of the response that it forwards.
pub mod ErrorBody
use Prim.Native.String.{◌++◌ as ◌<>◌}
use uart2llm.Prelude.{
  ℕ, ◌+◌, ◌-◌, ◌*◌, String, Bool, true, false, none, some, List, [], ◌∷◌, ◌++◌, not, ◌&&◌, ltb,
  ◌==◌, length, take, drop, codes, if◌then◌else◌,
}
use uart2llm.Python.Error.{Error, Result, ok, raise, runtime_error, attribute_error, type_error}
use uart2llm.Python.Exec.{Exec, pure, lift, ◌>>=◌, ◌>>◌}
use uart2llm.Python.Dict.{lookup, insert}
use uart2llm.Python.Json
use uart2llm.Python.Json.{
  Json, null, bool, int, float, str, arr, obj, nil, empty, truthy, iterate, item,
}
use uart2llm.Python.Text.{starts_with, equal, strip}

-- An entry of `item['tool_calls']` while the response arrives.
pub record Fragments : Type 0 where
  pub id : String
  pub name : String
  pub arguments : String
  pub fragments : ℕ

-- What is recorded of a response, with the bytes of an unfinished line.
pub record Response : Type 0 where
  pub status : ℕ
  pub response_bytes : ℕ
  pub response_seen : List ℕ
  pub error_body : List ℕ
  pub received : List ℕ
  pub done : Bool
  pub events : ℕ
  pub usage : Json
  pub finish_reason : Json
  pub reasoning_bytes : ℕ
  pub tool_calls : List (String × Fragments)

-- What the handler uses of Python: `json.loads` of a line, `str` of a value, and the length in UTF-8.
pub record Reader : Type 0 where
  pub loads : List ℕ → Result Json
  pub text_of : Json → String
  pub encoded_length : String → ℕ

abbrev pub change : (Response → Response) → Exec Response (Unit {0})
change f r = (ok tt, f r)

-- The full lines, and what is left.
unfoldable pub cut : List ℕ → List (List ℕ) × List ℕ
cut [] = ([], [])
cut (c ∷ s) =
    let (lines, rest) = cut s in if c == 10 then ([] ∷ lines, rest) else prepend c lines rest
  where
    prepend : ℕ → List (List ℕ) → List ℕ → List (List ℕ) × List ℕ
    prepend c [] rest = ([], c ∷ rest)
    prepend c (line ∷ lines) rest = ((c ∷ line) ∷ lines, rest)

-- `v or ''`, where a text is needed.
unfoldable pub text_or_empty : Error → Json → Result String
unfolding truthy
text_or_empty problem v = if truthy v then text v else ok ""
  where
    text : Json → Result String
    text (str s) = ok s
    text null = raise problem
    text (bool _) = raise problem
    text (int _) = raise problem
    text (float _) = raise problem
    text (arr _) = raise problem
    text (obj _) = raise problem

abbrev no_fragments : Fragments
no_fragments = record { id = ""; name = ""; arguments = ""; fragments = 0 }

unfoldable pub fragments_of : String → List (String × Fragments) → Fragments
unfolding lookup
fragments_of key calls = elim (lookup key calls) [ none ↦ no_fragments | some acc ↦ acc ]

unfoldable pub set_fragments : String → (Fragments → Fragments) → Exec Response (Unit {0})
unfolding fragments_of insert
set_fragments key more =
    change (λ r. record r {
      tool_calls = insert key (more (fragments_of key r.tool_calls)) r.tool_calls;
    })

-- A part of a tool's call: its texts are appended one by one.
unfoldable pub take_fragment : Reader → Json → Exec Response (Unit {0})
unfolding set_fragments text_or_empty item
take_fragment reader tool = do
  index ← lift (item "index" tool)
  let key : String = reader.text_of index
  set_fragments key (λ acc. acc)
  id_value ← lift (Json.get "id" null tool)
  id ← lift (text_or_empty type_error id_value)
  set_fragments key (λ acc. record acc { id = acc.id <> id })
  function ← lift (Json.get "function" empty tool)
  name_value ← lift (Json.get "name" null function)
  name ← lift (text_or_empty type_error name_value)
  set_fragments key (λ acc. record acc { name = acc.name <> name })
  arguments_value ← lift (Json.get "arguments" null function)
  arguments ← lift (text_or_empty type_error arguments_value)
  set_fragments key (λ acc. record acc { arguments = acc.arguments <> arguments })
  set_fragments key (λ acc. record acc { fragments = acc.fragments + 1 })

unfoldable pub take_fragments : Reader → List Json → Exec Response (Unit {0})
unfolding take_fragment
take_fragments reader [] = pure tt
take_fragments reader (tool ∷ tools) = take_fragment reader tool >> take_fragments reader tools

-- A choice of an event.
unfoldable pub take_choice : Reader → Json → Exec Response (Unit {0})
unfolding take_fragments text_or_empty truthy iterate item
take_choice reader choice = do
  reason ← lift (Json.get "finish_reason" null choice)
  (if truthy reason then change (λ r. record r { finish_reason = reason }) else pure tt)
  delta ← lift (Json.get "delta" empty choice)
  thought ← lift (Json.get "reasoning_content" null delta)
  text ← lift (text_or_empty attribute_error thought)
  change (λ r. record r { reasoning_bytes = r.reasoning_bytes + reader.encoded_length text })
  calls ← lift (Json.get "tool_calls" (arr nil) delta)
  tools ← lift (iterate calls)
  take_fragments reader tools

unfoldable pub take_choices : Reader → List Json → Exec Response (Unit {0})
unfolding take_choice
take_choices reader [] = pure tt
take_choices reader (choice ∷ choices) = take_choice reader choice >> take_choices reader choices

unfoldable pub take_event : Reader → Json → Exec Response (Unit {0})
unfolding take_choices truthy iterate
take_event reader event = do
  change (λ r. record r { events = r.events + 1 })
  usage ← lift (Json.get "usage" null event)
  (if truthy usage then change (λ r. record r { usage = usage }) else pure tt)
  found ← lift (Json.get "choices" (arr nil) event)
  choices ← lift (iterate found)
  take_choices reader choices

-- A full line of the stream.
unfoldable pub see_line : Reader → List ℕ → Exec Response (Unit {0})
unfolding take_event strip
see_line reader line =
    let value = strip (drop 5 line) in
    if not (starts_with (codes "data:") line)
    then pure tt
    else if equal value (codes "[DONE]")
    then change (λ r. record r { done = true })
    else (do event ← lift (reader.loads value); take_event reader event)

unfoldable pub see_lines : Reader → List (List ℕ) → Exec Response (Unit {0})
unfolding see_line
see_lines reader [] = pure tt
see_lines reader (line ∷ lines) = see_line reader line >> see_lines reader lines

abbrev pub observation_limit : ℕ
observation_limit = 4 * 1024 * 1024

-- A chunk is counted; beyond the bound the observation ends.
unfoldable pub count_chunk : List ℕ → Exec Response (Unit {0})
count_chunk chunk r =
    let total = r.response_bytes + length chunk in
    (
      (if ltb observation_limit total
          then raise (runtime_error "response observation bound exceeded")
          else ok tt),
      record r { response_bytes = total },
    )

-- Of the body of an error the first 65536 bytes are kept.
unfoldable pub keep_error : List ℕ → Response → Response
keep_error chunk r =
    if not (r.status == 200) && ltb (length r.error_body) 65536
    then record r { error_body = r.error_body ++ take (65536 - length r.error_body) chunk }
    else r

-- The lines that the chunk completes are read, and the rest waits.
unfoldable pub see_chunk : Reader → List ℕ → Exec Response (Unit {0})
unfolding cut see_lines
see_chunk reader chunk r =
    let (lines, rest) = cut (r.received ++ chunk) in
    see_lines reader lines (record r { received = rest })

-- A chunk of the response; `send` is the write to the client, which may fail.
unfoldable pub forward_chunk : Reader → Result (Unit {0}) → List ℕ → Exec Response (Unit {0})
unfolding count_chunk keep_error see_chunk
forward_chunk reader send chunk = do
  count_chunk chunk
  change (λ r. record r { response_seen = r.response_seen ++ chunk })
  change (keep_error chunk)
  lift send
  see_chunk reader chunk

unfoldable pub forward_chunks :
    Reader → List (Result (Unit {0}) × List ℕ) → Exec Response (Unit {0})
unfolding forward_chunk
forward_chunks reader [] = pure tt
forward_chunks reader ((send, chunk) ∷ chunks) =
    forward_chunk reader send chunk >> forward_chunks reader chunks

-- What stays of a tool's call: no argument, but their length, their digest, and whether they are JSON.
pub record CallSummary : Type 0 where
  pub id : String
  pub name : String
  pub fragments : ℕ
  pub argument_bytes : ℕ
  pub argument_sha256 : String
  pub valid_json : Bool

unfoldable pub is_valid : Result Json → Bool
is_valid (ok v) = true
is_valid (raise e) = false

unfoldable pub summary_of :
    (String → String) → (String → Result Json) → Reader → Fragments → CallSummary
unfolding is_valid
summary_of digest loads_text reader acc = record {
  id = acc.id;
  name = acc.name;
  fragments = acc.fragments;
  argument_bytes = reader.encoded_length acc.arguments;
  argument_sha256 = digest acc.arguments;
  valid_json = is_valid (loads_text acc.arguments);
}
