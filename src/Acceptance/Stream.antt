-- ===== src/Acceptance/Stream.antt =====
-- scripts/acceptance.py: `stream_work`, which reads a server-sent event stream line by line and
-- checks that the fixture's deltas came through whole.
pub mod Lines
pub mod Laws
pub mod Verdict
pub mod Completeness
mod Tests
use Prim.Native.String.{◌++◌ as ◌<>◌}
use uart2llm.Prelude.{
  ℕ, zero, suc, ◌+◌, ◌-◌, String, Bool, true, false, Option, none, some, List, [], ◌∷◌, ◌&&◌, ◌||◌,
  not, ◌==◌, str_eq, ltb, if◌then◌else◌, codes, length, drop,
}
use uart2llm.Python.Error.{
  Error, Result, ok, raise, ◌>>=◌, ◌>>◌, raise_if, runtime_error, type_error,
}
use uart2llm.Python.Exec.{Exec}
use uart2llm.Python.Float.{Float}
use uart2llm.Python.Json
use uart2llm.Python.Json.{
  Json, null, bool, int, float, str, arr, obj, nil, cons, field, end, empty, iterate, equals_ℕ,
  is_true,
}
use uart2llm.Python.Loop.{Round, again, leave, loop}
use uart2llm.Python.Text.{starts_with, occurs_in, equal, strip}
use uart2llm.Acceptance.Endpoint.{
  model, Body, Response, Endpoint, World, Payload, text_body, exchange,
}

-- `readline(n)`: up to and including the next newline, and at most n bytes.
pub readline : ℕ → List ℕ → List ℕ × List ℕ
readline zero s = ([], s)
readline (suc n) [] = ([], [])
readline (suc n) (c ∷ s) =
    let (line, rest) = readline n s in if c == 10 then (c ∷ [], s) else (c ∷ line, rest)

pub ends_line : List ℕ → Bool
ends_line [] = false
ends_line (c ∷ []) = c == 10
ends_line (c ∷ (d ∷ s)) = ends_line (d ∷ s)

-- On a body that breaks off, a line that is not there in full raises.
pub read_line : ℕ → Body → Result (List ℕ × Body)
unfolding readline ends_line
read_line n b =
    let (line, rest) = readline n b.bytes in
    let got = ok (line, record b { bytes = rest }) in
    if ltb (length line) n && not (ends_line line)
    then elim b.broken [ none ↦ got | some e ↦ raise e ]
    else got

-- The variables of the loop.
pub record StreamState : Type 0 where
  pub count : ℕ
  pub first : Option Float
  pub content : String
  pub arguments : String
  pub usage : Bool
  pub extension : Bool
  pub done : Bool

abbrev pub start : StreamState
start = record {
  count = 0;
  first = none;
  content = "";
  arguments = "";
  usage = false;
  extension = false;
  done = false;
}

-- `text += value`
append_text : String → Json → Result String
append_text text (str s) = ok (text <> s)
append_text text null = raise type_error
append_text text (bool _) = raise type_error
append_text text (int _) = raise type_error
append_text text (float _) = raise type_error
append_text text (arr _) = raise type_error
append_text text (obj _) = raise type_error

-- `for tool in delta.get("tool_calls", [])`
add_tools : List Json → StreamState → Result StreamState
unfolding append_text Json.get
add_tools [] s = ok s
add_tools (tool ∷ rest) s = do
  function ← Json.get "function" empty tool
  piece ← Json.get "arguments" (str "") function
  arguments ← append_text s.arguments piece
  add_tools rest (record s { arguments = arguments })

-- `for choice in event.get("choices", [])`
add_choices : List Json → StreamState → Result StreamState
unfolding add_tools iterate
add_choices [] s = ok s
add_choices (choice ∷ rest) s = do
  delta ← Json.get "delta" empty choice
  piece ← Json.get "content" (str "") delta
  content ← append_text s.content piece
  calls ← Json.get "tool_calls" (arr nil) delta
  tools ← iterate calls
  s' ← add_tools tools (record s { content = content })
  add_choices rest s'

-- One event of the stream.
pub add_event : Json → StreamState → Result StreamState
unfolding add_choices equals_ℕ is_true
add_event event s = do
  usage ← Json.get "usage" empty event
  total ← Json.get "total_tokens" null usage
  extension ← Json.get "fixture_extension" empty event
  preserved ← Json.get "preserved" null extension
  listed ← Json.get "choices" (arr nil) event
  choices ← iterate listed
  add_choices choices (record s {
    usage = s.usage || equals_ℕ 9 total;
    extension = s.extension || is_true preserved;
  })

-- `json.loads(arguments) != {"value": "中文"}`
abbrev pub expected_arguments : Json → Bool
expected_arguments (obj (field k (str v) end)) = str_eq k "value" && str_eq v "中文"
expected_arguments _ = false

module _ (w : World) (clock : ℕ → Float) where
  -- A line of the stream after the size checks. `clock n` is the time since the request at which
  -- n bytes had been read.
  pub take_line : List ℕ → StreamState → Result StreamState
  unfolding add_event strip
  take_line line s =
      if not (starts_with (codes "data: ") line)
      then ok s
      else let timed = record s {
        first = elim s.first [ none ↦ some (clock s.count) | some t ↦ some t ];
      } in
        let payload = strip (drop 6 line) in
        if equal payload (codes "[DONE]")
        then ok (record timed { done = true })
        else if s.done
        then raise (runtime_error "fixture emitted data after its completion marker")
        else (do text ← w.decode payload; event ← w.loads_text text; add_event event timed)

  -- One round of `while True`, once a line has been read.
  with_line : Body → List ℕ → StreamState → Round (Body × StreamState) (Result StreamState)
  unfolding take_line
  with_line rest line s =
      if ltb 8192 (length line)
      then leave (raise (runtime_error "SSE line exceeds bounded parser limit"))
      else if length line == 0
      then leave (ok s)
      else if ltb 65536 (s.count + length line)
      then leave (raise (runtime_error "unexpectedly large fixture stream"))
      else elim (take_line line (record s { count = s.count + length line })) [
        | ok s' ↦ again (rest, s')
        | raise e ↦ leave (raise e)
      ]

  pub round : Body × StreamState → Round (Body × StreamState) (Result StreamState)
  unfolding read_line with_line
  round (b, s) = elim (read_line 8193 b) [
    | raise e ↦ leave (raise e)
    | ok (line, rest) ↦ with_line rest line s
  ]

  -- The loop. Each round reads at least one byte of at most 65536.
  abbrev pub stream_fuel : ℕ
  stream_fuel = 65538

  pub read_stream : Body → Option (Result StreamState)
  unfolding round loop
  read_stream b = loop round stream_fuel (b, start)

  -- The test after the loop; `json.loads` is called only where the earlier tests pass.
  pub check_stream : StreamState → Result (ℕ × Option Float)
  check_stream s =
      let failed =
        raise (runtime_error "SSE content/tool deltas/usage/extension/DONE verification failed") in
      if not s.done || not (str_eq s.content "你好，串口") then failed else (do
        arguments ← w.loads_text s.arguments
        if not (expected_arguments arguments) || not s.usage || not s.extension
            then failed
            else ok (s.count, s.first))

  pub finish_stream : Option (Result StreamState) → Result (ℕ × Option Float)
  unfolding check_stream
  finish_stream none = raise (runtime_error "the loop did not end")
  finish_stream (some r) = do s ← r; check_stream s

  -- The `try` block.
  pub stream_reply : Response → Result (ℕ × Option Float)
  unfolding occurs_in read_stream finish_stream
  stream_reply response = do
    raise_if
        (not (response.status == 200)
          || not (occurs_in (codes "text/event-stream") (codes response.content_type)))
        (runtime_error "SSE returned HTTP status or incorrect content type")
    finish_stream (read_stream response.body)

  -- The body of the request.
  abbrev stream_request : Json
  stream_request = obj (
      field "model" (str model) (
        field "stream" (bool true) (
          field "messages"
            (arr (cons (obj (field "role" (str "user") (field "content" (str "fixture") end))) nil))
            (field "stream_options" (obj (field "include_usage" (bool true) end)) end))))

  unfoldable pub stream_work : Exec Endpoint (ℕ × Option Float)
  unfolding stream_reply
  stream_work =
      let body = w.dumps stream_request in
      exchange w "POST" "/v1/chat/completions" (text_body body)
        (("Content-Type", "application/json") ∷ ("Content-Length", w.show (length body)) ∷ [])
        stream_reply
