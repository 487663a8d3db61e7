-- ===== src/Acceptance/Samples.antt =====
-- Concrete parameters for the tests: a gateway with the fixture behind it, texts that stand for the
-- JSON values of its replies, and a digest.
use Prim.Native.String.{◌++◌ as ◌<>◌}
use uart2llm.Prelude.{
  ℕ, ◌+◌, ◌-◌, ◌*◌, ◌/◌, String, true, false, none, some, List, [], ◌∷◌, ◌++◌, codes, str_eq, ltb,
  if◌then◌else◌, append-nil, append_assoc,
}
use uart2llm.Prelude.Int.{pos, pos_part}
use uart2llm.Python.Error.{Result, ok, raise, os_error, value_error, ◌>>=◌}
use uart2llm.Python.Float.{Float, Arithmetic}
use uart2llm.Python.Json.{Json, bool, int, str, arr, obj, nil, cons, field, end}
use uart2llm.Python.Text.{equal}
use uart2llm.Acceptance.Pattern.{Sha, Streams}
use uart2llm.Acceptance.Endpoint.{model, Body, Response, Endpoint, World}

abbrev one_event : Json
one_event = obj (
    field "choices"
      (arr (
        cons
          (obj (
            field "delta"
              (obj (
                field "content" (str "你好，串口") (
                  field "tool_calls"
                    (arr (
                      cons (obj (field "function" (obj (field "arguments" (str "2") end)) end))
                        nil))
                    end)))
              end))
          nil))
      (field "usage" (obj (field "total_tokens" (int (pos 9)) end))
        (field "fixture_extension" (obj (field "preserved" (bool true) end)) end)))

-- Texts stand for the JSON values that the run needs.
abbrev parsed : String → Result Json
parsed text =
    if str_eq text "1"
    then ok one_event
    else if str_eq text "2"
    then ok (obj (field "value" (str "中文") end))
    else if str_eq text "3"
    then ok (obj (field "bytes" (int (pos 1)) (field "sha256" (str "x") end)))
    else if str_eq text "4"
    then ok (obj (field "id" (str "ftjob-fixture") (field "status" (str "succeeded") end)))
    else if str_eq text "5"
    then ok (obj (field "data" (arr (cons (obj (field "id" (str "event-fixture") end)) nil)) end))
    else if str_eq text "6"
    then ok (obj (field "id" (str model) end))
    else raise (value_error "no JSON")

abbrev decoded : List ℕ → Result String
decoded [] = raise (value_error "no UTF-8")
decoded (c ∷ cs) =
    if equal (c ∷ cs) (codes "1")
    then ok "1"
    else if equal (c ∷ cs) (codes "3")
    then ok "3"
    else if equal (c ∷ cs) (codes "4")
    then ok "4"
    else if equal (c ∷ cs) (codes "5")
    then ok "5"
    else if equal (c ∷ cs) (codes "6")
    then ok "6"
    else raise (value_error "no UTF-8")

abbrev pub clock : ℕ → Float
clock n = n

abbrev pub stream_body : Body
stream_body = record { bytes = codes "data: 1\ndata: [DONE]\n"; broken = none }

abbrev pub stream_response : Response
stream_response = record { status = 200; content_type = "text/event-stream"; body = stream_body }

abbrev json_response : String → Response
json_response text = record {
  status = 200;
  content_type = "application/json";
  body = record { bytes = codes text; broken = none };
}

-- The file of one byte.
abbrev pub file_response : Response
file_response = record {
  status = 200;
  content_type = "application/octet-stream";
  body = record { bytes = 0 ∷ []; broken = none };
}

-- A gateway with the controlled fixture behind it.
abbrev serve : String → Result Response
serve target =
    if str_eq target "/v1/chat/completions"
    then ok stream_response
    else if str_eq target "/v1/files"
    then ok (json_response "3")
    else if str_eq target "/v1/files/fixture-pattern/content?size="
    then ok file_response
    else if str_eq target "/v1/fine_tuning/jobs"
    then ok (json_response "4")
    else if str_eq target "/v1/fine_tuning/jobs/ftjob-fixture/events"
    then ok (json_response "5")
    else if str_eq target ("/v1/models/" <> model)
    then ok (json_response "6")
    else raise os_error

abbrev pub world : World
world = record {
  server = λ request. serve request.target;
  dumps = λ value. codes "1";
  dumps_utf8 = λ value. codes "1";
  loads = λ bytes. decoded bytes >>= parsed;
  loads_text = parsed;
  decode = decoded;
  show = λ n. "";
}

-- Natural numbers in the place of floats.
abbrev pub arithmetic : Arithmetic
arithmetic = record {
  add = λ x y. x + y;
  sub = λ x y. x - y;
  mul = λ x y. x * y;
  div = λ x y. x / y;
  less = ltb;
  of_int = pos_part;
  round3 = λ x. x;
}

abbrev pub endpoint : Endpoint
endpoint = record {
  https = false;
  host = "localhost";
  port = some 8765;
  base_path = "";
  token = "token";
  opened = 2;
  active = 1 ∷ [];
  closed = 0 ∷ [];
}

unfoldable pub marks : List ℕ → String
marks [] = ""
marks (c ∷ s) = "x" <> marks s

-- A digest that keeps what it was given, and shows its length.
abbrev pub recorder : Sha
recorder = record {
  State = List ℕ;
  start = [];
  update = λ seen bytes. seen ++ bytes;
  hexdigest = marks;
}

pub recorder-Streams : Streams recorder
recorder-Streams = record { update_nil = append-nil; update-update = append_assoc }
