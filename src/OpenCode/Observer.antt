-- ===== src/OpenCode/Observer.antt =====
-- scripts/opencode-check.py: `Observer`, the proxy that admits and counts the client's requests. What
-- its handler reads and writes under the lock is one step on the observer's state.
pub mod Bounds
mod Tests
use Prim.Native.String.{◌++◌ as ◌<>◌}
use uart2llm.Prelude.{
  ℕ, ◌+◌, ◌-◌, ◌*◌, max, String, Bool, true, false, Option, none, some, List, [], ◌∷◌, ◌++◌, not,
  ◌&&◌, ◌||◌, str_eq, ltb, leb, if◌then◌else◌, length,
}
use uart2llm.Prelude.Int.{ℤ, pos, negsuc}
use uart2llm.Python.Error.{Error, Result, ok, raise, ◌>>=◌, value_error, type_error}
use uart2llm.Python.Float.{Float, Arithmetic}
use uart2llm.Python.Json
use uart2llm.Python.Json.{
  Json, null, bool, int, float, str, arr, obj, nil, empty, equals_str, iterate,
}

-- A request as the handler sees it. `content_length` is what `int` makes of the header, and `payload`
-- what `json.loads` makes of the bytes that were read.
pub record Post : Type 0 where
  pub path : String
  pub authorization : Option String
  pub content_length : Result ℤ
  pub transfer_encoding : String
  pub payload : Result Json

-- The entry of `requests`, with the fields that admission sets from the request.
pub record Item : Type 0 where
  pub id : ℕ
  pub phase : String
  pub started : Float
  pub request_bytes : ℕ
  pub stream : Json
  pub output_cap : ℕ
  pub message_roles : List Json
  pub offered_tools : List Json
  pub tool_result_ids : List Json

pub record Rejection : Type 0 where
  pub phase : String
  pub status : ℕ
  pub reason : String

pub record Observer : Type 0 where
  pub client_token : String
  pub limit : ℕ
  pub output_cap : ℕ
  pub requests : List Item
  pub rejected : List Rejection
  pub active : ℕ
  pub peak : ℕ
  pub phase : String
  pub deadline : Float

-- `__init__`; the token is random, and the deadline is 1200 seconds from the start.
abbrev pub new_observer : String → ℕ → ℕ → Float → Observer
new_observer token limit output_cap deadline = record {
  client_token = token;
  limit = limit;
  output_cap = output_cap;
  requests = [];
  rejected = [];
  active = 0;
  peak = 0;
  phase = "prepare";
  deadline = deadline;
}

-- How a handler goes on: the request is refused, forwarded, or the handler itself raises.
pub data Answer : Type 0 where
  refused : ℕ → String → Answer
  forwarded : Item → Answer
  crashed : Error → Answer

-- `reject`
pub reject : ℕ → String → Observer → Answer × Observer
reject code reason o = (
  refused code reason,
  record o {
    rejected = o.rejected ++ (record { phase = o.phase; status = code; reason = reason } ∷ []);
  },
)

-- `[v.get(k) for v in values]`
each_get : String → List Json → Result (List Json)
unfolding Json.get
each_get k [] = ok []
each_get k (v ∷ vs) = do first ← Json.get k null v; rest ← each_get k vs; ok (first ∷ rest)

tool_names : List Json → Result (List Json)
unfolding Json.get
tool_names [] = ok []
tool_names (t ∷ ts) = do
  function ← Json.get "function" empty t
  name ← Json.get "name" null function
  rest ← tool_names ts
  ok (name ∷ rest)

-- `m.get('tool_call_id') for m in ... if m.get('role') == 'tool'`
tool_results : List Json → Result (List Json)
unfolding Json.get equals_str
tool_results [] = ok []
tool_results (m ∷ ms) = do
  role ← Json.get "role" null m
  id ← Json.get "tool_call_id" null m
  rest ← tool_results ms
  ok (if equals_str "tool" role then id ∷ rest else rest)

-- `type(cap) is int and 0 < cap <= output_cap`: the value of a cap that passes.
pub bounded_cap : ℕ → Json → Option ℕ
bounded_cap limit (int (pos n)) = if ltb 0 n && leb n limit then some n else none
bounded_cap limit (int (negsuc n)) = none
bounded_cap limit null = none
bounded_cap limit (bool _) = none
bounded_cap limit (float _) = none
bounded_cap limit (str _) = none
bounded_cap limit (arr _) = none
bounded_cap limit (obj _) = none

-- `0 < length <= 1024 * 1024`
pub bounded_length : ℤ → Option ℕ
bounded_length (pos n) = if ltb 0 n && leb n (1024 * 1024) then some n else none
bounded_length (negsuc n) = none

pub with_payload : Json → Option ℕ → Option (ℕ × Json)
with_payload payload none = none
with_payload payload (some cap) = some (cap, payload)

-- The cap that the payload asks for, with the payload, where its model is the configured one.
pub requested_cap : String → ℕ → Json → Result (Option (ℕ × Json))
unfolding Json.get equals_str bounded_cap with_payload
requested_cap model limit payload = do
  other ← Json.get "max_completion_tokens" (int (pos 0)) payload
  cap ← Json.get "max_tokens" other payload
  name ← Json.get "model" null payload
  ok (if not (equals_str model name) then none else with_payload payload (bounded_cap limit cap))

-- The new entry of `requests`.
pub new_item : Observer → ℕ → ℕ → Float → Json → Result Item
unfolding each_get tool_names tool_results iterate Json.get
new_item o size cap now payload = do
  stream ← Json.get "stream" (bool false) payload
  said ← Json.get "messages" (arr nil) payload
  messages ← iterate said
  roles ← each_get "role" messages
  offered ← Json.get "tools" (arr nil) payload
  tools ← iterate offered
  names ← tool_names tools
  results ← tool_results messages
  ok (record {
    id = length o.requests + 1;
    phase = o.phase;
    started = now;
    request_bytes = size;
    stream = stream;
    output_cap = cap;
    message_roles = roles;
    offered_tools = names;
    tool_result_ids = results;
  })

-- `owner.requests.append(item)` and the counters of requests in flight
pub note_item : Result Item → Observer → Answer × Observer
note_item (raise e) o = (crashed e, o)
note_item (ok item) o = (
  forwarded item,
  record o {
    requests = o.requests ++ (item ∷ []);
    active = o.active + 1;
    peak = max o.peak (o.active + 1);
  },
)

-- `headers.get('Authorization') == 'Bearer ' + token`
pub authorized : String → Option String → Bool
authorized token none = false
authorized token (some given) = str_eq given ("Bearer " <> token)

module _ (fl : Arithmetic) (model : String) where
  -- The first block under the lock; the clock is read once.
  pub enter : ℕ → ℕ → Float → Json → Observer → Answer × Observer
  unfolding new_item note_item reject
  enter size cap now payload o =
      if leb o.limit (length o.requests) || not (fl.less now o.deadline)
      then reject 429 "run request/time budget exhausted" o
      else note_item (new_item o size cap now payload) o

  -- What is left once the payload has been judged. A ValueError or TypeError is answered; any other
  -- exception leaves the handler.
  pub judged : ℕ → Float → Result (Option (ℕ × Json)) → Observer → Answer × Observer
  unfolding enter reject
  judged size now (raise (value_error m)) o = reject 400 "invalid JSON or output cap" o
  judged size now (raise type_error) o = reject 400 "invalid JSON or output cap" o
  judged size now (raise e) o = (crashed e, o)
  judged size now (ok none) o =
      reject 400 "expected configured model and bounded integer output cap" o
  judged size now (ok (some (cap, payload))) o = enter size cap now payload o

  -- The body, where its length is within the bound.
  pub measured : Post → Float → Option ℕ → Observer → Answer × Observer
  unfolding judged requested_cap reject
  measured post now none o = reject 413 "bounded Content-Length required" o
  measured post now (some n) o = judged n now (post.payload >>= requested_cap model o.output_cap) o

  -- The check of the length; a header that is no number raises.
  pub sized : Post → Float → Result ℤ → Observer → Answer × Observer
  unfolding measured bounded_length reject
  sized post now (raise e) o = (crashed e, o)
  sized post now (ok size) o =
      if not (str_eq post.transfer_encoding "")
      then reject 413 "bounded Content-Length required" o
      else measured post now (bounded_length size) o

  -- `do_POST` up to the forwarding of the request.
  pub do_post : Post → Float → Observer → Answer × Observer
  unfolding sized authorized reject
  do_post post now o =
      if not (str_eq post.path "/v1/chat/completions")
      then reject 404 "only Chat Completions accepted" o
      else if not (authorized o.client_token post.authorization)
      then reject 401 "observer authentication required" o
      else sized post now post.content_length o

-- The last step of the `finally` block.
pub leave_request : Observer → Observer
leave_request o = record o { active = o.active - 1 }
