-- ===== src/OpenCode/Reports.antt =====
-- scripts/opencode-check.py: `error_metadata`, `request_diagnostics` and `summarize_events`.
use Prim.Native.String.{◌++◌ as ◌<>◌}
use uart2llm.Prelude.{
  ℕ, zero, suc, ◌+◌, String, Bool, false, none, some, List, [], ◌∷◌, ◌++◌, not, ◌&&◌, ◌||◌, leb,
  ◌==◌, any, all, length, codes, if◌then◌else◌,
}
use uart2llm.Python.Error.{Result, ok, raise, ◌>>=◌, type_error}
use uart2llm.Python.Dict.{lookup, insert}
use uart2llm.Python.Json
use uart2llm.Python.Json.{
  Json, Items, null, bool, int, float, str, arr, obj, nil, cons, field, end, empty, truthy,
  equals_str, equals_ℕ, item, is_dict,
}
use uart2llm.Python.Json.Equality.{equals}

code_letter : ℕ → Bool
code_letter c =
    (leb b'0' c && leb c b'9')
    || (leb b'A' c && leb c b'Z')
    || (leb b'a' c && leb c b'z')
    || any (λ d. c == d) (b'_' ∷ b'.' ∷ b'-' ∷ [])

-- A short code: up to 64 letters of its class.
unfoldable pub is_short_code : Json → Bool
unfolding code_letter
is_short_code (str s) =
    not (length (codes s) == 0) && leb (length (codes s)) 64 && all code_letter (codes s)
is_short_code null = false
is_short_code (bool _) = false
is_short_code (int _) = false
is_short_code (float _) = false
is_short_code (arr _) = false
is_short_code (obj _) = false

error_of : Result Json → Json
error_of (ok v) = found (Json.get "error" empty v)
  where
    found : Result Json → Json
    found (ok error) = error
    found (raise e) = empty
error_of (raise e) = empty

kept : String → Json → List (String × Json)
unfolding is_short_code Json.get
kept key error = of_value (Json.get key null error)
  where
    of_value : Result Json → List (String × Json)
    of_value (ok v) = if is_short_code v then (("response_error_" <> key), v) ∷ [] else []
    of_value (raise e) = []

-- `error_metadata`, of what `json.loads` makes of the body; it raises ValueError only.
unfoldable pub error_metadata : Result Json → List (String × Json)
unfolding error_of kept
error_metadata body = kept "code" (error_of body) ++ kept "type" (error_of body)

-- `r.get(k)` of an entry of the requests, which is a dict.
unfoldable pub value_at : String → List (String × Json) → Json
unfolding lookup
value_at k r = elim (lookup k r) [ none ↦ null | some v ↦ v ]

-- The ids of the requests that pass a test, in order.
unfoldable pub ids_where : (List (String × Json) → Bool) → List (List (String × Json)) → List Json
unfolding value_at
ids_where test [] = []
ids_where test (r ∷ rs) =
    let rest = ids_where test rs in if test r then value_at "id" r ∷ rest else rest

unfoldable pub succeeded : List (String × Json) → Bool
unfolding value_at equals_ℕ
succeeded r = equals_ℕ 200 (value_at "status" r)

unfoldable pub is_capacity : List (String × Json) → Bool
unfolding value_at equals_ℕ equals_str
is_capacity r =
    equals_ℕ 503 (value_at "status" r)
    && equals_str "capacity_exceeded" (value_at "response_error_code" r)

unfoldable pub is_cut_off : List (String × Json) → Bool
unfolding value_at equals_str
is_cut_off r = equals_str "length" (value_at "finish_reason" r)

unfoldable pub is_incomplete : List (String × Json) → Bool
unfolding value_at truthy succeeded
is_incomplete r = succeeded r && truthy (value_at "stream" r) && not (truthy (value_at "done" r))

unfoldable pub has_error : List (String × Json) → Bool
unfolding value_at truthy
has_error r = truthy (value_at "error" r)

unfoldable pub is_unfinished : List (String × Json) → Bool
unfolding value_at equals_str succeeded
is_unfinished r =
    let reason = value_at "finish_reason" r in
    succeeded r
    && not
        (equals_str "stop" reason || equals_str "tool_calls" reason || equals_str "length" reason)

-- `Counter(...)`
unfoldable pub count_texts : List String → List (String × ℕ) → List (String × ℕ)
unfolding lookup insert
count_texts [] counts = counts
count_texts (s ∷ ss) counts =
    let before : ℕ = elim (lookup s counts) [ none ↦ 0 | some n ↦ n ] in
    count_texts ss (insert s (before + 1) counts)

unfoldable pub status_text : (Json → String) → List (String × Json) → String
unfolding lookup
status_text text_of r = elim (lookup "status" r) [ none ↦ "missing" | some v ↦ text_of v ]

unfoldable pub status_texts : (Json → String) → List (List (String × Json)) → List String
unfolding status_text
status_texts text_of [] = []
status_texts text_of (r ∷ rs) = status_text text_of r ∷ status_texts text_of rs

-- `request_diagnostics`
pub record Diagnostics : Type 0 where
  pub http_status_counts : List (String × ℕ)
  pub capacity_rejected_ids : List Json
  pub output_limit_ids : List Json
  pub incomplete_success_stream_ids : List Json
  pub forwarding_error_ids : List Json
  pub missing_success_terminal_ids : List Json

unfoldable pub request_diagnostics : (Json → String) → List (List (String × Json)) → Diagnostics
unfolding ids_where count_texts status_texts is_capacity is_cut_off is_incomplete has_error
    is_unfinished
request_diagnostics text_of requests = record {
  http_status_counts = count_texts (status_texts text_of requests) [];
  capacity_rejected_ids = ids_where is_capacity requests;
  output_limit_ids = ids_where is_cut_off requests;
  incomplete_success_stream_ids = ids_where is_incomplete requests;
  forwarding_error_ids = ids_where has_error requests;
  missing_success_terminal_ids = ids_where is_unfinished requests;
}

-- The result of `summarize_events`.
pub record EventSummary : Type 0 where
  pub tools : List Json
  pub texts : List Json
  pub sessions : List Json
  pub errors : List Json
  pub steps : List Json

-- `{k: v.get(k) ...}` under other names.
unfoldable pub renamed : List (String × String) → Json → Result Json.Fields
unfolding Json.get
renamed [] v = ok end
renamed ((name, key) ∷ keys) v = do
  found ← Json.get key null v
  rest ← renamed keys v
  ok (field name found rest)

unfoldable pub take_text : ℕ → String → String
take_text zero s = String.[]
take_text (suc n) String.[] = String.[]
take_text (suc n) (String.◌∷◌ c s) = String.◌∷◌ c (take_text n s)

take_items : ℕ → Items → Items
take_items zero vs = nil
take_items (suc n) nil = nil
take_items (suc n) (cons v vs) = cons v (take_items n vs)

-- `v[:6000]`
unfoldable pub clip : Json → Result Json
unfolding take_text take_items
clip (str s) = ok (str (take_text 6000 s))
clip (arr vs) = ok (arr (take_items 6000 vs))
clip null = raise type_error
clip (bool _) = raise type_error
clip (int _) = raise type_error
clip (float _) = raise type_error
clip (obj _) = raise type_error

unfoldable pub tool_event : (Json → String) → Json → Result Json
unfolding Json.get renamed take_text
tool_event text_of part = do
  state ← Json.get "state" empty part
  outer ← renamed (("tool", "tool") ∷ ("call_id", "callID") ∷ []) part
  output ← Json.get "output" (str "") state
  inner ←
      renamed
        (("status", "status")
          ∷ ("input", "input")
          ∷ ("error", "error")
          ∷ ("metadata", "metadata")
          ∷ [])
        state
  ok (obj (field "output" (str (take_text 6000 (text_of output))) (joined outer inner)))
  where
    joined : Json.Fields → Json.Fields → Json.Fields
    joined end gs = gs
    joined (field k v fs) gs = field k v (joined fs gs)

unfoldable pub step_event : Json → Result Json
unfolding renamed
step_event part = do
  fields ← renamed (("reason", "reason") ∷ ("cost", "cost") ∷ ("usage", "tokens") ∷ []) part
  ok (obj fields)

unfoldable pub with_session : Json → EventSummary → EventSummary
unfolding truthy equals
with_session id e =
    if truthy id && not (any (equals id) e.sessions)
    then record e { sessions = e.sessions ++ (id ∷ []) }
    else e

-- What an event adds to the summary, by its type.
unfoldable pub with_event : (Json → String) → Json → EventSummary → Result EventSummary
unfolding Json.get tool_event step_event with_session clip equals_str
with_event text_of event before = do
  part ← Json.get "part" empty event
  id ← Json.get "sessionID" null event
  kind ← Json.get "type" null event
  let e : EventSummary = with_session id before
  if equals_str "tool_use" kind
      then (do tool ← tool_event text_of part; ok (record e { tools = e.tools ++ (tool ∷ []) }))
      else if equals_str "text" kind
      then (do
        text ← Json.get "text" (str "") part
        clipped ← clip text
        ok (record e { texts = e.texts ++ (clipped ∷ []) }))
      else if equals_str "error" kind
      then (do
        error ← Json.get "error" empty event
        ok (record e { errors = e.errors ++ (error ∷ []) }))
      else if equals_str "step_finish" kind
      then (do step ← step_event part; ok (record e { steps = e.steps ++ (step ∷ []) }))
      else ok e

-- `summarize_events`, of what `json.loads` makes of each line; a line that is no JSON is passed over.
unfoldable pub summarize_events :
    (Json → String) → List (Result Json) → EventSummary → Result EventSummary
unfolding with_event
summarize_events text_of [] e = ok e
summarize_events text_of (raise problem ∷ lines) e = summarize_events text_of lines e
summarize_events text_of (ok event ∷ lines) e = do
  after ← with_event text_of event e
  summarize_events text_of lines after
