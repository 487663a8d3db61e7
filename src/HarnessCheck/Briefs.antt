-- ===== src/HarnessCheck/Briefs.antt =====
-- scripts/harness-check.py: what `Follow.event` reads off the data of an event.
use uart2llm.Prelude.{
  ℕ, ◌+◌, String, Bool, true, false, Option, none, some, List, [], ◌∷◌, ◌++◌, not, ◌&&◌, any,
  length, if◌then◌else◌,
}
use uart2llm.Prelude.Int.{pos}
use uart2llm.Python.Error.{Result, ok, raise, ◌>>=◌, type_error, attribute_error}
use uart2llm.Python.Float.{Arithmetic}
use uart2llm.Python.Dict.{lookup, insert}
use uart2llm.Python.Json
use uart2llm.Python.Json.{
  Json, Items, Fields, null, bool, int, float, str, arr, obj, nil, cons, end, field, items, empty,
  or_empty, is_dict, equals_str, truthy, iterate, item,
}
use uart2llm.Python.Json.Equality.{equals}
use uart2llm.HarnessCheck.Values.{code, contains, whole, real, number_le, text_blocks}
use uart2llm.HarnessCheck.Tools.{Tool}

unfoldable pub to_fields : Tool → Fields
to_fields [] = end
to_fields (entry ∷ entries) = field entry.0 entry.1 (to_fields entries)

unfoldable pub to_items : List Json → Items
to_items [] = nil
to_items (v ∷ vs) = cons v (to_items vs)

-- `k in v`
unfoldable pub has_key : String → Json → Result Bool
unfolding Json.lookup equals contains
has_key k (obj fields) = ok (elim (Json.lookup k fields) [ none ↦ false | some v ↦ true ])
has_key k (arr vs) = ok (any (equals (str k)) (items vs))
has_key k (str s) = ok (contains k s)
has_key k null = raise type_error
has_key k (bool _) = raise type_error
has_key k (int _) = raise type_error
has_key k (float _) = raise type_error

-- `{k: v[k] for k in keys if k in v}`
unfoldable pub chosen_fields : List String → Json → Result Tool
unfolding has_key item
chosen_fields [] v = ok []
chosen_fields (k ∷ ks) v = do
  there ← has_key k v
  if there
      then (do value ← item k v; rest ← chosen_fields ks v; ok ((k, value) ∷ rest))
      else chosen_fields ks v

-- `{k: v.get(k) for k in keys}`
unfoldable pub each_of : List String → Json → Result Tool
unfolding Json.get
each_of [] v = ok []
each_of (k ∷ ks) v = do value ← Json.get k null v; rest ← each_of ks v; ok ((k, value) ∷ rest)

-- The route of a request.
unfoldable pub route : Json → Result Tool
unfolding Json.get chosen_fields
route data_of = do
  header ← Json.get "header" empty data_of
  config ← Json.get "config" empty header
  chosen_fields ("provider" ∷ "model" ∷ "reasoningEffort" ∷ "maxTokens" ∷ []) config

named : Json → Option String
named (str s) = some s
named null = none
named (bool _) = none
named (int _) = none
named (float _) = none
named (arr _) = none
named (obj _) = none

-- The name of an offered tool that is a dict.
unfoldable pub offered_name : Json → Option String
unfolding Json.get code named
offered_name tool = elim (Json.get "name" null tool) [ raise e ↦ none | ok v ↦ named (code v) ]

unfoldable pub offered_names : List Json → List String
unfolding offered_name
offered_names [] = []
offered_names (t ∷ ts) =
    let rest = offered_names ts in elim (offered_name t) [ none ↦ rest | some name ↦ name ∷ rest ]

unfoldable pub offered : Json → Result (List String)
unfolding Json.get iterate offered_names
offered data_of = do
  header ← Json.get "header" empty data_of
  tools ← Json.get "tools" (arr nil) header
  entries ← iterate tools
  ok (offered_names entries)

-- The child of a catalog's entry.
unfoldable pub child_of : Json → Result Json
unfolding Json.get
child_of data_of = do
  id ← Json.get "childId" null data_of
  mode ← Json.get "mode" null data_of
  ok (obj (field "child_id" id (field "mode" mode end)))

unfoldable pub with_child : Json → List Json → List Json
unfolding equals truthy Json.lookup
with_child child children =
    let id : Json = elim (Json.get "child_id" null child) [ raise e ↦ null | ok v ↦ v ] in
    if truthy id && not (any (equals child) children) then children ++ (child ∷ []) else children

-- `code(v.get(k))`
unfoldable pub code_at : String → Json → Result Json
unfolding Json.get code
code_at k v = do found ← Json.get k null v; ok (code found)

unfoldable pub goal_state : Json → Result Json
unfolding Json.get truthy each_of to_fields
goal_state data_of = do
  goal ← Json.get "goal" null data_of
  state ← each_of ("id" ∷ "revision" ∷ "phase" ∷ "maxGoalRounds" ∷ []) (or_empty goal)
  ok (obj (to_fields state))

statuses : List Json → Result (List Json)
unfolding code_at
statuses [] = ok []
statuses (t ∷ ts) = do status ← code_at "status" t; rest ← statuses ts; ok (status ∷ rest)

unfoldable pub todo_state : Json → Result Json
unfolding Json.get iterate statuses to_items
todo_state data_of = do
  todos ← Json.get "todos" (arr nil) data_of
  entries ← iterate todos
  found ← statuses entries
  ok (
      obj
        (field "count" (int (pos (length entries))) (field "statuses" (arr (to_items found)) end)))

-- How a turn has ended.
unfoldable pub turn_reason : Json → Result Tool
unfolding Json.get code_at
turn_reason data_of = do
  reason ← Json.get "reason" empty data_of
  kind ← code_at "kind" reason
  error ← Json.get "error" empty reason
  code_found ← code_at "code" error
  ok (("reason", kind) ∷ ("error_code", code_found) ∷ [])

-- `b.get('type') == 'reasoning'`, of the blocks that are dicts.
unfoldable pub reasoning_count : List Json → ℕ
unfolding Json.get equals_str
reasoning_count [] = 0
reasoning_count (b ∷ bs) =
    let kind : Json = elim (Json.get "type" null b) [ raise e ↦ null | ok v ↦ v ] in
    (if equals_str "reasoning" kind then 1 else 0) + reasoning_count bs

-- The reasoning blocks and the texts of a message.
unfoldable pub message_parts : Json → Result (ℕ × List String)
unfolding Json.get iterate reasoning_count
message_parts data_of = do
  message ← Json.get "message" empty data_of
  content ← Json.get "content" (arr nil) message
  blocks ← iterate content
  ok (reasoning_count blocks, text_blocks content)

-- `v.items()`
unfoldable pub dict_entries : Json → Result Tool
dict_entries (obj fields) = ok (entries fields)
  where
    entries : Fields → Tool
    entries end = []
    entries (field k v fields) = (k, v) ∷ entries fields
dict_entries null = raise attribute_error
dict_entries (bool _) = raise attribute_error
dict_entries (int _) = raise attribute_error
dict_entries (float _) = raise attribute_error
dict_entries (str _) = raise attribute_error
dict_entries (arr _) = raise attribute_error

-- An int or a float that is not negative.
unfoldable pub is_amount : Arithmetic → Json → Bool
unfolding number_le
is_amount fl (int n) = number_le fl (whole (pos 0)) (whole n)
is_amount fl (float x) = number_le fl (whole (pos 0)) (real x)
is_amount fl null = false
is_amount fl (bool _) = false
is_amount fl (str _) = false
is_amount fl (arr _) = false
is_amount fl (obj _) = false

-- `a + b`, of two amounts
unfoldable pub sum_of : Arithmetic → Json → Json → Json
sum_of fl (int (pos m)) (int (pos n)) = int (pos (m + n))
sum_of fl (int m) (float y) = float (fl.add (fl.of_int m) y)
sum_of fl (float x) (int n) = float (fl.add x (fl.of_int n))
sum_of fl (float x) (float y) = float (fl.add x y)
sum_of fl a b = a

-- `self.usage[k] += v`, for the amounts of a message.
unfoldable pub add_usage : Arithmetic → Tool → Tool → Tool
unfolding is_amount sum_of lookup insert
add_usage fl [] usage = usage
add_usage fl ((k, v) ∷ entries) usage =
    let before : Json = elim (lookup k usage) [ none ↦ int (pos 0) | some n ↦ n ] in
    add_usage fl entries (if is_amount fl v then insert k (sum_of fl before v) usage else usage)

unfoldable pub message_usage : Json → Result Tool
unfolding Json.get truthy dict_entries
message_usage data_of = do usage ← Json.get "usage" null data_of; dict_entries (or_empty usage)

-- The code of the error that an event names.
unfoldable pub error_code : Json → Result Json
unfolding Json.get code_at
error_code data_of = do error ← Json.get "error" empty data_of; code_at "code" error
