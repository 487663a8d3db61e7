-- ===== src/HarnessCheck/Review.antt =====
-- scripts/harness-check.py: `Follow.interaction`, which answers what the harness asks of its user.
use uart2llm.Prelude.{
  String, Bool, true, false, Option, none, some, List, [], ◌∷◌, not, ◌&&◌, ◌==◌, length, codes,
  if◌then◌else◌,
}
use uart2llm.Python.Error.{Result, ok, ◌>>=◌}
use uart2llm.Python.Json
use uart2llm.Python.Json.{
  Json, Items, null, bool, int, float, str, arr, obj, nil, cons, field, end, empty, or_empty,
  equals_str, truthy, iterate, item, first_item,
}
use uart2llm.Python.Json.Equality.{equals, is_null}
use uart2llm.Python.Text.{starts_with}
use uart2llm.HarnessCheck.Values.{TextTools, contains}
use uart2llm.HarnessCheck.Follow.{Follow, PlanReview}

-- `'kind': ...` of the answer: the question is left to others, or answered.
unfoldable pub answer_next : Json
answer_next = obj (field "kind" (str "next") end)

unfoldable pub answer_with : Json → String → Json
answer_with id selected = obj (
    field "kind" (str "result") (
      field "value"
        (obj (
          field "answers"
            (arr (
              cons (obj (field "id" id (field "selected" (arr (cons (str selected) nil)) end)))
                nil))
            end))
        end))

labels : List Json → Result (List Json)
unfolding Json.get
labels [] = ok []
labels (o ∷ os) = do label ← Json.get "label" null o; rest ← labels os; ok (label ∷ rest)

unfoldable pub any_approve : List Json → Result Bool
unfolding Json.get equals_str
any_approve [] = ok false
any_approve (o ∷ os) = do
  label ← Json.get "label" null o
  if equals_str "Approve" label then ok true else any_approve os

-- `v.get(k) == s`, and what comes next where it is so.
unfoldable pub and_then : Result Bool → Result Bool → Result Bool
and_then first rest = do holds ← first; if holds then rest else ok false

unfoldable pub text_is : String → Json → String → Result Bool
unfolding Json.get equals_str
text_is k v s = do found ← Json.get k null v; ok (equals_str s found)

unfoldable pub intent_is : Json → String → String → Result Bool
unfolding Json.get text_is
intent_is question k s = do intent ← Json.get "intent" empty question; text_is k intent s

-- The only question asks for the review of a plan.
unfoldable pub is_review : Json → Result Bool
unfolding text_is and_then intent_is any_approve Json.get iterate
is_review question = and_then (text_is "id" question "plan-review") (
    and_then (intent_is question "kind" "plan-review") (
      and_then (intent_is question "approve" "Approve") (do
        options ← Json.get "options" (arr nil) question
        choices ← iterate options
        any_approve choices)))

same_at : String → Json → Json → Result Bool
unfolding Json.get item equals
same_at k question expected = do
  found ← Json.get k null question
  value ← item k expected
  ok (equals found value)

-- The only question is the one that the run expects, word for word.
unfoldable pub is_expected : Json → Json → Result Bool
unfolding and_then same_at labels Json.get iterate equals truthy
is_expected expected question = and_then (same_at "id" question expected) (
    and_then (same_at "question" question expected) (do
      options ← Json.get "options" (arr nil) question
      choices ← iterate options
      found ← labels choices
      intent ← Json.get "intent" null question
      multi ← Json.get "multiSelect" null question
      ok (
          equals_list found (str "Blue" ∷ str "Green" ∷ [])
          && not (truthy intent)
          && not (truthy multi))))
  where
    equals_list : List Json → List Json → Bool
    equals_list [] [] = true
    equals_list [] (w ∷ ws) = false
    equals_list (v ∷ vs) [] = false
    equals_list (v ∷ vs) (w ∷ ws) = equals v w && equals_list vs ws

-- The only question, of the session's own request.
unfoldable pub own_question : Follow → Json → Result (Option Json)
unfolding Json.get text_is truthy iterate equals item first_item
own_question f value = do
  agent ← Json.get "agentId" null value
  request ← Json.get "request" null value
  questions ← Json.get "questions" (arr nil) (or_empty request)
  ours ← text_is "event" value "user-questions/request"
  if not (equals agent f.session_id && ours) then ok none else (do
    asked ← iterate questions
    if not (length asked == 1)
        then ok none
        else (do question ← first_item questions; ok (some question)))

-- What the request is: the review of a plan, the question that is expected, or neither.
pub data Asked : Type 0 where
  review_of : Json → Asked
  expected_question : Asked
  other : Asked

-- A question that is no review.
unfoldable pub expected_or_other : Follow → Json → Result Asked
unfolding is_expected
expected_or_other f question = if is_null f.fixture_question then ok other else (do
  expected ← is_expected f.fixture_question question
  ok (if expected && length f.question_answers == 0 then expected_question else other))

unfoldable pub classify_question : Follow → Option Json → Result Asked
unfolding is_review expected_or_other
classify_question f none = ok other
classify_question f (some question) = do
  review ← is_review question
  if review then ok (review_of question) else expected_or_other f question

unfoldable pub classify : Follow → Json → Result Asked
unfolding own_question classify_question
classify f value = do asked ← own_question f value; classify_question f asked

-- `isinstance(detail, str) and ...`: the plan is a document that names the two files.
unfoldable pub is_scoped : TextTools → Json → Bool
unfolding contains
is_scoped t (str s) =
    starts_with (codes "#") (t.lstrip s) && contains "price.py" s && contains "verify.py" s
is_scoped t null = false
is_scoped t (bool _) = false
is_scoped t (int _) = false
is_scoped t (float _) = false
is_scoped t (arr _) = false
is_scoped t (obj _) = false

-- The review of a plan; the first that is in scope, of an unchanged fixture, is approved.
unfoldable pub reviewed : TextTools → Follow → Bool → Json → PlanReview
unfolding is_scoped
reviewed t f unchanged detail = record {
  fixture_unchanged = unchanged;
  plan_scope_valid = is_scoped t detail;
  plan_sha256 = t.digest (t.text_of detail);
  plan_bytes = t.encoded_length (t.text_of detail);
  approved = unchanged && is_scoped t detail && length f.plan_reviews == 0;
}
