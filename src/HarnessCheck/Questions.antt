-- ===== src/HarnessCheck/Questions.antt =====
-- scripts/harness-check.py: what a request for the review of a plan says, read off its JSON value.
use uart2llm.Prelude.{
  ◌≡◌, refl, sym, ap, ◌∙◌, String, List, [], ◌∷◌, Bool, true, false, Option, none, some, ◌⊎◌, inl,
  inr, not, ◌&&◌, ◌==◌, ==_iff, and-eq-true, Bool-cases, length, if◌then◌else◌,
}
use mathlib.Core.Option.{some-injective}
use uart2llm.Python.Error.{Result, ok, raise, ◌>>=◌ as ◌>=>◌, >>=-eq-ok, ok-injective}
use uart2llm.Python.Json
use uart2llm.Python.Json.{
  Json, null, str, arr, nil, empty, or_empty, equals_str, iterate, first_item,
}
use uart2llm.Python.Json.Equality.{equals}
use uart2llm.Python.Json.Texts.{equals_str-eq}
use uart2llm.HarnessCheck.Follow.{Follow}
use uart2llm.HarnessCheck.Review.{
  own_question, is_review, text_is, and_then, intent_is, any_approve,
}

-- An option has the label.
abbrev Offers : String → List Json → Type 0
Offers label [] = ⊥
Offers label (o ∷ os) = (Json.get "label" null o ≡ ok (str label)) ⊎ Offers label os

-- The question asks for the review of a plan, and offers to approve it.
pub record ReviewsPlan (question : Json) : Type 0 where
  pub id : Json.get "id" null question ≡ ok (str "plan-review")
  pub intent : Json
  pub intended : Json.get "intent" empty question ≡ ok intent
  pub kind : Json.get "kind" null intent ≡ ok (str "plan-review")
  pub approve : Json.get "approve" null intent ≡ ok (str "Approve")
  pub options : Json
  pub optional : Json.get "options" (arr nil) question ≡ ok options
  pub choices : List Json
  pub listed : iterate options ≡ ok choices
  pub offered : Offers "Approve" choices

-- The request comes from the session that is followed, is one for questions to the user, and has one
-- question, which asks for the review of a plan.
pub record AsksReview (value : Json) (f : Follow) : Type 0 where
  pub agent : Json
  pub found : Json.get "agentId" null value ≡ ok agent
  pub own : equals agent f.session_id ≡ true
  pub event : Json.get "event" null value ≡ ok (str "user-questions/request")
  pub request : Json
  pub requested : Json.get "request" null value ≡ ok request
  pub questions : Json
  pub posed : Json.get "questions" (arr nil) (or_empty request) ≡ ok questions
  pub asked : List Json
  pub listed : iterate questions ≡ ok asked
  pub single : length asked ≡ 1
  pub question : Json
  pub first : first_item questions ≡ ok question
  pub review : ReviewsPlan question

text_is-eq :
    (k : String) (v : Json) (s : String) → text_is k v s ≡ ok true → Json.get k null v ≡ ok (str s)
unfolding text_is
text_is-eq k v s h =
    let (found, e, e') = >>=-eq-ok (Json.get k null v) _ h in
    e ∙ ap ok (equals_str-eq s found (ok-injective e'))

and_then-ok :
    (first rest : Result Bool)
    → and_then first rest ≡ ok true
    → (first ≡ ok true) × (rest ≡ ok true)
unfolding and_then ◌>=>◌
and_then-ok (raise e) rest h = cc
and_then-ok (ok true) rest h = (refl, h)
and_then-ok (ok false) rest h = cc

any_approve-Offers :
    (choices : List Json) → any_approve choices ≡ ok true → Offers "Approve" choices
unfolding any_approve
any_approve-Offers [] h = cc
any_approve-Offers (o ∷ os) h =
    let (label, e, e') = >>=-eq-ok (Json.get "label" null o) _ h in
    elim (Bool-cases (equals_str "Approve" label)) [
      | inl same ↦ inl (e ∙ ap ok (equals_str-eq "Approve" label same))
      | inr another ↦ inr (any_approve-Offers os (rw another at e'))
    ]

intent_is-eq :
    (question : Json) (k s : String)
    → intent_is question k s ≡ ok true
    → (intent : Json) × (Json.get "intent" empty question ≡ ok intent)
      × (Json.get k null intent ≡ ok (str s))
unfolding intent_is
intent_is-eq question k s h =
    let (intent, e, e') = >>=-eq-ok (Json.get "intent" empty question) _ h in
    (intent, e, text_is-eq k intent s e')

pub is_review-ReviewsPlan : (question : Json) → is_review question ≡ ok true → ReviewsPlan question
unfolding is_review
is_review-ReviewsPlan question h =
    let (id, later) = and_then-ok _ _ h in
    let (is_kind, more) = and_then-ok _ _ later in
    let (is_approve, rest) = and_then-ok _ _ more in
    let (intent, intended, kind) = intent_is-eq question "kind" "plan-review" is_kind in
    let (intent', intended', approve) = intent_is-eq question "approve" "Approve" is_approve in
    let (options, optional, last) = >>=-eq-ok (Json.get "options" (arr nil) question) _ rest in
    let (choices, listed, offered) = >>=-eq-ok (iterate options) _ last in
    let same_intent : intent' ≡ intent = ok-injective (sym intended' ∙ intended) in
    record {
      id = text_is-eq "id" question "plan-review" id;
      intent = intent;
      intended = intended;
      kind = kind;
      approve = ap (Json.get "approve" null) (sym same_intent) ∙ approve;
      options = options;
      optional = optional;
      choices = choices;
      listed = listed;
      offered = any_approve-Offers choices offered;
    }

passed_guard :
    (c : Bool) (r : Result (Option Json)) (question : Json)
    → (if not c then ok none else r) ≡ ok (some question)
    → (c ≡ true) × (r ≡ ok (some question))
passed_guard true r question h = (refl, h)
passed_guard false r question h = cc

pub own_question-AsksReview :
    (f : Follow) (value question : Json)
    → own_question f value ≡ ok (some question)
    → ReviewsPlan question
    → AsksReview value f
unfolding own_question
own_question-AsksReview f value question h review =
    let (agent, found, h1) = >>=-eq-ok (Json.get "agentId" null value) _ h in
    let (request, requested, h2) = >>=-eq-ok (Json.get "request" null value) _ h1 in
    let (questions, posed, h3) =
      >>=-eq-ok (Json.get "questions" (arr nil) (or_empty request)) _ h2 in
    let (ours, event, h4) = >>=-eq-ok (text_is "event" value "user-questions/request") _ h3 in
    let (both, h5) = passed_guard (equals agent f.session_id && ours) _ question h4 in
    let (own, is_ours) = and-eq-true (equals agent f.session_id) ours both in
    let (asked, listed, h6) = >>=-eq-ok (iterate questions) _ h5 in
    let (one, h7) = passed_guard (length asked == 1) _ question h6 in
    let (first, e, e') = >>=-eq-ok (first_item questions) _ h7 in
    record {
      agent = agent;
      found = found;
      own = own;
      event = text_is-eq "event" value "user-questions/request" (event ∙ ap ok is_ours);
      request = request;
      requested = requested;
      questions = questions;
      posed = posed;
      asked = asked;
      listed = listed;
      single = (==_iff (length asked) 1).0 one;
      question = question;
      first = e ∙ ap ok (some-injective _ _ (ok-injective e'));
      review = review;
    }
