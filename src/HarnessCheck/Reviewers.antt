-- ===== src/HarnessCheck/Reviewers.antt =====
-- scripts/harness-check.py: for which request alone the follower records the review of a plan.
use uart2llm.Prelude.{
  ◌≡◌, refl, ap, ◌∙◌, Bool, true, false, Option, none, some, ◌⊎◌, inl, inr, ◌&&◌, if◌then◌else◌,
}
use uart2llm.Python.Error.{Result, ok, raise, ◌>>=◌ as ◌>=>◌, >>=-eq-ok}
use uart2llm.Python.Exec.{Exec, pure, continue, ◌>>=◌}
use uart2llm.Python.Json
use uart2llm.Python.Json.{
  Json, null, str, arr, nil, empty, or_empty, equals_str, iterate, first_item,
}
use uart2llm.Python.Json.Equality.{equals}
use uart2llm.HarnessCheck.Values.{TextTools}
use uart2llm.HarnessCheck.Follow.{Follow}
use uart2llm.HarnessCheck.Review.{
  Asked, review_of, expected_question, other, classify, own_question, is_review, classify_question,
  expected_or_other,
}
use uart2llm.HarnessCheck.Session.{
  Remote, Session, remotely, update_follow, answer_question, answer, reply_to, answer_request,
  note_ready, interaction,
}
use uart2llm.HarnessCheck.Questions.{AsksReview, is_review-ReviewsPlan, own_question-AsksReview}

choice-eq :
    (c : Bool) {q : Json} → ok (if c then expected_question else other) ≡ ok (review_of q) → ⊥
choice-eq true h = cc
choice-eq false h = cc

expected_or_other-eq :
    (c : Bool) (r : Result Bool) (d : Bool) {q : Json}
    → (if c
        then ok other
        else (r >=> λ expected. ok (if expected && d then expected_question else other)))
      ≡ ok (review_of q)
    → ⊥
expected_or_other-eq true r d h = cc
expected_or_other-eq false r d h =
    let (expected, e, e') =
      >>=-eq-ok r (λ expected. ok (if expected && d then expected_question else other)) h in
    choice-eq (expected && d) e'

review_if :
    (f : Follow) (question : Json) (review : Bool) {q : Json}
    → (if review then ok (review_of question) else expected_or_other f question) ≡ ok (review_of q)
    → review ≡ true
unfolding expected_or_other
review_if f question true h = refl
review_if f question false h = absurd (expected_or_other-eq _ _ _ h)

classify_question-eq :
    (f : Follow) (asked : Option Json) {q : Json}
    → classify_question f asked ≡ ok (review_of q)
    → (question : Json) × (asked ≡ some question) × (is_review question ≡ ok true)
unfolding classify_question
classify_question-eq f none h = cc
classify_question-eq f (some question) h =
    let (review, e, e') = >>=-eq-ok (is_review question) _ h in
    (question, refl, e ∙ ap ok (review_if f question review e'))

classify-AsksReview :
    (f : Follow) (value q : Json) → classify f value ≡ ok (review_of q) → AsksReview value f
unfolding classify
classify-AsksReview f value q h =
    let (asked, e, e') = >>=-eq-ok (own_question f value) (classify_question f) h in
    let (question, e2, e3) = classify_question-eq f asked e' in
    own_question-AsksReview f value question (e ∙ ap ok e2) (is_review-ReviewsPlan question e3)

module _ (remote : Remote) where
  -- The action leaves the reviews as they are, or the request asks for one.
  record Reviews {A : Type 0} (Asks : Follow → Type 0) (act : Exec (Session remote) A)
      : Type 0 where
    cases :
        (s : Session remote)
        → ((act s).1.follow.plan_reviews ≡ s.follow.plan_reviews) ⊎ Asks s.follow

  -- The action leaves the reviews as they are.
  record Leaves {A : Type 0} (act : Exec (Session remote) A) : Type 0 where
    same : (s : Session remote) → (act s).1.follow.plan_reviews ≡ s.follow.plan_reviews

  continue-Leaves :
      {A B : Type 0} (r : Result A) (k : A → Exec (Session remote) B) (s : Session remote)
      → ((a : A) → Leaves (k a))
      → (continue r k s).1.follow.plan_reviews ≡ s.follow.plan_reviews
  continue-Leaves (raise e) k s h = refl
  continue-Leaves (ok a) k s h = (h a).same s

  Leaves-bind :
      {A B : Type 0} (m : Exec (Session remote) A) (k : A → Exec (Session remote) B)
      → Leaves m
      → ((a : A) → Leaves (k a))
      → Leaves (m >>= k)
  Leaves-bind m k h g = record { same = λ s. continue-Leaves (m s).0 k (m s).1 g ∙ h.same s }

  Leaves-look : {A : Type 0} (part : Session remote → Result A) → Leaves (λ s. (part s, s))
  Leaves-look part = record { same = λ s. refl }

  Leaves-update_follow :
      (change : Follow → Follow)
      → ((f : Follow) → (change f).plan_reviews ≡ f.plan_reviews)
      → Leaves (update_follow remote change)
  Leaves-update_follow change h = record { same = λ s. h s.follow }

  Leaves-if :
      {A : Type 0} (c : Bool) (m n : Exec (Session remote) A)
      → Leaves m
      → Leaves n
      → Leaves (if c then m else n)
  Leaves-if true m n h g = h
  Leaves-if false m n h g = g

  Leaves-remotely :
      {A : Type 0} (act : remote.State → Result A × remote.State) → Leaves (remotely remote act)
  unfolding remotely
  Leaves-remotely act = record { same = λ s. refl }

  ruleset leave_steps =
      (Leaves-remotely, Leaves-if, Leaves-look, Leaves-bind, Leaves-update_follow, refl)

  Leaves-answer_question : Leaves (answer_question remote)
  unfolding answer_question
  Leaves-answer_question = search leave_steps depth 40

  Reviews-Leaves :
      {A : Type 0} (Asks : Follow → Type 0) (act : Exec (Session remote) A)
      → Leaves act
      → Reviews Asks act
  Reviews-Leaves Asks act h = record { cases = λ s. inl (h.same s) }

  continue-Reviews :
      {A B : Type 0} (Asks : Follow → Type 0) (r : Result A) (k : A → Exec (Session remote) B)
      (s : Session remote)
      → ((a : A) → Reviews Asks (k a))
      → ((continue r k s).1.follow.plan_reviews ≡ s.follow.plan_reviews) ⊎ Asks s.follow
  continue-Reviews Asks (raise e) k s h = inl refl
  continue-Reviews Asks (ok a) k s h = (h a).cases s

  -- Where the first part only looks.
  Reviews-look :
      {A B : Type 0} (Asks : Follow → Type 0) (part : Session remote → Result A)
      (k : A → Exec (Session remote) B)
      → ((a : A) → Reviews Asks (k a))
      → Reviews Asks ((λ s. (part s, s)) >>= k)
  Reviews-look Asks part k h = record { cases = λ s. continue-Reviews Asks (part s) k s h }

  Reviews-if :
      {A : Type 0} (Asks : Follow → Type 0) (c : Bool) (m n : Exec (Session remote) A)
      → Reviews Asks m
      → Reviews Asks n
      → Reviews Asks (if c then m else n)
  Reviews-if Asks true m n h g = h
  Reviews-if Asks false m n h g = g

  asked_cases :
      (value : Json) (r : Result Asked) (k : Asked → Exec (Session remote) (Unit {0}))
      (s : Session remote)
      → Leaves (k expected_question)
      → Leaves (k other)
      → classify s.follow value ≡ r
      → ((continue r k s).1.follow.plan_reviews ≡ s.follow.plan_reviews) ⊎ AsksReview value s.follow
  asked_cases value (raise e) k s h g eq = inl refl
  asked_cases value (ok (review_of q)) k s h g eq = inr (classify-AsksReview s.follow value q eq)
  asked_cases value (ok expected_question) k s h g eq = inl (h.same s)
  asked_cases value (ok other) k s h g eq = inl (g.same s)

  Reviews-classify :
      (value : Json) (k : Asked → Exec (Session remote) (Unit {0}))
      → Leaves (k expected_question)
      → Leaves (k other)
      → Reviews (AsksReview value) ((λ s. (classify s.follow value, s)) >>= k)
  Reviews-classify value k h g = record {
    cases = λ s. asked_cases value (classify s.follow value) k s h g refl;
  }

  Leaves-expected :
      (t : TextTools) (value : Json) (owned : Bool)
      → Leaves (reply_to remote t value owned expected_question)
  unfolding reply_to answer
  Leaves-expected t value owned = search (Leaves-answer_question, leave_steps) depth 40

  Leaves-other :
      (t : TextTools) (value : Json) (owned : Bool) → Leaves (reply_to remote t value owned other)
  unfolding reply_to answer
  Leaves-other t value owned = search leave_steps depth 40

  Reviews-answer_request :
      (t : TextTools) (value : Json) → Reviews (AsksReview value) (answer_request remote t value)
  unfolding answer_request
  Reviews-answer_request t value =
      Reviews-look (AsksReview value) (λ s. Json.get "agentId" null value) _
        (λ agent.
          Reviews-look (AsksReview value) (λ s. ok (equals agent s.follow.session_id)) _
            (λ owned.
              Reviews-classify value (reply_to remote t value owned) (Leaves-expected t value owned)
                (Leaves-other t value owned)))

  Leaves-note_ready : (value : Json) → Leaves (note_ready remote value)
  unfolding note_ready
  Leaves-note_ready value = search leave_steps depth 40

  -- A request of the harness leaves the plan reviews as they are, unless it is a request of the
  -- follower's own session with one question, which asks for the review of a plan and offers to
  -- approve it.
  pub interaction-AsksReview :
      (t : TextTools) (value : Json) (s : Session remote)
      → ((interaction remote t value s).1.follow.plan_reviews ≡ s.follow.plan_reviews)
        ⊎ AsksReview value s.follow
  unfolding interaction
  interaction-AsksReview t value s =
      (Reviews-look (AsksReview value) (λ s. Json.get "type" null value) _
          (λ kind.
            Reviews-if (AsksReview value) (equals_str "ready" kind) (note_ready remote value) _
              (Reviews-Leaves _ (note_ready remote value) (Leaves-note_ready value))
              (Reviews-if (AsksReview value) (equals_str "waterfall" kind)
                (answer_request remote t value) (pure tt) (Reviews-answer_request t value)
                (Reviews-Leaves _ (pure tt) (Leaves-look (λ s. ok tt)))))).cases
        s
