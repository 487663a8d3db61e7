-- ===== src/HarnessCheck/Approvals.antt =====
-- scripts/harness-check.py: which requests of the harness the follower approves.
use mathlib.Core.Path.{subst}
use uart2llm.Prelude.{
  ℕ, ◌+◌, ◌≤◌, ◌≡◌, refl, sym, arith, Bool, true, false, List, [], ◌∷◌, ◌++◌, ◌&&◌, ◌==◌, ==_iff,
  and-eq-true, Bool-cases, inl, inr, length, if◌then◌else◌,
}
use uart2llm.Python.Error.{Result, ok, raise}
use uart2llm.Python.Exec.{Exec, pure, lift, continue, ◌>>=◌, ◌>>◌}
use uart2llm.Python.Json
use uart2llm.Python.Json.{Json, str}
use uart2llm.HarnessCheck.Values.{TextTools}
use uart2llm.HarnessCheck.Follow.{Follow, PlanReview}
use uart2llm.HarnessCheck.Review.{
  Asked, review_of, expected_question, other, reviewed, is_scoped, answer_with, answer_next,
}
use uart2llm.HarnessCheck.Session.{
  Remote, Session, remotely, update_follow, look, ask_guard, answer_review, answer_question, answer,
  reply_to, answer_request, note_ready, interaction,
}

-- How many of the reviews are approvals.
unfoldable pub approvals : List PlanReview → ℕ
approvals [] = 0
approvals (r ∷ rs) = (if r.approved then 1 else 0) + approvals rs

approvals-append :
    (rs : List PlanReview) (r : PlanReview)
    → approvals (rs ++ (r ∷ [])) ≡ approvals rs + (if r.approved then 1 else 0)
unfolding approvals
approvals-append [] r = omega arith
approvals-append (x ∷ rs) r = omega (arith, approvals-append rs r)

approvals_of_none : (rs : List PlanReview) → length rs ≡ 0 → approvals rs ≡ 0
unfolding approvals
approvals_of_none [] h = refl
approvals_of_none (r ∷ rs) h = absurd (omega arith)

approvals_once :
    (b : Bool) (rs : List PlanReview)
    → approvals rs ≤ 1
    → approvals rs + (if b && length rs == 0 then 1 else 0) ≤ 1
approvals_once b rs h = elim (Bool-cases (b && length rs == 0)) [
  | inr e ↦ rw e (omega arith)
  | inl e ↦
      let first = approvals_of_none rs ((==_iff (length rs) 0).0 (and-eq-true b _ e).1) in
      rw e (omega arith)
]

module _ (remote : Remote) where
  -- At most one approval stays at most one.
  record Once {A : Type 0} (act : Exec (Session remote) A) : Type 0 where
    kept :
        (s : Session remote)
        → approvals s.follow.plan_reviews ≤ 1
        → approvals (act s).1.follow.plan_reviews ≤ 1

  continue-Once :
      {A B : Type 0} (r : Result A) (k : A → Exec (Session remote) B) (s : Session remote)
      → ((a : A) → Once (k a))
      → approvals s.follow.plan_reviews ≤ 1
      → approvals (continue r k s).1.follow.plan_reviews ≤ 1
  continue-Once (raise e) k s h i = i
  continue-Once (ok a) k s h i = (h a).kept s i

  Once-bind :
      {A B : Type 0} (m : Exec (Session remote) A) (k : A → Exec (Session remote) B)
      → Once m
      → ((a : A) → Once (k a))
      → Once (m >>= k)
  Once-bind m k h g = record { kept = λ s i. continue-Once (m s).0 k (m s).1 g (h.kept s i) }

  Once-lift : {A : Type 0} (r : Result A) → Once (lift r)
  Once-lift r = record { kept = λ s i. i }

  Once-look : {A : Type 0} (part : Session remote → Result A) → Once (λ s. (part s, s))
  Once-look part = record { kept = λ s i. i }

  Once-update_follow :
      (change : Follow → Follow)
      → ((f : Follow) → (change f).plan_reviews ≡ f.plan_reviews)
      → Once (update_follow remote change)
  Once-update_follow change h = record {
    kept = λ s i. subst (λ rs. approvals rs ≤ 1) (sym (h s.follow)) i;
  }

  Once-if :
      {A : Type 0} (c : Bool) (m n : Exec (Session remote) A)
      → Once m
      → Once n
      → Once (if c then m else n)
  Once-if true m n h g = h
  Once-if false m n h g = g

  Once-remotely :
      {A : Type 0} (act : remote.State → Result A × remote.State) → Once (remotely remote act)
  unfolding remotely
  Once-remotely act = record { kept = λ s i. i }

  ruleset once_steps =
      (Once-remotely, Once-if, Once-lift, Once-look, Once-bind, Once-update_follow, refl)

  Once-ask_guard : Once (ask_guard remote)
  unfolding ask_guard
  Once-ask_guard = search once_steps depth 20

  -- The review is recorded, and then answered.
  recorded : TextTools → Json → Bool → Exec (Session remote) (Json × Bool)
  recorded t detail unchanged = do
    review ← look remote (λ f. reviewed t f unchanged detail)
    update_follow remote (λ f. record f { plan_reviews = f.plan_reviews ++ (review ∷ []) })
    pure (
        if review.approved
        then (answer_with (str "plan-review") "Approve", true)
        else (answer_next, false))

  Once-recorded :
      (t : TextTools) (detail : Json) (unchanged : Bool) → Once (recorded t detail unchanged)
  unfolding recorded reviewed
  Once-recorded t detail unchanged = record {
    kept = λ s i.
        let rs = s.follow.plan_reviews in
        let r = reviewed t s.follow unchanged detail in
        subst (λ n. n ≤ 1) (sym (approvals-append rs r))
          (approvals_once (unchanged && is_scoped t detail) rs i);
  }

  Once-answer_review : (t : TextTools) (question : Json) → Once (answer_review remote t question)
  unfolding answer_review recorded
  Once-answer_review t question =
      Once-bind (lift (Json.get "detail" (str "") question)) _ (Once-lift _) (λ detail.
        Once-bind (ask_guard remote) (λ unchanged. recorded t detail unchanged) Once-ask_guard
          (λ unchanged. Once-recorded t detail unchanged))

  Once-answer : (t : TextTools) (request : Asked) → Once (answer remote t request)
  unfolding answer answer_question
  Once-answer t (review_of question) = Once-answer_review t question
  Once-answer t expected_question = search once_steps depth 40
  Once-answer t other = search once_steps depth 40

  Once-interaction : (t : TextTools) (value : Json) → Once (interaction remote t value)
  unfolding interaction answer_request reply_to note_ready
  Once-interaction t value = search (Once-answer, once_steps) depth 40

  -- However many requests of the harness come, and whichever of the answers raise.
  unfoldable pub interactions : TextTools → List Json → Session remote → Session remote
  interactions t [] s = s
  interactions t (value ∷ values) s = interactions t values (interaction remote t value s).1

  -- Over any number of requests of the harness, answered or raised, a follower with at most one
  -- approved plan has at most one approved plan afterwards.
  pub approvals_at_most_one :
      (t : TextTools) (values : List Json) (s : Session remote)
      → approvals s.follow.plan_reviews ≤ 1
      → approvals (interactions t values s).follow.plan_reviews ≤ 1
  unfolding interactions
  approvals_at_most_one t [] s h = h
  approvals_at_most_one t (value ∷ values) s h =
      approvals_at_most_one t values (interaction remote t value s).1
        ((Once-interaction t value).kept s h)
