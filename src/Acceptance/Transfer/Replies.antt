-- ===== src/Acceptance/Transfer/Replies.antt =====
-- `Endpoint.json` and `upload_work` of scripts/acceptance.py: which replies they accept.
use uart2llm.Prelude.{
  ℕ, zero, suc, ◌+◌, ◌≤◌, ◌<◌, ◌≡◌, ◌≢◌, refl, sym, ap, ◌∙◌, String, true, false, Option, none,
  List, [], ◌∷◌, arith, inl, inr, length, take, ltb, ==_iff, or-eq-false, not-eq-false, ltb-false,
}
use uart2llm.Python.Error.{Error, ok, raise, >>=-eq-ok, ok-injective, raise_if, raise_if-eq-ok}
use uart2llm.Python.Float.{Float}
use uart2llm.Python.Json
use uart2llm.Python.Json.{Json, null, equals_ℕ, equals_str}
use uart2llm.Acceptance.Endpoint.{json_limit, Body, Response, World, read_body}
use uart2llm.Acceptance.Transfer.{json_reply, upload_reply}
use uart2llm.Acceptance.Transfer.Download.{read_body-cases}

take_short : (n : ℕ) (xs : List ℕ) → length (take n xs) < n → take n xs ≡ xs
take_short zero xs h = elim h [ ]
take_short (suc n) [] h = refl
take_short (suc n) (x ∷ xs) h = ap (λ t. x ∷ t) (take_short n xs (omega arith))

-- A read that stays within the limit has read the whole body.
read_whole :
    (response : Response) (got : List ℕ × Body)
    → read_body (json_limit + 1) response.body ≡ ok got
    → ltb json_limit (length got.0) ≡ false
    → (got.0 ≡ response.body.bytes) × (length response.body.bytes ≤ json_limit)
read_whole response got read fits = elim (read_body-cases (json_limit + 1) response.body) [
  | inr (e, raised, broken) ↦ absurd (failed e raised)
  | inl whole ↦
      let same : take (json_limit + 1) response.body.bytes ≡ got.0 =
        ap (λ p. p.0) (ok-injective (sym whole ∙ read)) in
      let short : length (take (json_limit + 1) response.body.bytes) < json_limit + 1 =
        omega (arith, ap length same, ltb-false json_limit (length got.0) fits) in
      let all = take_short (json_limit + 1) response.body.bytes short in
      (sym same ∙ all, omega (arith, ap length all, short))
]
  where
    failed : (e : Error) → read_body (json_limit + 1) response.body ≢ raise e
    failed e raised = cc

-- A reply that `Endpoint.json` accepts had status 200 and at most the limit of bytes, and its value is
-- what all of them say.
pub json_reply_accepted :
    (w : World) (response : Response) (v : Json)
    → json_reply w response ≡ ok v
    → (response.status ≡ 200)
      × (length response.body.bytes ≤ json_limit)
      × (w.loads response.body.bytes ≡ ok v)
unfolding json_reply
json_reply_accepted w response v h =
    let (u, passed, read) = >>=-eq-ok (raise_if _ _) _ h in
    let (got, answered, fits) = >>=-eq-ok _ _ read in
    let (u', small, loaded) = >>=-eq-ok (raise_if _ _) _ fits in
    let (same, bounded) = read_whole response got answered (raise_if-eq-ok _ _ small) in
    (
      (==_iff response.status 200).0 (not-eq-false _ (raise_if-eq-ok _ _ passed)),
      bounded,
      ap w.loads (sym same) ∙ loaded,
    )

-- What the reply to an upload must show.
pub record Stored (w : World) (size : ℕ) (expected : String) (response : Response) : Type 0 where
  pub status : response.status ≡ 200
  pub bounded : length response.body.bytes ≤ json_limit
  pub value : Json
  pub loaded : w.loads response.body.bytes ≡ ok value
  pub count : Json
  pub counted : Json.get "bytes" null value ≡ ok count
  pub size_reported : equals_ℕ size count ≡ true
  pub digest : Json
  pub digested : Json.get "sha256" null value ≡ ok digest
  pub digest_reported : equals_str expected digest ≡ true

-- An upload that is accepted was answered with status 200 and a value, no larger than the limit,
-- that reports the size of the file and its digest; the result is that size.
pub upload_reply_accepted :
    (w : World) (size : ℕ) (expected : String) (response : Response) (r : ℕ × Option Float)
    → upload_reply w size expected response ≡ ok r
    → Stored w size expected response × (r ≡ (size, none))
unfolding upload_reply
upload_reply_accepted w size expected response r h =
    let (got, answered, read) = >>=-eq-ok _ _ h in
    let (u, passed, body) = >>=-eq-ok (raise_if _ _) _ read in
    let (wrong, large) = or-eq-false _ _ (raise_if-eq-ok _ _ passed) in
    let (same, bounded) = read_whole response got answered large in
    let (value, loaded, fields) = >>=-eq-ok _ _ body in
    let (count, counted, more) = >>=-eq-ok _ _ fields in
    let (digest, digested, checks) = >>=-eq-ok _ _ more in
    let (u', matched, returned) = >>=-eq-ok (raise_if _ _) _ checks in
    let (wrong_size, wrong_digest) = or-eq-false _ _ (raise_if-eq-ok _ _ matched) in
    (
      record {
        status = (==_iff response.status 200).0 (not-eq-false _ wrong);
        bounded = bounded;
        value = value;
        loaded = ap w.loads (sym same) ∙ loaded;
        count = count;
        counted = counted;
        size_reported = not-eq-false _ wrong_size;
        digest = digest;
        digested = digested;
        digest_reported = not-eq-false _ wrong_digest;
      },
      sym (ok-injective returned),
    )
