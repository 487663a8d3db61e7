-- ===== src/Acceptance/Transfer/Download.antt =====
-- `download_work` of scripts/acceptance.py: its loop ends on every body, and exactly the file with
-- the expected size and digest is accepted.
use uart2llm.Prelude.{
  ℕ, suc, ◌+◌, ◌-◌, ◌≤◌, ◌<◌, ◌≡◌, ◌≢◌, refl, sym, ap, ◌∙◌, String, true, Option, none, some, List,
  [], ◌∷◌, ◌++◌, arith, ◌⊎◌, inl, inr, Bool-cases, Option-cases, length, take, drop, ltb, ◌==◌,
  ==_iff, str_eq, eq_iff, take-append-drop, length-append, or-eq-false, not-eq-false,
}
use uart2llm.Python.Error.{
  Error, Result, ok, raise, ◌>>=◌, >>=-eq-ok, ok-injective, raise_if, raise_if-eq-ok,
}
use uart2llm.Python.Float.{Float}
use uart2llm.Python.Loop.{loop_total, Goes, Ends}
use uart2llm.Acceptance.Pattern.{chunk, Sha, Streams}
use uart2llm.Acceptance.Endpoint.{Body, Response, World, read_body}
use uart2llm.Acceptance.Transfer.{
  DownloadState, with_block, download_round, download_loop, check_download, download_reply,
}

-- A read gives the bytes up to the limit, or the exception of a connection that broke off.
pub read_body-cases :
    (n : ℕ) (b : Body)
    → (read_body n b ≡ ok (take n b.bytes, record b { bytes = drop n b.bytes }))
      ⊎ ((e : Error) × (read_body n b ≡ raise e) × (b.broken ≢ none))
unfolding read_body
read_body-cases n b = elim (Bool-cases (ltb (length b.bytes) n)) [
  | inr full ↦ rw full (inl refl)
  | inl short ↦ elim (Option-cases b.broken) [
    | inl whole ↦ rw (short, whole) (inl (rw whole refl))
    | inr (e, broken) ↦ rw (short, broken) (inr (e, refl, λ p. cc))
  ]
]

nothing_taken : (n : ℕ) (bytes : List ℕ) → take (suc n) bytes ≡ [] → drop (suc n) bytes ≡ []
nothing_taken n [] p = refl
nothing_taken n (x ∷ xs) p = cc

module _ (w : World) (h : Sha) (streams : Streams h) (size : ℕ) where
  module _ (whole : Body) where
    record Keeps (s : DownloadState w h) : Type 0 where
      broken : s.rest.broken ≡ whole.broken
      read : s.count + length s.rest.bytes ≡ length whole.bytes
      bounded : s.count ≤ size
      digested : h.update s.digest s.rest.bytes ≡ h.update h.start whole.bytes

    -- A body that did not break off is refused only where it is too long.
    pub data Finished : Result (ℕ × h.State) → Type 0 where
      complete :
          (n : ℕ) (d : h.State)
          → n ≡ length whole.bytes
          → n ≤ size
          → d ≡ h.update h.start whole.bytes
          → Finished (ok (n, d))
      refused : (e : Error) → (whole.broken ≡ none → size < length whole.bytes) → Finished (raise e)

    abbrev budget : DownloadState w h → ℕ
    budget s = suc size - s.count

    -- A round in which the read succeeds with the given bytes.
    with_block-Goes :
        (s : DownloadState w h) (block rest : List ℕ)
        → Keeps s
        → block ++ rest ≡ s.rest.bytes
        → (block ≡ [] → rest ≡ [])
        → Goes Keeps Finished budget
            (budget s)
            (with_block w h size s block (record s.rest { bytes = rest }))
    unfolding with_block
    with_block-Goes s [] rest k joined over =
        let at_end : s.rest.bytes ≡ [] = sym joined ∙ over refl in
        complete s.count s.digest (omega (arith, k.read, ap length at_end)) k.bounded
          (sym (streams.update_nil s.digest) ∙ ap (h.update s.digest) (sym at_end) ∙ k.digested)
    with_block-Goes s (x ∷ xs) rest k joined over =
        let counted = length-append (x ∷ xs) rest in
        elim (Bool-cases (ltb size (s.count + length (x ∷ xs)))) [
          | inl large ↦
              rw large (refused _ (λ p. ground (arith, large, k.read, counted, ap length joined)))
          | inr fits ↦ rw fits (
            record {
              broken = k.broken;
              read = omega (arith, k.read, counted, ap length joined);
              bounded = ground (arith, fits);
              digested =
                  streams.update-update s.digest (x ∷ xs) rest
                  ∙ ap (h.update s.digest) joined
                  ∙ k.digested;
            },
            ground (arith, fits),
          )
        ]

    round-Goes :
        (s : DownloadState w h)
        → Keeps s
        → Goes Keeps Finished budget (budget s) (download_round w h size s)
    unfolding download_round
    round-Goes s k = elim (read_body-cases chunk s.rest) [
      | inl read ↦
          rw (Goes, read)
            (with_block-Goes s (take chunk s.rest.bytes) (drop chunk s.rest.bytes) k
              (take-append-drop chunk s.rest.bytes) (over s.rest.bytes))
      | inr (e, raised, broken) ↦
          rw (Goes, raised) (refused e (λ p. absurd (broken (k.broken ∙ p))))
    ]
      where
        over : (bytes : List ℕ) → take 65536 bytes ≡ [] → drop 65536 bytes ≡ []
        over = nothing_taken 65535

  download_loop_total : (b : Body) → Ends (Finished b) (download_loop w h size b)
  unfolding download_loop
  download_loop_total b =
      loop_total (Keeps b) (Finished b) (budget b) (download_round w h size) (round-Goes b)
        (size + 2) (record { rest = b; count = 0; digest = h.start })
        (record { broken = refl; read = omega arith; bounded = omega arith; digested = refl })
        (omega arith)

  -- What the reply must show.
  pub record IsExpected (expected : String) (response : Response) : Type 0 where
    pub status : response.status ≡ 200
    pub whole : length response.body.bytes ≡ size
    pub digest : h.hexdigest (h.update h.start response.body.bytes) ≡ expected

  -- If the digest takes its input piece by piece, then a download that is accepted had status 200 and
  -- brought a file of the expected size and digest.
  pub download_reply_accepted :
      (expected : String) (response : Response) (r : ℕ × Option Float)
      → download_reply w h size expected response ≡ ok r
      → IsExpected expected response × (r ≡ (size, none))
  unfolding download_reply check_download ◌>>=◌
  download_reply_accepted expected response r e =
      let (u, passed, read) = >>=-eq-ok (raise_if _ _) _ e in
      finished ((==_iff response.status 200).0 (not-eq-false _ (raise_if-eq-ok _ _ passed))) read
        (download_loop_total response.body)
    where
      finished :
          response.status ≡ 200
          → check_download w h size expected (download_loop w h size response.body) ≡ ok r
          → Ends (Finished response.body) (download_loop w h size response.body)
          → IsExpected expected response × (r ≡ (size, none))
      finished status e (raise err, ended, q) =
          absurd (raised (sym (ap (check_download w h size expected) ended) ∙ e))
        where
          raised : check_download w h size expected (some (raise err)) ≢ ok r
          raised p = cc
      finished status e (ok (n, d), ended, complete _ _ whole fits digest) =
          let (u, passed, returned) =
            >>=-eq-ok (raise_if _ _) _ (sym (ap (check_download w h size expected) ended) ∙ e) in
          let (wrong_size, wrong_digest) = or-eq-false _ _ (raise_if-eq-ok _ _ passed) in
          let same_size : n ≡ size = (==_iff n size).0 (not-eq-false _ wrong_size) in
          (
            record {
              status = status;
              whole = sym whole ∙ same_size;
              digest = ap h.hexdigest (sym digest) ∙ (eq_iff _ _).0 (not-eq-false _ wrong_digest);
            },
            sym (ok-injective returned) ∙ ap (λ m. (m, none)) same_size,
          )

  -- If the digest takes its input piece by piece, then every file of the expected size and digest that
  -- comes with status 200, on a connection that does not break off, is accepted.
  pub download_reply_accepts :
      (expected : String) (response : Response)
      → response.body.broken ≡ none
      → IsExpected expected response
      → download_reply w h size expected response ≡ ok (size, none)
  unfolding download_reply check_download ◌>>=◌
  download_reply_accepts expected response unbroken file =
      rw ((==_iff response.status 200).1 file.status) (finished (download_loop_total response.body))
    where
      finished :
          Ends (Finished response.body) (download_loop w h size response.body)
          → check_download w h size expected (download_loop w h size response.body)
            ≡ ok (size, none)
      finished (raise err, ended, refused _ too_long) =
          absurd (omega (arith, too_long unbroken, file.whole))
      finished (ok (n, d), ended, complete _ _ whole fits digest) =
          ap (check_download w h size expected) ended
          ∙ accepted ((==_iff n size).1 (whole ∙ file.whole))
              ((eq_iff _ _).1 (ap h.hexdigest digest ∙ file.digest))
        where
          accepted :
              (n == size) ≡ true
              → str_eq (h.hexdigest d) expected ≡ true
              → check_download w h size expected (some (ok (n, d))) ≡ ok (size, none)
          accepted e f = rw (e, f) (ap (λ m. ok (m, none)) ((==_iff n size).0 e))
