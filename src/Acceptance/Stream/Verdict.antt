-- ===== src/Acceptance/Stream/Verdict.antt =====
-- `stream_work` of scripts/acceptance.py: which replies it accepts.
use uart2llm.Prelude.{
  ℕ, ◌≤◌, ◌≡◌, ◌≢◌, sym, ap, ◌∙◌, true, Option, arith, length, eq_iff, or-eq-false, not-eq-false,
  ==_iff,
}
use uart2llm.Python.Error.{
  ok, raise, ◌>>=◌, >>=-eq-ok, ok-injective, raise_if, raise-eq-ok, raise_if-eq-ok,
}
use uart2llm.Python.Float.{Float}
use uart2llm.Python.Json.{Json}
use uart2llm.Python.Loop.{Ends}
use uart2llm.Acceptance.Endpoint.{Response, World}
use uart2llm.Acceptance.Stream.{
  StreamState, start, read_stream, check_stream, expected_arguments, stream_reply, finish_stream,
}
use uart2llm.Acceptance.Stream.Lines.{split_lines}
use uart2llm.Acceptance.Stream.Laws.{account, Finished, read_stream_total}

module _ (w : World) (clock : ℕ → Float) where
  -- The tests after the loop.
  pub record Complete (s : StreamState) : Type 0 where
    pub done : s.done ≡ true
    pub content : s.content ≡ "你好，串口"
    pub usage : s.usage ≡ true
    pub extension : s.extension ≡ true
    pub arguments : (v : Json) × (w.loads_text s.arguments ≡ ok v) × (expected_arguments v ≡ true)

  check_stream-Complete :
      (s : StreamState) (r : ℕ × Option Float)
      → check_stream w clock s ≡ ok r
      → Complete s × (r ≡ (s.count, s.first))
  unfolding check_stream ◌>>=◌
  check_stream-Complete s r h =
      let (early, later) = raise-eq-ok _ _ _ h in
      let (undone, other) = or-eq-false _ _ early in
      let (v, loaded, last) = >>=-eq-ok (w.loads_text s.arguments) _ later in
      let (checks, returned) = raise-eq-ok _ _ _ last in
      let (parsed, no_extension) = or-eq-false _ _ checks in
      let (wrong, no_usage) = or-eq-false _ _ parsed in
      (
        record {
          done = not-eq-false _ undone;
          content = (eq_iff _ _).0 (not-eq-false _ other);
          usage = not-eq-false _ no_usage;
          extension = not-eq-false _ no_extension;
          arguments = (v, loaded, not-eq-false _ wrong);
        },
        sym (ok-injective returned),
      )

  -- What an accepted reply has shown.
  pub record Verified (response : Response) (r : ℕ × Option Float) : Type 0 where
    pub status : response.status ≡ 200
    pub whole : r.0 ≡ length response.body.bytes
    pub bounded : r.0 ≤ 65536
    pub final : StreamState
    pub accounted : account w clock (split_lines response.body.bytes) start ≡ ok final
    pub complete : Complete final

  -- A reply that is accepted had status 200 and was read to its end, at most 65536 bytes; the result
  -- counts them, and what its lines make of the loop's variables shows the end marker, the text, the
  -- tool call's arguments, the usage and the extension of the fixture.
  pub stream_reply-Verified :
      (response : Response) (r : ℕ × Option Float)
      → stream_reply w clock response ≡ ok r
      → Verified response r
  unfolding stream_reply finish_stream ◌>>=◌
  stream_reply-Verified response r h =
      let (u, passed, read) = >>=-eq-ok (raise_if _ _) _ h in
      let (wrong, other) = or-eq-false _ _ (raise_if-eq-ok _ _ passed) in
      finished ((==_iff response.status 200).0 (not-eq-false _ wrong)) read
        (read_stream_total w clock response.body)
    where
      finished :
          response.status ≡ 200
          → finish_stream w clock (read_stream w clock response.body) ≡ ok r
          → Ends (Finished w clock response.body.bytes) (read_stream w clock response.body)
          → Verified response r
      finished status h (raise e, ended, q) =
          absurd (raised (sym (ap (finish_stream w clock) ended) ∙ h))
        where
          raised : (raise e) ≢ ok r
          raised p = cc
      finished status h (ok s, ended, q) =
          let (complete, shape) =
            check_stream-Complete s r (sym (ap (finish_stream w clock) ended) ∙ h) in
          record {
            status = status;
            whole = ap (λ p. p.0) shape ∙ q.read;
            bounded = omega (arith, ap (λ p. p.0) shape, q.bounded);
            final = s;
            accounted = q.accounted;
            complete = complete;
          }
