-- ===== src/Acceptance/Stream/Completeness.antt =====
-- `stream_work` of scripts/acceptance.py: every stream that keeps the bounds and shows the fixture's
-- deltas is accepted.
use mathlib.Core.Path.{subst}
use uart2llm.Prelude.{
  ℕ, ◌+◌, ◌≤◌, ◌<◌, ◌≡◌, ◌≢◌, refl, sym, ap, ◌∙◌, true, false, none, some, List, [], ◌∷◌, not, ◌&&◌,
  arith, inl, inr, Bool-cases, length, All, eq_iff, length-append, codes, ltb, ◌==◌, ==_iff,
}
use uart2llm.Python.Error.{Result, ok, ◌>>=◌, >>=-eq-ok}
use uart2llm.Python.Float.{Float}
use uart2llm.Python.Text.{occurs_in}
use uart2llm.Python.Loop.{loop_total, Goes}
use uart2llm.Acceptance.Endpoint.{Body, Response, World}
use uart2llm.Acceptance.Stream.{
  readline, read_line, StreamState, start, take_line, with_line, ends_line, round, read_stream,
  stream_fuel, check_stream, stream_reply, finish_stream,
}
use uart2llm.Acceptance.Stream.Lines.{split_lines, FirstShorter, readline_short}
use uart2llm.Acceptance.Stream.Laws.{
  account, budget, Counts, counted, Counts-take_line, Cuts, readline-Cuts,
}
use uart2llm.Acceptance.Stream.Verdict.{Complete}

-- A body whose connection does not break off gives every line.
read_line_whole :
    (b : Body)
    → b.broken ≡ none
    → read_line 8193 b
      ≡ ok ((readline 8193 b.bytes).0, record b { bytes = (readline 8193 b.bytes).1 })
unfolding read_line
read_line_whole b e =
    elim (Bool-cases
      (ltb (length (readline 8193 b.bytes).0) 8193 && not (ends_line (readline 8193 b.bytes).0))) [
        | inr full ↦ rw full refl
        | inl cut ↦ rw (cut, e) (rw e refl)
      ]

count-eq : (n : ℕ) (s : StreamState) → Counts n (ok s) → s.count ≡ n
count-eq n s (counted _ e) = e

module _ (w : World) (clock : ℕ → Float) (final : StreamState) where
  -- Nothing ahead of the loop stops it.
  record Ready (t : Body × StreamState) : Type 0 where
    unbroken : t.0.broken ≡ none
    short : All (λ line. length line ≤ 8192) (split_lines t.0.bytes)
    fits : t.1.count + length t.0.bytes ≤ 65536
    accounted : account w clock (split_lines t.0.bytes) t.1 ≡ ok final

  abbrev Ended : Result StreamState → Type 0
  Ended r = r ≡ ok final

  -- The line just read, and the lines after it.
  record Ahead (b : Body) (line rest : List ℕ) (s : StreamState) : Type 0 where
    short_line : length line ≤ 8192
    short_rest : All (λ l. length l ≤ 8192) (split_lines rest)
    read : length line + length rest ≡ length b.bytes
    next : StreamState
    taken : take_line w clock line (record s { count = s.count + length line }) ≡ ok next
    counted : next.count ≡ s.count + length line
    accounted : account w clock (split_lines rest) next ≡ ok final

  line-Ahead :
      (b : Body) (line rest : List ℕ) (s : StreamState)
      → Ready (b, s)
      → Cuts w clock b.bytes line rest
      → split_lines b.bytes ≡ line ∷ split_lines rest
      → Ahead b line rest s
  unfolding account
  line-Ahead b line rest s ready cuts first =
      let (line_short, rest_short) = subst (All (λ l. length l ≤ 8192)) first ready.short in
      let (next, taken, later) =
        >>=-eq-ok _ _ (sym (ap (λ lines. account w clock lines s) first) ∙ ready.accounted) in
      record {
        short_line = line_short;
        short_rest = rest_short;
        read = omega (arith, length-append line rest, ap length cuts.joined);
        next = next;
        taken = taken;
        counted = count-eq _ next (
            subst (Counts _) taken
              (Counts-take_line w clock line (record s { count = s.count + length line })));
        accounted = later;
      }

  with_line_again :
      (b : Body) (line rest : List ℕ) (s : StreamState)
      → Ready (b, s)
      → Ahead b line rest s
      → length line ≢ 0
      → Goes Ready Ended
          (budget w clock)
          (budget w clock (b, s))
          (with_line w clock (record b { bytes = rest }) line s)
  unfolding with_line
  with_line_again b line rest s ready ahead some_bytes =
      rw (Goes, short_test, more_test, fits_test, ahead.taken)
        (
          record {
            unbroken = ready.unbroken;
            short = ahead.short_rest;
            fits = omega (arith, ready.fits, ahead.read, ahead.counted);
            accounted = ahead.accounted;
          },
          omega (arith, ready.fits, ahead.read, ahead.counted),
        )
    where
      short_test : ltb 8192 (length line) ≡ false
      short_test = ground (arith, ahead.short_line)

      more_test : (length line == 0) ≡ false
      more_test = ground arith

      fits_test : ltb 65536 (s.count + length line) ≡ false
      fits_test = ground (arith, ready.fits, ahead.read)

  with_line_end :
      (b : Body) (line rest : List ℕ) (s : StreamState)
      → Ready (b, s)
      → Cuts w clock b.bytes line rest
      → length line ≡ 0
      → Goes Ready Ended
          (budget w clock)
          (budget w clock (b, s))
          (with_line w clock (record b { bytes = rest }) line s)
  unfolding with_line account split_lines
  with_line_end b line rest s ready cuts over =
      rw (Goes, short_test, (==_iff _ 0).1 over)
        (sym (ap (λ t. account w clock (split_lines t) s) (cuts.at_end over)) ∙ ready.accounted)
    where
      short_test : ltb 8192 (length line) ≡ false
      short_test = ground arith

  round_again :
      (t : Body × StreamState)
      → Ready t
      → Goes Ready Ended (budget w clock) (budget w clock t) (round w clock t)
  unfolding round
  round_again (b, s) ready =
      rw (Goes, read_line_whole b ready.unbroken)
        (line_read (readline 8193 b.bytes).0 (readline 8193 b.bytes).1
          (readline-Cuts w clock b.bytes) short)
    where
      line_read :
          (line rest : List ℕ)
          → Cuts w clock b.bytes line rest
          → length line < 8193
          → Goes Ready Ended
              (budget w clock)
              (budget w clock (b, s))
              (with_line w clock (record b { bytes = rest }) line s)
      line_read line rest cuts short = elim (Bool-cases (length line == 0)) [
        | inl over ↦ with_line_end b line rest s ready cuts ((==_iff _ 0).0 over)
        | inr more ↦
            with_line_again b line rest s ready
              (line-Ahead b line rest s ready cuts (cuts.first_line short (some_left more)))
              (ground arith)
      ]
        where
          some_left : (length line == 0) ≡ false → b.bytes ≢ []
          some_left more e =
              omega
                (arith, length_positive more, length-append line rest, ap length (cuts.joined ∙ e))
            where
              length_positive : (length line == 0) ≡ false → 1 ≤ length line
              length_positive h = ground arith

      short : length (readline 8193 b.bytes).0 < 8193
      short = readline_short 8192 b.bytes (first_shorter (split_lines b.bytes) ready.short)
        where
          first_shorter :
              (lines : List (List ℕ)) → All (λ l. length l ≤ 8192) lines → FirstShorter 8193 lines
          first_shorter [] all = tt
          first_shorter (line ∷ lines) (now, later) = omega arith

-- A body that does not break off, with lines of at most 8192 bytes and 65536 bytes in all, is read
-- to its end, and the loop's variables are what its lines make of them.
pub read_stream_complete :
    (w : World) (clock : ℕ → Float) (b : Body) (s : StreamState)
    → b.broken ≡ none
    → All (λ line. length line ≤ 8192) (split_lines b.bytes)
    → length b.bytes ≤ 65536
    → account w clock (split_lines b.bytes) start ≡ ok s
    → read_stream w clock b ≡ some (ok s)
unfolding read_stream
read_stream_complete w clock b s unbroken short fits accounted =
    let (r, ended, e) =
      loop_total (Ready w clock s) (Ended w clock s) (budget w clock) (round w clock)
        (round_again w clock s) (stream_fuel w clock) (b, start)
        (record { unbroken = unbroken; short = short; fits = omega arith; accounted = accounted })
        (omega arith) in
    ended ∙ ap some e

check_stream_ok :
    (w : World) (clock : ℕ → Float) (s : StreamState)
    → Complete w clock s
    → check_stream w clock s ≡ ok (s.count, s.first)
unfolding check_stream ◌>>=◌
check_stream_ok w clock s shown =
    let (v, loaded, expected) = shown.arguments in
    rw (shown.done, (eq_iff _ _).1 shown.content, loaded, expected, shown.usage, shown.extension)
      refl

-- A reply with status 200 and the right content type is accepted where its body does not break off,
-- keeps the bounds on lines and size, and its lines show the fixture's deltas, usage and extension:
-- the result is the number of bytes read and the time of the first data line.
pub stream_reply_accepts :
    (w : World) (clock : ℕ → Float) (response : Response) (s : StreamState)
    → response.status ≡ 200
    → occurs_in (codes "text/event-stream") (codes response.content_type) ≡ true
    → response.body.broken ≡ none
    → All (λ line. length line ≤ 8192) (split_lines response.body.bytes)
    → length response.body.bytes ≤ 65536
    → account w clock (split_lines response.body.bytes) start ≡ ok s
    → Complete w clock s
    → stream_reply w clock response ≡ ok (s.count, s.first)
unfolding stream_reply finish_stream ◌>>=◌
stream_reply_accepts w clock response s status content unbroken short fits accounted shown =
    rw
      (
        (==_iff _ 200).1 status,
        content,
        read_stream_complete w clock response.body s unbroken short fits accounted,
      )
      (check_stream_ok w clock s shown)
