-- ===== src/Acceptance/Stream/Laws.antt =====
-- `stream_work` of scripts/acceptance.py: its loop ends on every body, stays within its bounds,
-- and what it has gathered is what all lines of the body say.
use uart2llm.Prelude.{
  ℕ, ◌+◌, ◌-◌, ◌≤◌, ◌<◌, ◌≡◌, ◌≢◌, refl, sym, ap, ◌∙◌, List, [], ◌∷◌, ◌++◌, not, ◌&&◌, arith, ◌⊎◌,
  inl, inr, Bool-cases, Option-cases, length, length-append, codes, drop, ltb, ◌==◌, ==_iff,
}
use uart2llm.Python.Error.{Error, Result, ok, raise, ◌>>=◌}
use uart2llm.Python.Float.{Float}
use uart2llm.Python.Json.{Json}
use uart2llm.Python.Text.{starts_with, equal, strip}
use uart2llm.Python.Loop.{again, leave, loop_total, Goes, Ends}
use uart2llm.Acceptance.Endpoint.{Body, World}
use uart2llm.Acceptance.Stream.{
  add_tools, add_choices, readline, read_line, StreamState, start, take_line, add_event, ends_line,
  with_line, round, read_stream, stream_fuel,
}
use uart2llm.Acceptance.Stream.Lines.{
  split_lines, readline-append, readline_progress, split_lines-readline,
}

-- A step that leaves `count` at n, or raises.
pub data Counts (n : ℕ) : Result StreamState → Type 0 where
  raised : (e : Error) → Counts n (raise e)
  counted : (s : StreamState) → s.count ≡ n → Counts n (ok s)

Counts-bind :
    {A : Type 0} (n : ℕ) (m : Result A) (f : A → Result StreamState)
    → ((a : A) → Counts n (f a))
    → Counts n (m >>= f)
unfolding ◌>>=◌
Counts-bind n (ok a) f h = h a
Counts-bind n (raise e) f h = raised e

Counts-then :
    (n : ℕ) (m : Result StreamState) (f : StreamState → Result StreamState)
    → Counts n m
    → ((s : StreamState) → s.count ≡ n → Counts n (f s))
    → Counts n (m >>= f)
unfolding ◌>>=◌
Counts-then n (ok s) f (counted _ e) h = h s e
Counts-then n (raise e) f c h = raised e

Counts-add_tools :
    (tools : List Json) (s : StreamState) (n : ℕ) → s.count ≡ n → Counts n (add_tools tools s)
unfolding add_tools
Counts-add_tools [] s n e = counted s e
Counts-add_tools (tool ∷ rest) s n e = Counts-bind n _ _ (λ function. Counts-bind n _ _ (λ piece.
    Counts-bind n _ _
      (λ arguments. Counts-add_tools rest (record s { arguments = arguments }) n e)))

Counts-add_choices :
    (choices : List Json) (s : StreamState) (n : ℕ) → s.count ≡ n → Counts n (add_choices choices s)
unfolding add_choices
Counts-add_choices [] s n e = counted s e
Counts-add_choices (choice ∷ rest) s n e = Counts-bind n _ _ (λ delta. Counts-bind n _ _ (λ piece.
    Counts-bind n _ _ (λ content. Counts-bind n _ _ (λ calls. Counts-bind n _ _ (λ tools.
      Counts-then n _ _ (Counts-add_tools tools (record s { content = content }) n e)
        (λ s' e'. Counts-add_choices rest s' n e'))))))

Counts-add_event : (event : Json) (s : StreamState) → Counts s.count (add_event event s)
unfolding add_event
Counts-add_event event s = Counts-bind s.count _ _ (λ usage. Counts-bind s.count _ _ (λ total.
    Counts-bind s.count _ _ (λ extension. Counts-bind s.count _ _ (λ preserved.
      Counts-bind s.count _ _ (λ listed.
        Counts-bind s.count _ _ (λ choices. Counts-add_choices choices _ s.count refl))))))

module _ (w : World) (clock : ℕ → Float) where
  -- The account of a whole stream: every line in turn, with no bound on anything.
  unfoldable pub account : List (List ℕ) → StreamState → Result StreamState
  account [] s = ok s
  account (line ∷ lines) s = do
    s' ← take_line w clock line (record s { count = s.count + length line })
    account lines s'

  -- What the loop keeps, for a body that held the given bytes.
  pub record Keeps (whole : List ℕ) (t : Body × StreamState) : Type 0 where
    pub read : t.1.count + length t.0.bytes ≡ length whole
    pub bounded : t.1.count ≤ 65536
    pub accounted : account (split_lines t.0.bytes) t.1 ≡ account (split_lines whole) start

  -- What a stream that was read to its end has shown.
  pub record Accounted (whole : List ℕ) (s : StreamState) : Type 0 where
    pub read : s.count ≡ length whole
    pub bounded : s.count ≤ 65536
    pub accounted : account (split_lines whole) start ≡ ok s

  abbrev pub Finished : List ℕ → Result StreamState → Type 0
  Finished whole (ok s) = Accounted whole s
  Finished whole (raise e) = Unit

  -- How much may still be read.
  abbrev pub budget : Body × StreamState → ℕ
  budget (b, s) = 65537 - s.count

  pub Counts-take_line :
      (line : List ℕ) (s : StreamState) → Counts s.count (take_line w clock line s)
  unfolding take_line
  Counts-take_line line s = elim (Bool-cases (starts_with (codes "data: ") line)) [
    | inr e ↦ rw e (counted s refl)
    | inl e ↦ elim (Bool-cases (equal (strip (drop 6 line)) (codes "[DONE]"))) [
      | inl d ↦ rw (e, d) (counted _ refl)
      | inr d ↦ elim (Bool-cases s.done) [
        | inl f ↦ rw (e, d, f) (raised _)
        | inr f ↦
            rw (e, d, f)
              (Counts-bind s.count _ _
                (λ text. Counts-bind s.count _ _ (λ event. Counts-add_event event _)))
      ]
    ]
  ]

  -- What `readline` says of a line and the rest of the body.
  pub record Cuts (bytes line rest : List ℕ) : Type 0 where
    pub joined : line ++ rest ≡ bytes
    pub at_end : length line ≡ 0 → bytes ≡ []
    pub first_line : length line < 8193 → bytes ≢ [] → split_lines bytes ≡ line ∷ split_lines rest

  pub readline-Cuts : (bytes : List ℕ) → Cuts bytes (readline 8193 bytes).0 (readline 8193 bytes).1
  readline-Cuts bytes = record {
    joined = readline-append 8193 bytes;
    at_end = readline_progress 8192 bytes;
    first_line = split_lines-readline 8193 bytes;
  }

  account_line :
      (line : List ℕ) (lines : List (List ℕ)) (s s' : StreamState)
      → take_line w clock line (record s { count = s.count + length line }) ≡ ok s'
      → account (line ∷ lines) s ≡ account lines s'
  unfolding account ◌>>=◌
  account_line line lines s s' e = rw e

  module _ (whole : List ℕ) where
    taken_line :
        (b rest : Body) (line : List ℕ) (s : StreamState) (r : Result StreamState)
        → Keeps whole (b, s)
        → Cuts b.bytes line rest.bytes
        → length line < 8193
        → length line ≢ 0
        → s.count + length line ≤ 65536
        → take_line w clock line (record s { count = s.count + length line }) ≡ r
        → Counts (s.count + length line) r
        → Goes
            (Keeps whole)
            (Finished whole)
            budget
            (budget (b, s))
            (elim r [ ok s' ↦ again (rest, s') | raise e ↦ leave (raise e) ])
    taken_line b rest line s (raise e) k cuts short some_bytes fits taken c = tt
    taken_line b rest line s (ok s') k cuts short some_bytes fits taken (counted _ c) = (
      record {
        read = omega (arith, k.read, length-append line rest.bytes, ap length cuts.joined);
        bounded = omega arith;
        accounted =
            sym (account_line line (split_lines rest.bytes) s s' taken)
            ∙ ap (λ lines. account lines s) (sym (cuts.first_line short some_left))
            ∙ k.accounted;
      },
      omega arith,
    )
      where
        some_left : b.bytes ≢ []
        some_left e =
            some_bytes (omega (arith, length-append line rest.bytes, ap length (cuts.joined ∙ e)))

    with_line-Goes :
        (b rest : Body) (line : List ℕ) (s : StreamState)
        → Keeps whole (b, s)
        → Cuts b.bytes line rest.bytes
        → Goes (Keeps whole) (Finished whole) budget (budget (b, s)) (with_line w clock rest line s)
    unfolding with_line
    with_line-Goes b rest line s k cuts = elim (Bool-cases (ltb 8192 (length line))) [
      | inl long ↦ rw long tt
      | inr short ↦ elim (Bool-cases (length line == 0)) [
        | inl over ↦ rw (short, over) (at_end (cuts.at_end ((==_iff _ 0).0 over)))
        | inr more ↦ elim (Bool-cases (ltb 65536 (s.count + length line))) [
          | inl large ↦ rw (short, more, large) tt
          | inr fits ↦
              rw (short, more, fits)
                (taken_line b rest line s _ k cuts (ground arith) (ground arith) (ground arith) refl
                  (Counts-take_line line (record s { count = s.count + length line })))
        ]
      ]
    ]
      where
        at_end : b.bytes ≡ [] → Accounted whole s
        at_end e = record {
          read = omega (arith, k.read, ap length e);
          bounded = k.bounded;
          accounted = sym k.accounted ∙ ap (λ t. account (split_lines t) s) e ∙ nothing_left;
        }
          where
            nothing_left : account (split_lines []) s ≡ ok s
            nothing_left = unfold account split_lines in refl

    read_line-cases :
        (b : Body)
        → (read_line 8193 b
            ≡ ok ((readline 8193 b.bytes).0, record b { bytes = (readline 8193 b.bytes).1 }))
          ⊎ ((e : Error) × (read_line 8193 b ≡ raise e))
    unfolding read_line
    read_line-cases b =
        elim (Bool-cases (
          ltb (length (readline 8193 b.bytes).0) 8193
          && not (ends_line (readline 8193 b.bytes).0))) [
            | inr full ↦ rw full (inl refl)
            | inl cut ↦ elim (Option-cases b.broken) [
              | inl whole_body ↦ rw (cut, whole_body) (inl (rw whole_body refl))
              | inr (e, broken) ↦ rw (cut, broken) (inr (e, refl))
            ]
          ]

    round-Goes :
        (t : Body × StreamState)
        → Keeps whole t
        → Goes (Keeps whole) (Finished whole) budget (budget t) (round w clock t)
    unfolding round
    round-Goes (b, s) k = elim (read_line-cases b) [
      | inl read ↦
          rw (Goes, read)
            (with_line-Goes b (record b { bytes = (readline 8193 b.bytes).1 })
              (readline 8193 b.bytes).0 s k (readline-Cuts b.bytes))
      | inr (e, broken) ↦ rw (Goes, broken) tt
    ]

  -- The loop ends on every body: it either raises or has read the whole body, 65536 bytes at most,
  -- and its variables are what the lines of the body, taken one after the other, make of them.
  pub read_stream_total : (b : Body) → Ends (Finished b.bytes) (read_stream w clock b)
  unfolding read_stream
  read_stream_total b =
      loop_total (Keeps b.bytes) (Finished b.bytes) budget (round w clock) (round-Goes b.bytes)
        (stream_fuel w clock) (b, start)
        (record { read = omega arith; bounded = omega arith; accounted = refl }) (omega arith)
