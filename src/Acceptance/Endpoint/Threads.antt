-- ===== src/Acceptance/Endpoint/Threads.antt =====
-- The connections of scripts/acceptance.py under the threads that overlap: `open` and `close` hold the
-- lock only while they change `active`, so that the steps of the workers and of `abort` interleave.
use uart2llm.Prelude.{
  ℕ, ◌<◌, ◌≡◌, refl, sym, String, true, false, List, [], ◌∷◌, ◌==◌, any, arith, inl, inr,
  Bool-cases, All,
}
use mathlib.Core.Path.{subst}
use uart2llm.Python.Error.{Result}
use uart2llm.Acceptance.Endpoint.{
  Endpoint, Payload, Response, World, add_active, discard, close, close_all, abort, exchange,
}
use uart2llm.Acceptance.Endpoint.Connections.{exchange-close}

-- The endpoint, and the connections that a worker has opened and not closed yet.
pub record Threads : Type 0 where
  pub endpoint : Endpoint
  pub held : List ℕ

abbrev pub opened_by : Threads → Threads
opened_by t = record { endpoint = add_active t.endpoint; held = t.endpoint.opened ∷ t.held }

abbrev pub closed_by : ℕ → Threads → Threads
closed_by conn t = record { endpoint = close conn t.endpoint; held = discard conn t.held }

abbrev pub aborted_by : ℕ → Threads → Threads
aborted_by conn t = record t { endpoint = close conn t.endpoint }

-- A step of some thread: a worker opens a connection, a worker closes the one that it has, after its
-- work or where the request failed, or `abort` closes one from under its worker.
pub data Step : Threads → Threads → Type 0 where
  opens : (t : Threads) → Step t (opened_by t)
  closes : (conn : ℕ) (t : Threads) → Step t (closed_by conn t)
  aborts : (conn : ℕ) (t : Threads) → Step t (aborted_by conn t)

pub data Steps : Threads → Threads → Type 0 where
  done : (t : Threads) → Steps t t
  next : {t u v : Threads} → Step t u → Steps u v → Steps t v

-- Each of the connections is among the others.
abbrev AllIn : List ℕ → List ℕ → Type 0
AllIn cs ds = All (λ d. any (λ c. d == c) cs ≡ true) ds

AllIn-cons : (c : ℕ) (cs ds : List ℕ) → AllIn cs ds → AllIn (c ∷ cs) ds
AllIn-cons c cs [] h = tt
AllIn-cons c cs (d ∷ ds) (now, later) = (ground arith, AllIn-cons c cs ds later)

AllIn-discard_left : (c : ℕ) (cs ds : List ℕ) → AllIn cs ds → AllIn cs (discard c ds)
unfolding discard
AllIn-discard_left c cs [] h = tt
AllIn-discard_left c cs (d ∷ ds) (now, later) = elim (Bool-cases (c == d)) [
  | inl same ↦ rw same (AllIn-discard_left c cs ds later)
  | inr other ↦ rw other (now, AllIn-discard_left c cs ds later)
]

still_in :
    (c d : ℕ) (cs : List ℕ)
    → (c == d) ≡ false
    → any (λ x. d == x) cs ≡ true
    → any (λ x. d == x) (discard c cs) ≡ true
unfolding discard
still_in c d [] e h = h
still_in c d (x ∷ cs) e h = elim (Bool-cases (c == x)) [
  | inl same ↦ rw same (still_in c d cs e (ground arith))
  | inr other ↦ rw other (elim (Bool-cases (d == x)) [
    | inl found ↦ rw found refl
    | inr not_here ↦ rw not_here (still_in c d cs e (rw not_here at h))
  ])
]

AllIn-discard : (c : ℕ) (cs ds : List ℕ) → AllIn cs ds → AllIn (discard c cs) (discard c ds)
unfolding discard
AllIn-discard c cs [] h = tt
AllIn-discard c cs (d ∷ ds) (now, later) = elim (Bool-cases (c == d)) [
  | inl same ↦ rw same (AllIn-discard c cs ds later)
  | inr other ↦ rw other (still_in c d cs other now, AllIn-discard c cs ds later)
]

AllIn-nil : (ds : List ℕ) → AllIn [] ds → ds ≡ []
AllIn-nil [] h = refl
AllIn-nil (d ∷ ds) (now, later) = cc

-- Every open connection is one that a worker still has to close.
abbrev pub AreHeld : Threads → Type 0
AreHeld t = AllIn t.held t.endpoint.active

Step-AreHeld : {t u : Threads} → Step t u → AreHeld t → AreHeld u
unfolding close
Step-AreHeld (opens t) h = (ground arith, AllIn-cons t.endpoint.opened t.held t.endpoint.active h)
Step-AreHeld (closes c t) h = AllIn-discard c t.held t.endpoint.active h
Step-AreHeld (aborts c t) h = AllIn-discard_left c t.held t.endpoint.active h

Steps-kept : {t u : Threads} → Steps t u → AreHeld t → AreHeld u
Steps-kept (done t) h = h
Steps-kept (next s later) h = Steps-kept later (Step-AreHeld s h)

-- If every open connection is one that a worker still has to close, then that is so after any steps of
-- the workers and of `abort`, in any order, and where no worker has a connection left, none is open.
pub Steps-AreHeld :
    {t u : Threads} → Steps t u → AreHeld t → AreHeld u × (u.held ≡ [] → u.endpoint.active ≡ [])
Steps-AreHeld {u = u} steps h =
    let kept = Steps-kept steps h in (kept, λ e. AllIn-nil u.endpoint.active (rw e at kept))

-- The connection is not open, and no connection that is opened later has its number.
abbrev pub Gone : ℕ → Threads → Type 0
Gone c t = (any (λ d. c == d) t.endpoint.active ≡ false) × (c < t.endpoint.opened)

-- The loop of `abort` over the connections that it found open, in the order of the list, with any steps
-- of the other threads before, between and after its own.
pub data AbortRun : List ℕ → Threads → Threads → Type 0 where
  ended : {t u : Threads} → Steps t u → AbortRun [] t u
  aborting :
      {conn : ℕ} {rest : List ℕ} {t u v : Threads}
      → Steps t u
      → AbortRun rest (aborted_by conn u) v
      → AbortRun (conn ∷ rest) t v

-- `abort`, where no other thread does anything meanwhile.
pub abort-AbortRun :
    (t : Threads) → AbortRun t.endpoint.active t (record t { endpoint = abort t.endpoint })
unfolding abort close_all
abort-AbortRun t = all_closed t.endpoint.active t
  where
    all_closed :
        (cs : List ℕ) (u : Threads)
        → AbortRun cs u (record u { endpoint = close_all cs u.endpoint })
    all_closed [] u = ended (done u)
    all_closed (c ∷ cs) u = aborting (done u) (all_closed cs (aborted_by c u))

-- An exchange, as two steps of its worker.
pub exchange-Steps :
    (w : World) {A : Type 0} (work : Response → Result A) (method path : String) (body : Payload)
    (headers : List (String × String)) (t : Threads)
    → Steps t (record {
      endpoint = (exchange w method path body headers work t.endpoint).1;
      held = discard t.endpoint.opened (t.endpoint.opened ∷ t.held);
    })
exchange-Steps w work method path body headers t =
    subst
      (λ ep.
        Steps t
          (record { endpoint = ep; held = discard t.endpoint.opened (t.endpoint.opened ∷ t.held) }))
      (sym (exchange-close w work method path body headers t.endpoint))
      (next (opens t) (next (closes t.endpoint.opened (opened_by t)) (done _)))
