-- ===== src/Acceptance/Endpoint/Connections.antt =====
-- No request of the acceptance runner leaves a connection open.
use uart2llm.Prelude.{ℕ, ◌+◌, ◌<◌, ◌≡◌, refl, String, List, [], ◌∷◌, ◌≤◌, arith, All}
use uart2llm.Python.Error.{Result, ok, raise}
use uart2llm.Python.Exec.{Exec, lift, finally, ◌>>=◌}
use uart2llm.Acceptance.Endpoint.{
  Endpoint, add_active, Payload, Response, World, discard, close, request_of, opened_with,
  open_request, exchange,
}

-- Every open connection was opened before.
abbrev pub IsValid : Endpoint → Type 0
IsValid ep = All (λ c. c < ep.opened) ep.active

discard_absent : (c : ℕ) (ds : List ℕ) → All (λ d. d < c) ds → discard c ds ≡ ds
unfolding discard
discard_absent c [] h = refl
discard_absent c (d ∷ ds) (now, later) = ground (arith, discard_absent c ds later)

discard_new : (c : ℕ) (ds : List ℕ) → All (λ d. d < c) ds → discard c (c ∷ ds) ≡ ds
unfolding discard
discard_new c ds h = ground (arith, discard_absent c ds h)

-- One round trip: a connection is opened and closed again, whatever happens on the way.
pub record RoundTrip (before after : Endpoint) : Type 0 where
  pub active : after.active ≡ before.active
  pub opened : after.opened ≡ before.opened + 1
  pub closed : after.closed ≡ before.opened ∷ before.closed

All-lt : (m n : ℕ) (cs : List ℕ) → m ≤ n → All (λ c. c < m) cs → All (λ c. c < n) cs
All-lt m n [] h all = tt
All-lt m n (c ∷ cs) h (now, later) = (omega arith, All-lt m n cs h later)

module _ (w : World) {A : Type 0} (work : Response → Result A) where
  -- `exchange` once the server's answer is known.
  abbrev answered : Result Response → Exec Endpoint A
  answered r ep =
      (opened_with w ep.opened r >>= λ answer. finally (lift (work answer.1)) (close answer.0))
        (record ep { opened = ep.opened + 1; active = ep.opened ∷ ep.active })

  answered-RoundTrip :
      (r : Result Response) (ep : Endpoint) → IsValid ep → RoundTrip ep (answered r ep).1
  unfolding opened_with close
  answered-RoundTrip (ok response) ep h = record {
    active = discard_new ep.opened ep.active h;
    opened = refl;
    closed = refl;
  }
  answered-RoundTrip (raise e) ep h = record {
    active = discard_new ep.opened ep.active h;
    opened = refl;
    closed = refl;
  }

  -- If every open connection was opened before, then an exchange opens one more connection and
  -- closes it again, whether the server answers, the connection fails, or the reply is refused:
  -- the connections that were open stay open, and no other does.
  pub exchange-RoundTrip :
      (method path : String) (body : Payload) (headers : List (String × String)) (ep : Endpoint)
      → IsValid ep
      → RoundTrip ep (exchange w method path body headers work ep).1
  unfolding exchange open_request
  exchange-RoundTrip method path body headers ep h =
      answered-RoundTrip (w.server (request_of ep method path body headers)) ep h

  pub exchange-IsValid :
      (method path : String) (body : Payload) (headers : List (String × String)) (ep : Endpoint)
      → IsValid ep
      → IsValid (exchange w method path body headers work ep).1
  exchange-IsValid method path body headers ep h =
      let t = exchange-RoundTrip method path body headers ep h in
      rw (t.active, t.opened) (All-lt ep.opened (ep.opened + 1) ep.active (omega arith) h)

  answered-eq :
      (r : Result Response) (ep : Endpoint) → (answered r ep).1 ≡ close ep.opened (add_active ep)
  unfolding opened_with
  answered-eq (ok response) ep = refl
  answered-eq (raise e) ep = refl

  -- An exchange opens a connection and closes it, and does nothing else to the endpoint.
  pub exchange-close :
      (method path : String) (body : Payload) (headers : List (String × String)) (ep : Endpoint)
      → (exchange w method path body headers work ep).1 ≡ close ep.opened (add_active ep)
  unfolding exchange open_request
  exchange-close method path body headers ep =
      answered-eq (w.server (request_of ep method path body headers)) ep
