-- ===== src/OpenCode/Observer/Bounds.antt =====
-- What holds of the observer of scripts/opencode-check.py after any requests.
use uart2llm.Prelude.{
  ℕ, suc, ◌+◌, ◌*◌, ◌≤◌, ◌<◌, ◌≡◌, refl, String, Bool, true, false, Option, none, some, List, [],
  ◌∷◌, ◌++◌, not, ◌&&◌, arith, inl, inr, Bool-cases, length, length-append, All, leb, ltb→lt,
  leb→le, str_eq, if◌then◌else◌,
}
use uart2llm.Prelude.Int.{ℤ, pos, negsuc}
use uart2llm.Python.Error.{Error, value_error, type_error, Result, ok, raise, ◌>>=◌}
use uart2llm.Python.Float.{Float, Arithmetic}
use uart2llm.Python.Json.{Json, equals_str}
use uart2llm.OpenCode.Observer.{
  Post, Item, Observer, reject, bounded_cap, bounded_length, with_payload, requested_cap, new_item,
  note_item, enter, judged, measured, sized, authorized, do_post, leave_request,
}

-- The entries are numbered from n on.
abbrev pub Numbered : ℕ → List Item → Type 0
Numbered n [] = Unit
Numbered n (item ∷ items) = (item.id ≡ n) × Numbered (suc n) items

-- The entry keeps the bounds on size and output.
pub record IsBounded (limit : ℕ) (item : Item) : Type 0 where
  pub cap_positive : 0 < item.output_cap
  pub cap : item.output_cap ≤ limit
  pub size_positive : 0 < item.request_bytes
  pub size : item.request_bytes ≤ 1024 * 1024

pub record IsValid (o : Observer) : Type 0 where
  pub within_limit : length o.requests ≤ o.limit
  pub active : o.active ≤ o.peak
  pub peak : o.peak ≤ length o.requests
  pub numbered : Numbered 1 o.requests
  pub bounded : All (IsBounded o.output_cap) o.requests

Numbered-append :
    (n : ℕ) (items : List Item) (item : Item)
    → Numbered n items
    → item.id ≡ n + length items
    → Numbered n (items ++ (item ∷ []))
Numbered-append n [] item h e = (omega arith, tt)
Numbered-append n (first ∷ items) item (now, later) e =
    (now, Numbered-append (suc n) items item later (omega arith))

All-append_one :
    (P : Item → Type 0) (items : List Item) (item : Item)
    → All P items
    → P item
    → All P (items ++ (item ∷ []))
All-append_one P [] item h p = (p, tt)
All-append_one P (first ∷ items) item (now, later) p = (now, All-append_one P items item later p)

-- A result that raises or has the property.
data Gives {A : Type 0} (P : A → Type 0) : Result A → Type 0 where
  raised : (e : Error) → Gives P (raise e)
  given : (a : A) → P a → Gives P (ok a)

Gives-bind :
    {A B : Type 0} (P : B → Type 0) (m : Result A) (f : A → Result B)
    → ((a : A) → Gives P (f a))
    → Gives P (m >>= f)
unfolding ◌>>=◌
Gives-bind P (ok a) f h = h a
Gives-bind P (raise e) f h = raised e

-- What admission writes into an entry.
record Entry (o : Observer) (size cap : ℕ) (item : Item) : Type 0 where
  numbered : item.id ≡ length o.requests + 1
  capped : item.output_cap ≡ cap
  sized : item.request_bytes ≡ size

new_item-Entry :
    (o : Observer) (size cap : ℕ) (now : Float) (payload : Json)
    → Gives (Entry o size cap) (new_item o size cap now payload)
unfolding new_item
new_item-Entry o size cap now payload = Gives-bind _ _ _ (λ stream. Gives-bind _ _ _ (λ said.
    Gives-bind _ _ _ (λ messages. Gives-bind _ _ _ (λ roles. Gives-bind _ _ _ (λ offered.
      Gives-bind _ _ _ (λ tools. Gives-bind _ _ _ (λ names.
        Gives-bind _ _ _
          (λ results. given _ (record { numbered = refl; capped = refl; sized = refl })))))))))

reject-IsValid :
    (code : ℕ) (reason : String) (o : Observer) → IsValid o → IsValid (reject code reason o).1
unfolding reject
reject-IsValid code reason o v = record {
  within_limit = v.within_limit;
  active = v.active;
  peak = v.peak;
  numbered = v.numbered;
  bounded = v.bounded;
}

note_item-IsValid :
    (o : Observer) (size cap : ℕ) (r : Result Item)
    → IsValid o
    → length o.requests < o.limit
    → (0 < cap) × (cap ≤ o.output_cap)
    → (0 < size) × (size ≤ 1024 * 1024)
    → Gives (Entry o size cap) r
    → IsValid (note_item r o).1
unfolding note_item
note_item-IsValid o size cap (raise e) v room caps sizes g = v
note_item-IsValid o size cap (ok item) v room caps sizes (given _ entry) = record {
  within_limit = omega (arith, length-append o.requests (item ∷ []));
  active = omega arith;
  peak = omega (arith, length-append o.requests (item ∷ []), v.active, v.peak);
  numbered = Numbered-append 1 o.requests item v.numbered (omega (arith, entry.numbered));
  bounded = All-append_one (IsBounded o.output_cap) o.requests item v.bounded (record {
    cap_positive = omega (arith, entry.capped, caps.0);
    cap = omega (arith, entry.capped, caps.1);
    size_positive = omega (arith, entry.sized, sizes.0);
    size = omega (arith, entry.sized, sizes.1);
  });
}

-- A cap or a size that passes is in its range.
abbrev InRange : ℕ → Option ℕ → Type 0
InRange limit none = Unit
InRange limit (some n) = (0 < n) × (n ≤ limit)

InRange-if :
    (n limit : ℕ) (low high : Bool)
    → (low ≡ true → 0 < n)
    → (high ≡ true → n ≤ limit)
    → InRange limit (if low && high then some n else none)
InRange-if n limit true true p q = (p refl, q refl)
InRange-if n limit true false p q = tt
InRange-if n limit false high p q = tt

InRange-bounded_cap : (limit : ℕ) (v : Json) → InRange limit (bounded_cap limit v)
unfolding bounded_cap
InRange-bounded_cap limit (Json.int (pos n)) = InRange-if n limit _ _ (ltb→lt 0 n) (leb→le n limit)
InRange-bounded_cap limit (Json.int (negsuc n)) = tt
InRange-bounded_cap limit Json.null = tt
InRange-bounded_cap limit (Json.bool b) = tt
InRange-bounded_cap limit (Json.float x) = tt
InRange-bounded_cap limit (Json.str s) = tt
InRange-bounded_cap limit (Json.arr vs) = tt
InRange-bounded_cap limit (Json.obj fs) = tt

InRange-bounded_length : (size : ℤ) → InRange (1024 * 1024) (bounded_length size)
unfolding bounded_length
InRange-bounded_length (pos n) =
    InRange-if n (1024 * 1024) _ _ (ltb→lt 0 n) (leb→le n (1024 * 1024))
InRange-bounded_length (negsuc n) = tt

-- The cap that goes on with the payload is in range.
abbrev Requested : ℕ → Option (ℕ × Json) → Type 0
Requested limit none = Unit
Requested limit (some (cap, payload)) = (0 < cap) × (cap ≤ limit)

Requested-with_payload :
    (limit : ℕ) (payload : Json) (cap : Option ℕ)
    → InRange limit cap
    → Requested limit (with_payload payload cap)
unfolding with_payload
Requested-with_payload limit payload none h = tt
Requested-with_payload limit payload (some cap) h = h

Requested-if :
    (limit : ℕ) (other : Bool) (cap : Option (ℕ × Json))
    → Requested limit cap
    → Requested limit (if other then none else cap)
Requested-if limit true cap h = tt
Requested-if limit false cap h = h

requested_cap-Requested :
    (model : String) (limit : ℕ) (payload : Json)
    → Gives (Requested limit) (requested_cap model limit payload)
unfolding requested_cap
requested_cap-Requested model limit payload = Gives-bind _ _ _ (λ other. Gives-bind _ _ _ (λ cap.
    Gives-bind _ _ _ (λ name. given _ (
      Requested-if limit (not (equals_str model name)) _
        (Requested-with_payload limit payload _ (InRange-bounded_cap limit cap))))))

module _ (fl : Arithmetic) (model : String) where
  enter-IsValid :
      (size cap : ℕ) (now : Float) (payload : Json) (o : Observer)
      → IsValid o
      → (0 < cap) × (cap ≤ o.output_cap)
      → (0 < size) × (size ≤ 1024 * 1024)
      → IsValid (enter fl model size cap now payload o).1
  unfolding enter
  enter-IsValid size cap now payload o v caps sizes =
      elim (Bool-cases (leb o.limit (length o.requests))) [
        | inl full ↦ rw full (reject-IsValid _ _ o v)
        | inr room ↦ elim (Bool-cases (fl.less now o.deadline)) [
          | inr late ↦ rw (room, late) (reject-IsValid _ _ o v)
          | inl early ↦
              rw (room, early)
                (note_item-IsValid o size cap _ v (ground (arith, room)) caps sizes
                  (new_item-Entry o size cap now payload))
        ]
      ]

  judged-IsValid :
      (size : ℕ) (now : Float) (r : Result (Option (ℕ × Json))) (o : Observer)
      → IsValid o
      → (0 < size) × (size ≤ 1024 * 1024)
      → Gives (Requested o.output_cap) r
      → IsValid (judged fl model size now r o).1
  unfolding judged
  judged-IsValid size now (ok none) o v sizes g = reject-IsValid _ _ o v
  judged-IsValid size now (ok (some (limit, payload))) o v sizes (given _ caps) =
      enter-IsValid size limit now payload o v caps sizes
  judged-IsValid size now (raise e) o v sizes g =
      elim e as (λ e. IsValid (judged fl model size now (raise e) o).1) [
        | value_error m ↦ reject-IsValid _ _ o v
        | type_error ↦ reject-IsValid _ _ o v
        | _ ↦ v
      ]

  measured-IsValid :
      (post : Post) (now : Float) (n : Option ℕ) (o : Observer)
      → IsValid o
      → InRange (1024 * 1024) n
      → IsValid (measured fl model post now n o).1
  unfolding measured
  measured-IsValid post now none o v h = reject-IsValid _ _ o v
  measured-IsValid post now (some n) o v h =
      judged-IsValid n now _ o v h
        (Gives-bind _ post.payload _ (requested_cap-Requested model o.output_cap))

  sized-IsValid :
      (post : Post) (now : Float) (r : Result ℤ) (o : Observer)
      → IsValid o
      → IsValid (sized fl model post now r o).1
  unfolding sized
  sized-IsValid post now (raise e) o v = v
  sized-IsValid post now (ok size) o v = elim (Bool-cases (str_eq post.transfer_encoding "")) [
    | inr chunked ↦ rw chunked (reject-IsValid _ _ o v)
    | inl plain ↦
        rw plain (measured-IsValid post now (bounded_length size) o v (InRange-bounded_length size))
  ]

  pub do_post-IsValid :
      (post : Post) (now : Float) (o : Observer)
      → IsValid o
      → IsValid (do_post fl model post now o).1
  unfolding do_post
  do_post-IsValid post now o v = elim (Bool-cases (str_eq post.path "/v1/chat/completions")) [
    | inr elsewhere ↦ rw elsewhere (reject-IsValid _ _ o v)
    | inl here ↦ elim (Bool-cases (authorized o.client_token post.authorization)) [
      | inr unknown ↦ rw (here, unknown) (reject-IsValid _ _ o v)
      | inl known ↦ rw (here, known) (sized-IsValid post now post.content_length o v)
    ]
  ]

  -- What happens to the observer: a request comes in, one that was forwarded is over, or the check
  -- moves on to its next phase.
  pub data Step : Observer → Observer → Type 0 where
    posted : (post : Post) (now : Float) (o : Observer) → Step o (do_post fl model post now o).1
    left : (o : Observer) → 0 < o.active → Step o (leave_request o)
    moved : (phase : String) (o : Observer) → Step o (record o { phase = phase })

  pub data Steps : Observer → Observer → Type 0 where
    done : (o : Observer) → Steps o o
    next : {a b c : Observer} → Step a b → Steps b c → Steps a c

  Step-IsValid : (a b : Observer) → Step a b → IsValid a → IsValid b
  unfolding leave_request
  Step-IsValid a b (posted post now _) v = do_post-IsValid post now a v
  Step-IsValid a b (left _ some_active) v = record {
    within_limit = v.within_limit;
    active = omega (arith, v.active);
    peak = v.peak;
    numbered = v.numbered;
    bounded = v.bounded;
  }
  Step-IsValid a b (moved phase _) v = record {
    within_limit = v.within_limit;
    active = v.active;
    peak = v.peak;
    numbered = v.numbered;
    bounded = v.bounded;
  }

  -- Whatever is requested, in whatever order, a valid observer stays valid: its entries are numbered
  -- from 1 and at most as many as the limit, each within the bounds on size and output, and there are
  -- never more requests in flight than the peak, nor a higher peak than entries.
  pub Steps-IsValid : (a b : Observer) → Steps a b → IsValid a → IsValid b
  Steps-IsValid a b (done _) v = v
  Steps-IsValid a b (next {b = o} step steps) v = Steps-IsValid o b steps (Step-IsValid a o step v)
