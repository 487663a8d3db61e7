-- ===== src/OpenCode/Forward/ErrorBody.antt =====
-- scripts/opencode-check.py: which bytes of an error's body the observer keeps.
use mathlib.Core.Path.{subst}
use uart2llm.Prelude.{
  ℕ, zero, suc, ◌-◌, ◌≤◌, ◌≡◌, refl, sym, ap, ◌∙◌, arith, String, Bool, true, false, List, [], ◌∷◌,
  ◌++◌, append-nil, not, ◌&&◌, ltb, ltb-false, ◌==◌, length, take, if◌then◌else◌,
}
use uart2llm.Python.Error.{Result, ok, raise}
use uart2llm.Python.Exec.{Exec, lift, continue, ◌>>=◌}
use uart2llm.Python.Json.{Json}
use uart2llm.OpenCode.Forward.{
  Response, Reader, Fragments, change, cut, set_fragments, take_fragment, take_fragments,
  take_choice, take_choices, take_event, see_line, see_lines, count_chunk, keep_error, see_chunk,
  forward_chunk, forward_chunks,
}

-- What the handler keeps of the body, with the status and all bytes that it has seen.
abbrev pub body : Response → ℕ × List ℕ × List ℕ
body r = (r.status, r.error_body, r.response_seen)

-- The action leaves them as they are.
record Leaves {A : Type 0} (act : Exec Response A) : Type 0 where
  same : (r : Response) → body (act r).1 ≡ body r

continue-Leaves :
    {A B : Type 0} (o : Result A) (k : A → Exec Response B) (r : Response)
    → ((a : A) → Leaves (k a))
    → body (continue o k r).1 ≡ body r
continue-Leaves (raise e) k r h = refl
continue-Leaves (ok a) k r h = (h a).same r

Leaves-bind :
    {A B : Type 0} (m : Exec Response A) (k : A → Exec Response B)
    → Leaves m
    → ((a : A) → Leaves (k a))
    → Leaves (m >>= k)
Leaves-bind m k h g = record { same = λ r. continue-Leaves (m r).0 k (m r).1 g ∙ h.same r }

Leaves-lift : {A : Type 0} (o : Result A) → Leaves (lift o)
Leaves-lift o = record { same = λ r. refl }

Leaves-change :
    (f : Response → Response) → ((r : Response) → body (f r) ≡ body r) → Leaves (change f)
Leaves-change f h = record { same = h }

Leaves-if :
    {A : Type 0} (c : Bool) (m n : Exec Response A)
    → Leaves m
    → Leaves n
    → Leaves (if c then m else n)
Leaves-if true m n h g = h
Leaves-if false m n h g = g

Leaves-set_fragments :
    (key : String) (more : Fragments → Fragments) → Leaves (set_fragments key more)
unfolding set_fragments
Leaves-set_fragments key more = record { same = λ r. refl }

ruleset leave_steps =
    (Leaves-set_fragments, Leaves-lift, Leaves-if, Leaves-bind, Leaves-change, refl)

Leaves-take_fragment : (reader : Reader) (tool : Json) → Leaves (take_fragment reader tool)
unfolding take_fragment
Leaves-take_fragment reader tool = search leave_steps depth 40

Leaves-take_fragments : (reader : Reader) (tools : List Json) → Leaves (take_fragments reader tools)
unfolding take_fragments
Leaves-take_fragments reader [] = search leave_steps
Leaves-take_fragments reader (tool ∷ tools) =
    Leaves-bind (take_fragment reader tool) (λ u. take_fragments reader tools)
      (Leaves-take_fragment reader tool) (λ u. Leaves-take_fragments reader tools)

Leaves-take_choice : (reader : Reader) (choice : Json) → Leaves (take_choice reader choice)
unfolding take_choice
Leaves-take_choice reader choice = search (Leaves-take_fragments, leave_steps) depth 40

Leaves-take_choices : (reader : Reader) (choices : List Json) → Leaves (take_choices reader choices)
unfolding take_choices
Leaves-take_choices reader [] = search leave_steps
Leaves-take_choices reader (choice ∷ choices) =
    Leaves-bind (take_choice reader choice) (λ u. take_choices reader choices)
      (Leaves-take_choice reader choice) (λ u. Leaves-take_choices reader choices)

Leaves-see_line : (reader : Reader) (line : List ℕ) → Leaves (see_line reader line)
unfolding see_line take_event
Leaves-see_line reader line = search (Leaves-take_choices, leave_steps) depth 40

Leaves-see_lines : (reader : Reader) (lines : List (List ℕ)) → Leaves (see_lines reader lines)
unfolding see_lines
Leaves-see_lines reader [] = search leave_steps
Leaves-see_lines reader (line ∷ lines) =
    Leaves-bind (see_line reader line) (λ u. see_lines reader lines) (Leaves-see_line reader line)
      (λ u. Leaves-see_lines reader lines)

Leaves-see_chunk : (reader : Reader) (chunk : List ℕ) → Leaves (see_chunk reader chunk)
unfolding see_chunk
Leaves-see_chunk reader chunk = record {
  same = λ r.
      let (lines, rest) = cut (r.received ++ chunk) in
      (Leaves-see_lines reader lines).same (record r { received = rest });
}

Leaves-count_chunk : (chunk : List ℕ) → Leaves (count_chunk chunk)
unfolding count_chunk
Leaves-count_chunk chunk = record { same = λ r. refl }

take_more :
    (k : ℕ) (xs ys : List ℕ) → take k (xs ++ ys) ≡ take k xs ++ take (k - length (take k xs)) ys
take_more zero xs ys = refl
take_more (suc k) [] ys = let same : suc k ≡ suc k - 0 = omega arith in ap (λ n. take n ys) same
take_more (suc k) (x ∷ xs) ys =
    let same : k - length (take k xs) ≡ suc k - suc (length (take k xs)) = omega arith in
    ap (λ zs. x ∷ zs) (take_more k xs ys ∙ ap (λ n. take k xs ++ take n ys) same)

-- The body that is kept of an error is the beginning of what was seen.
abbrev pub Begins : Response → Type 0
Begins r = (r.status == 200) ≡ false → r.error_body ≡ take 65536 r.response_seen

with_chunk : List ℕ → Response → Response
unfolding keep_error
with_chunk chunk r = keep_error chunk (record r { response_seen = r.response_seen ++ chunk })

Begins-if :
    (c : Bool) (r r' : Response)
    → (c ≡ true → Begins r)
    → (c ≡ false → Begins r')
    → Begins (if c then r else r')
Begins-if true r r' h g = h refl
Begins-if false r r' h g = g refl

kept_more :
    (kept seen chunk : List ℕ)
    → kept ≡ take 65536 seen
    → kept ++ take (65536 - length kept) chunk ≡ take 65536 (seen ++ chunk)
kept_more kept seen chunk h =
    ap (λ ks. ks ++ take (65536 - length ks) chunk) h ∙ sym (take_more 65536 seen chunk)

kept_all :
    (kept seen chunk : List ℕ)
    → kept ≡ take 65536 seen
    → 65536 ≤ length kept
    → kept ≡ take 65536 (seen ++ chunk)
kept_all kept seen chunk h full =
    let none_left : 0 ≡ 65536 - length kept = omega arith in
    sym (append-nil kept) ∙ ap (λ n. kept ++ take n chunk) none_left ∙ kept_more kept seen chunk h

full_error : (a : Bool) (n : ℕ) → (not a && ltb n 65536) ≡ false → a ≡ false → 65536 ≤ n
full_error true n h e = cc
full_error false n h e = ltb-false n 65536 h

with_chunk-Begins : (chunk : List ℕ) (r : Response) → Begins r → Begins (with_chunk chunk r)
unfolding with_chunk keep_error
with_chunk-Begins chunk r h =
    Begins-if (not (r.status == 200) && ltb (length r.error_body) 65536) _ _
      (λ c p. kept_more r.error_body r.response_seen chunk (h p))
      (λ c p.
        kept_all r.error_body r.response_seen chunk (h p)
          (full_error (r.status == 200) (length r.error_body) c p))

-- An action that keeps this.
record Preserves {A : Type 0} (act : Exec Response A) : Type 0 where
  kept : (r : Response) → Begins r → Begins (act r).1

continue-Preserves :
    {A B : Type 0} (o : Result A) (k : A → Exec Response B) (r : Response)
    → ((a : A) → Preserves (k a))
    → Begins r
    → Begins (continue o k r).1
continue-Preserves (raise e) k r h i = i
continue-Preserves (ok a) k r h i = (h a).kept r i

Preserves-bind :
    {A B : Type 0} (m : Exec Response A) (k : A → Exec Response B)
    → Preserves m
    → ((a : A) → Preserves (k a))
    → Preserves (m >>= k)
Preserves-bind m k h g = record {
  kept = λ r i. continue-Preserves (m r).0 k (m r).1 g (h.kept r i);
}

BeginsOf : ℕ × List ℕ × List ℕ → Type 0
BeginsOf p = (p.0 == 200) ≡ false → p.1 ≡ take 65536 p.2

Preserves-Leaves : {A : Type 0} (act : Exec Response A) → Leaves act → Preserves act
unfolding BeginsOf
Preserves-Leaves act h = record { kept = λ r i. subst BeginsOf (sym (h.same r)) i }

Preserves-forward_chunk :
    (reader : Reader) (send : Result (Unit {0})) (chunk : List ℕ)
    → Preserves (forward_chunk reader send chunk)
unfolding forward_chunk with_chunk
Preserves-forward_chunk reader send chunk =
    Preserves-bind (count_chunk chunk) _ (Preserves-Leaves _ (Leaves-count_chunk chunk)) (λ u.
      record {
        kept = λ r i.
            (Preserves-bind (lift send) (λ v. see_chunk reader chunk)
                (Preserves-Leaves (lift send) (Leaves-lift send))
                (λ v. Preserves-Leaves _ (Leaves-see_chunk reader chunk))).kept
              (with_chunk chunk r) (with_chunk-Begins chunk r i);
      })

-- Whatever chunks a response of an error status arrives in, and whether the forwarding of one raises,
-- the body that is kept is exactly the first 65536 bytes of what was seen.
pub forward_chunks-Begins :
    (reader : Reader) (chunks : List (Result (Unit {0}) × List ℕ)) (r : Response)
    → Begins r
    → Begins (forward_chunks reader chunks r).1
unfolding forward_chunks
forward_chunks-Begins reader [] r h = h
forward_chunks-Begins reader ((send, chunk) ∷ chunks) r h =
    continue-Preserves (forward_chunk reader send chunk r).0 (λ u. forward_chunks reader chunks)
      (forward_chunk reader send chunk r).1
      (λ u. record { kept = forward_chunks-Begins reader chunks })
      ((Preserves-forward_chunk reader send chunk).kept r h)
