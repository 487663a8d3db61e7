-- ===== src/HardwareCheck/Carries.antt =====
-- scripts/hardware-check.py: the cases that an action records where it returns.
use uart2llm.Prelude.{
  ℕ, String, List, [], ◌∷◌, ◌++◌, map, append-nil, append_assoc, some, Option, ◌≡◌, refl, sym, ap,
  ◌∙◌, All, ◌-◌,
}
use mathlib.Core.List.{map-append}
use mathlib.Core.Path.{subst}
use uart2llm.Python.Error.{Result, ok, raise}
use uart2llm.Python.Exec.{Exec, continue, ◌>>=◌}
use uart2llm.Python.Json.{Json}
use uart2llm.Redaction.{strict_sanitize}
use uart2llm.HardwareCheck.Quiet.{Quiet}
use uart2llm.HardwareCheck.Bench.{Lab, Bench, Case, check, evidence}

abbrev pub name_of : Case → String
name_of c = c.name

abbrev pub Passed : Case → Type 0
Passed c = (value : Json) × (c.outcome ≡ ok value)

All-append : (xs ys : List Case) → All Passed xs → All Passed ys → All Passed (xs ++ ys)
All-append [] ys a b = b
All-append (x ∷ xs) ys (p, a) b = (p, All-append xs ys a b)

-- The new entries are of cases that passed, named by the plan.
pub record Adds (plan : List String) (old new : List Case) : Type 0 where
  pub entries : List Case
  pub appended : new ≡ old ++ entries
  pub named : map name_of entries ≡ plan
  pub all_passed : All Passed entries

pub Adds-nil : (old new : List Case) → new ≡ old → Adds [] old new
Adds-nil old new p = record {
  entries = [];
  appended = p ∙ sym (append-nil old);
  named = refl;
  all_passed = tt;
}

pub Adds-append :
    (p q : List String) (a b c : List Case) → Adds p a b → Adds q b c → Adds (p ++ q) a c
Adds-append p q a b c m n = record {
  entries = m.entries ++ n.entries;
  appended = n.appended ∙ ap (λ t. t ++ n.entries) m.appended ∙ append_assoc a m.entries n.entries;
  named = rw (map-append name_of m.entries n.entries, m.named, n.named);
  all_passed = All-append m.entries n.entries m.all_passed n.all_passed;
}

module _ (lab : Lab) where
  -- Where the action returns, it has recorded the planned cases, and they passed.
  pub record Carries {A : Type 0} (plan : List String) (act : Exec (Bench lab) A) : Type 0 where
    pub adds : (b : Bench lab) (a : A) → (act b).0 ≡ ok a → Adds plan b.cases (act b).1.cases

  pub Carries-Quiet : {A : Type 0} (act : Exec (Bench lab) A) → Quiet lab act → Carries [] act
  Carries-Quiet act q = record { adds = λ b a h. Adds-nil b.cases (act b).1.cases (q.same b) }

  continue-Adds :
      {A B : Type 0} (p q : List String) (r : Result A) (k : A → Exec (Bench lab) B)
      (old : List Case) (b : Bench lab) (x : B)
      → ((a : A) → r ≡ ok a → Adds p old b.cases)
      → ((a : A) → Carries q (k a))
      → (continue r k b).0 ≡ ok x
      → Adds (p ++ q) old (continue r k b).1.cases
  continue-Adds p q (raise e) k old b x h g eq = cc
  continue-Adds p q (ok a) k old b x h g eq =
      Adds-append p q old b.cases (k a b).1.cases (h a refl) ((g a).adds b x eq)

  pub Carries-bind :
      {A B : Type 0} (p q : List String) (m : Exec (Bench lab) A) (k : A → Exec (Bench lab) B)
      → Carries p m
      → ((a : A) → Carries q (k a))
      → Carries (p ++ q) (m >>= k)
  Carries-bind p q m k h g = record {
    adds = λ b x. continue-Adds p q (m b).0 k b.cases (m b).1 x (h.adds b) g;
  }

  pub Carries-after :
      {A B : Type 0} (q : List String) (m : Exec (Bench lab) A) (k : A → Exec (Bench lab) B)
      → Quiet lab m
      → ((a : A) → Carries q (k a))
      → Carries q (m >>= k)
  Carries-after q m k h g = Carries-bind [] q m k (Carries-Quiet m h) g

  module _ (lower_other : ℕ → List ℕ) where
    check-Adds :
        (r : Result Json) (name : String) (old : List Case) (ms : Option ℕ) (x : Json)
        → r ≡ ok x
        → Adds (name ∷ []) old (
            old
            ++ (record { name = name; outcome = evidence lab lower_other r; milliseconds = ms }
                ∷ []))
    unfolding evidence
    check-Adds (raise e) name old ms x h = cc
    check-Adds (ok v) name old ms x h = record {
      entries = _;
      appended = refl;
      named = refl;
      all_passed = ((strict_sanitize lower_other v, refl), tt);
    }

    pub Carries-check :
        (name : String) (act : Exec (Bench lab) Json)
        → Quiet lab act
        → Carries (name ∷ []) (check lab lower_other name act)
    unfolding check
    Carries-check name act q = record {
      adds = λ b x h.
          subst (λ old. Adds (name ∷ []) old (check lab lower_other name act b).1.cases) (q.same b)
            (check-Adds (act b).0 name (act b).1.cases
              (some (lab.now (act b).1.state - lab.now b.state)) x h);
    }

    pub Carries-case :
        {A : Type 0} (q : List String) (name : String) (act : Exec (Bench lab) Json)
        (k : Json → Exec (Bench lab) A)
        → Quiet lab act
        → ((a : Json) → Carries q (k a))
        → Carries (name ∷ q) (check lab lower_other name act >>= k)
    Carries-case q name act k h g =
        Carries-bind (name ∷ []) q (check lab lower_other name act) k (Carries-check name act h) g

    pub ruleset cases = (Carries-case, Carries-after, Carries-Quiet)
