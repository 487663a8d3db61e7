-- ===== src/HardwareCheck/Plan/Follows.antt =====
-- scripts/hardware-check.py: actions whose cases depend on what they found.
use uart2llm.Prelude.{String, Bool, true, false, List, [], ◌++◌, ◌≡◌, refl, if◌then◌else◌}
use uart2llm.Python.Error.{Result, ok, raise}
use uart2llm.Python.Exec.{Exec, continue, ◌>>=◌}
use uart2llm.HardwareCheck.Quiet.{Quiet}
use uart2llm.HardwareCheck.Bench.{Lab, Bench, Case}
use uart2llm.HardwareCheck.Carries.{Adds, Adds-append, Carries, Carries-Quiet}

module _ (lab : Lab) where
  -- The same of a plan that depends on what the action found.
  pub record Follows {A I : Type 0} (plan : I → List String) (act : Exec (Bench lab) A)
      : Type 0 where
    pub adds :
        (b : Bench lab) (a : A) → (act b).0 ≡ ok a → (i : I) × Adds (plan i) b.cases (act b).1.cases

  pub Follows-fixed :
      {A I : Type 0} (i : I) (f : I → List String) (act : Exec (Bench lab) A)
      → Carries lab (f i) act
      → Follows f act
  Follows-fixed i f act h = record { adds = λ b a e. (i, h.adds b a e) }

  pub Follows-if :
      {A : Type 0} (f : Bool → List String) (c : Bool) (m n : Exec (Bench lab) A)
      → Carries lab (f false) m
      → Carries lab (f true) n
      → Follows f (if c then m else n)
  Follows-if f true m n h g = Follows-fixed false f m h
  Follows-if f false m n h g = Follows-fixed true f n g

  continue-Follows :
      {A B I J : Type 0} (f : I → List String) (g : J → List String) (r : Result A)
      (k : A → Exec (Bench lab) B) (old : List Case) (b : Bench lab) (x : B)
      → ((a : A) → r ≡ ok a → (i : I) × Adds (f i) old b.cases)
      → ((a : A) → Follows g (k a))
      → (continue r k b).0 ≡ ok x
      → (ij : I × J) × Adds (f ij.0 ++ g ij.1) old (continue r k b).1.cases
  continue-Follows f g (raise e) k old b x h later eq = cc
  continue-Follows f g (ok a) k old b x h later eq =
      let (i, added) = h a refl in
      let (j, added') = (later a).adds b x eq in
      ((i, j), Adds-append (f i) (g j) old b.cases (k a b).1.cases added added')

  pub Follows-bind :
      {A B I J : Type 0} (f : I → List String) (g : J → List String) (m : Exec (Bench lab) A)
      (k : A → Exec (Bench lab) B)
      → Follows f m
      → ((a : A) → Follows g (k a))
      → Follows {I = I × J} (λ ij. f ij.0 ++ g ij.1) (m >>= k)
  Follows-bind f g m k h later = record {
    adds = λ b x. continue-Follows f g (m b).0 k b.cases (m b).1 x (h.adds b) later;
  }

  continue_after :
      {A B I : Type 0} (p : List String) (g : I → List String) (r : Result A)
      (k : A → Exec (Bench lab) B) (old : List Case) (b : Bench lab) (x : B)
      → ((a : A) → r ≡ ok a → Adds p old b.cases)
      → ((a : A) → Follows g (k a))
      → (continue r k b).0 ≡ ok x
      → (i : I) × Adds (p ++ g i) old (continue r k b).1.cases
  continue_after p g (raise e) k old b x h later eq = cc
  continue_after p g (ok a) k old b x h later eq =
      let (i, added) = (later a).adds b x eq in
      (i, Adds-append p (g i) old b.cases (k a b).1.cases (h a refl) added)

  pub Follows-after :
      {A B I : Type 0} (p : List String) (g : I → List String) (m : Exec (Bench lab) A)
      (k : A → Exec (Bench lab) B)
      → Carries lab p m
      → ((a : A) → Follows g (k a))
      → Follows (λ i. p ++ g i) (m >>= k)
  Follows-after p g m k h later = record {
    adds = λ b x. continue_after p g (m b).0 k b.cases (m b).1 x (h.adds b) later;
  }

  pub Follows-then :
      {A B I : Type 0} (f : I → List String) (q : List String) (m : Exec (Bench lab) A)
      (k : A → Exec (Bench lab) B)
      → Follows f m
      → ((a : A) → Carries lab q (k a))
      → Follows (λ i. f i ++ q) (m >>= k)
  Follows-then f q m k h later = record {
    adds = λ b x e.
        let (ij, added) =
          (Follows-bind {J = Unit {0}} f (λ j. q) m k h
              (λ a. Follows-fixed tt (λ j. q) (k a) (later a))).adds
            b x e in
        (ij.0, added);
  }

  pub Follows-Quiet :
      {A B I : Type 0} (g : I → List String) (m : Exec (Bench lab) A) (k : A → Exec (Bench lab) B)
      → Quiet lab m
      → ((a : A) → Follows g (k a))
      → Follows g (m >>= k)
  Follows-Quiet g m k h later = Follows-after [] g m k (Carries-Quiet lab m h) later
