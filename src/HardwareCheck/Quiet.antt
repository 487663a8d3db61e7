-- ===== src/HardwareCheck/Quiet.antt =====
-- scripts/hardware-check.py: the actions that record no case.
use uart2llm.Prelude.{
  ℕ, zero, suc, ◌+◌, arith, String, Bool, true, false, List, Option, ◌≡◌, refl, ◌∙◌, if◌then◌else◌,
  ltb,
}
use uart2llm.Python.Error.{Result, ok, raise}
use uart2llm.Python.Exec.{Exec, lift, continue, ◌>>=◌}
use uart2llm.Python.Float.{Arithmetic}
use uart2llm.Python.Json.{Json}
use uart2llm.HardwareCheck.Bench.{
  Lab, Bench, PartialSoak, outside, sleep, read_clock, request, get, ready, wait_rounds, wait_ready,
}
use uart2llm.HardwareCheck.Configuration.{
  apply_value, confirm, restart, rollback, automatic, random_name, bad_wifi, restore_pending,
  write_back, restore,
}
use uart2llm.HardwareCheck.Maintenance.{
  upload, interrupted, stay_offline, same_configuration, unconfirmed_candidate, activation,
}
use uart2llm.HardwareCheck.Soak.{
  tasks_snapshot, export_crash, reboot, note_progress, add_sample, load_round, load_rounds,
  load_measured, load,
}

module _ (lab : Lab) where
  -- The action records no case, and leaves the remembered interval alone.
  pub record Quiet {A : Type 0} (act : Exec (Bench lab) A) : Type 0 where
    pub same : (b : Bench lab) → (act b).1.cases ≡ b.cases
    pub kept : (b : Bench lab) → (act b).1.config_restore ≡ b.config_restore

  continue_same :
      {A B X : Type 0} (part : Bench lab → X) (r : Result A) (k : A → Exec (Bench lab) B)
      (b : Bench lab)
      → ((a : A) → part (k a b).1 ≡ part b)
      → part (continue r k b).1 ≡ part b
  continue_same part (raise e) k b h = refl
  continue_same part (ok a) k b h = h a

  pub Quiet-bind :
      {A B : Type 0} (m : Exec (Bench lab) A) (k : A → Exec (Bench lab) B)
      → Quiet m
      → ((a : A) → Quiet (k a))
      → Quiet (m >>= k)
  Quiet-bind m k h g = record {
    same = λ b. continue_same (λ b. b.cases) (m b).0 k (m b).1 (λ a. (g a).same (m b).1) ∙ h.same b;
    kept = λ b.
        continue_same (λ b. b.config_restore) (m b).0 k (m b).1 (λ a. (g a).kept (m b).1)
        ∙ h.kept b;
  }

  pub Quiet-lift : {A : Type 0} (r : Result A) → Quiet (lift r)
  Quiet-lift r = record { same = λ b. refl; kept = λ b. refl }

  pub Quiet-outside :
      {A : Type 0} (act : lab.State → Result A × lab.State) → Quiet (outside lab act)
  unfolding outside
  Quiet-outside act = record { same = λ b. refl; kept = λ b. refl }

  pub Quiet-if :
      {A : Type 0} (c : Bool) (m n : Exec (Bench lab) A)
      → Quiet m
      → Quiet n
      → Quiet (if c then m else n)
  Quiet-if true m n h g = h
  Quiet-if false m n h g = g

  pub Quiet-sleep : (ms : ℕ) → Quiet (sleep lab ms)
  unfolding sleep outside
  Quiet-sleep ms = record { same = λ b. refl; kept = λ b. refl }

  pub Quiet-clock : Quiet (read_clock lab)
  unfolding read_clock outside
  Quiet-clock = record { same = λ b. refl; kept = λ b. refl }

  pub Quiet-request :
      (path method : String) (body : Option Json) (expected : ℕ)
      → Quiet (request lab path method body expected)
  unfolding request outside
  Quiet-request path method body expected = record { same = λ b. refl; kept = λ b. refl }

  pub Quiet-rounds :
      (fuel deadline : ℕ) (test : Json → Result Bool) → Quiet (wait_rounds lab fuel deadline test)
  unfolding wait_rounds request outside
  Quiet-rounds zero deadline test = record { same = λ b. refl; kept = λ b. refl }
  Quiet-rounds (suc fuel) deadline test = record {
    same = λ b.
        let b' : Bench lab = (get lab "/state" b).1 in
        let b2 : Bench lab = record b' { state = lab.pause 500 b'.state } in
        ground (arith, (Quiet-rounds fuel deadline test).same b2);
    kept = λ b.
        let b' : Bench lab = (get lab "/state" b).1 in
        let b2 : Bench lab = record b' { state = lab.pause 500 b'.state } in
        ground (arith, (Quiet-rounds fuel deadline test).kept b2);
  }

  pub Quiet-ready :
      (paired : Bool) (old : Json) (predicate : Json → Result Bool)
      → Quiet (wait_ready lab paired old predicate)
  unfolding wait_ready
  Quiet-ready paired old predicate = record {
    same = λ b. (Quiet-rounds 71 (lab.now b.state + 35000) (ready lab paired old predicate)).same b;
    kept = λ b. (Quiet-rounds 71 (lab.now b.state + 35000) (ready lab paired old predicate)).kept b;
  }

  pub ruleset quiet_steps = (
    Quiet-lift, Quiet-outside, Quiet-sleep, Quiet-clock, Quiet-request, Quiet-ready, Quiet-if,
    Quiet-bind,
  )

  pub Quiet-confirm : (value : Json) → Quiet (confirm lab value)
  unfolding confirm apply_value
  Quiet-confirm value = search quiet_steps depth 24

  pub Quiet-restart : (target : Json) → Quiet (restart lab target)
  unfolding restart
  Quiet-restart target = search quiet_steps depth 24

  pub Quiet-rollback : (target : ℕ) → Quiet (rollback lab target)
  unfolding rollback apply_value
  Quiet-rollback target = search quiet_steps depth 24

  pub Quiet-automatic : (target : ℕ) → Quiet (automatic lab target)
  unfolding automatic apply_value
  Quiet-automatic target = search quiet_steps depth 24

  pub Quiet-wifi : Quiet (bad_wifi lab)
  unfolding bad_wifi random_name
  Quiet-wifi = search quiet_steps depth 24

  pub Quiet-restore : (original : Json) → Quiet (restore lab original)
  unfolding restore restore_pending write_back
  Quiet-restore original = search quiet_steps depth 24

  pub Quiet-upload :
      (bytes : List ℕ) (timeout expected : ℕ) → Quiet (upload lab bytes timeout expected)
  unfolding upload
  Quiet-upload bytes timeout expected = search quiet_steps depth 24

  pub Quiet-interrupted : (image : List ℕ) → Quiet (interrupted lab image)
  unfolding interrupted
  Quiet-interrupted image = search quiet_steps depth 24

  pub Quiet-offline : (n : ℕ) → Quiet (stay_offline lab n)
  unfolding stay_offline
  Quiet-offline zero = search quiet_steps depth 24
  Quiet-offline (suc n) =
      Quiet-bind (sleep lab 20000) (λ u. stay_offline lab n) (Quiet-sleep 20000)
        (λ u. Quiet-offline n)

  pub Quiet-candidate :
      (original old_session old_slot : Json)
      → Quiet (unconfirmed_candidate lab original old_session old_slot)
  unfolding unconfirmed_candidate same_configuration
  Quiet-candidate original old_session old_slot = search (Quiet-offline, quiet_steps) depth 24

  pub Quiet-activation :
      (original old_session old_slot : Json) → Quiet (activation lab original old_session old_slot)
  unfolding activation same_configuration
  Quiet-activation original old_session old_slot = search quiet_steps depth 24

  pub Quiet-tasks : Quiet (tasks_snapshot lab)
  unfolding tasks_snapshot
  Quiet-tasks = search quiet_steps depth 24

  pub Quiet-export : Quiet (export_crash lab)
  unfolding export_crash
  Quiet-export = search quiet_steps depth 24

  pub Quiet-reboot : (fl : Arithmetic) → Quiet (reboot lab fl)
  unfolding reboot
  Quiet-reboot fl = search quiet_steps depth 24

  pub Quiet-progress : (progress : Option PartialSoak) → Quiet (note_progress lab progress)
  unfolding note_progress
  Quiet-progress progress = record { same = λ b. refl; kept = λ b. refl }

  pub Quiet-round :
      (fl : Arithmetic) (own : Json) (start : ℕ) (progress : PartialSoak)
      → Quiet (load_round lab fl own start progress)
  unfolding load_round add_sample
  Quiet-round fl own start progress = search (Quiet-progress, quiet_steps) depth 24

  same_if :
      {A X : Type 0} (part : Bench lab → X) (c : Bool) (x y : Result A × Bench lab) {old : X}
      → part x.1 ≡ old
      → part y.1 ≡ old
      → part (if c then x else y).1 ≡ old
  same_if part true x y h g = h
  same_if part false x y h g = g

  after_round :
      {X : Type 0} (part : Bench lab → X) (r : Result PartialSoak) (b' : Bench lab) (old : X)
      (k : PartialSoak → Exec (Bench lab) PartialSoak)
      → part b' ≡ old
      → ((next : PartialSoak) → part (k next b').1 ≡ old)
      → part
          (elim r as (λ x. Result PartialSoak × Bench lab) [
            | raise e ↦ (raise e, b')
            | ok next ↦ k next b'
          ]).1
        ≡ old
  after_round part (raise e) b' old k h g = h
  after_round part (ok next) b' old k h g = g next

  pub Quiet-load :
      (fuel : ℕ) (fl : Arithmetic) (own : Json) (start deadline : ℕ) (progress : PartialSoak)
      → Quiet (load_rounds lab fuel fl own start deadline progress)
  unfolding load_rounds
  Quiet-load zero fl own start deadline progress = record { same = λ b. refl; kept = λ b. refl }
  Quiet-load (suc fuel) fl own start deadline progress = record {
    same = λ b.
        loaded b (λ c. c.cases) ((Quiet-round fl own start progress).same b)
          (λ next. (Quiet-load fuel fl own start deadline next).same);
    kept = λ b.
        loaded b (λ c. c.config_restore) ((Quiet-round fl own start progress).kept b)
          (λ next. (Quiet-load fuel fl own start deadline next).kept);
  }
    where
      loaded :
          {X : Type 0} (b : Bench lab) (part : Bench lab → X)
          → part (load_round lab fl own start progress b).1 ≡ part b
          → ((next : PartialSoak) (c : Bench lab)
              → part (load_rounds lab fuel fl own start deadline next c).1 ≡ part c)
          → part (load_rounds lab (suc fuel) fl own start deadline progress b).1 ≡ part b
      loaded b part one more =
          let b' : Bench lab = (load_round lab fl own start progress b).1 in
          same_if part (ltb (lab.now b.state) deadline) _ _
            (after_round part (load_round lab fl own start progress b).0 b' (part b)
              (λ next. load_rounds lab fuel fl own start deadline next) one
              (λ next. more next b' ∙ one))
            refl

  pub Quiet-soak : (fl : Arithmetic) (duration : ℕ) → Quiet (load lab fl duration)
  unfolding load load_measured
  Quiet-soak fl duration = search (Quiet-progress, Quiet-load, quiet_steps) depth 24
