-- ===== src/HardwareCheck/Plan/Remembers.antt =====
-- scripts/hardware-check.py: what the phases leave in `config_restore`.
use Prim.Native.String.{◌++◌ as ◌<>◌}
use uart2llm.Prelude.{
  ℕ, String, Bool, true, false, List, [], ◌∷◌, some, not, ◌==◌, ◌≡◌, refl, ap, ◌∙◌, Bool-cases, inl,
  inr, if◌then◌else◌,
}
use uart2llm.Python.Error.{Result, ok, raise, ok-injective}
use uart2llm.Python.Exec.{Exec, pure, lift, continue, ◌>>=◌, ◌>>◌}
use uart2llm.Python.Float.{Arithmetic}
use uart2llm.Python.Json.{Json, null, item_at}
use uart2llm.Python.Json.Equality.{is_null}
use uart2llm.HardwareCheck.Judge.{interval}
use uart2llm.HardwareCheck.Quiet.{
  Quiet, Quiet-lift, quiet_steps, Quiet-confirm, Quiet-restart, Quiet-rollback, Quiet-automatic,
  Quiet-wifi, Quiet-upload, Quiet-interrupted, Quiet-candidate, Quiet-activation, Quiet-tasks,
  Quiet-export, Quiet-reboot, Quiet-soak,
}
use uart2llm.HardwareCheck.Bench.{
  ApiCall, Lab, Bench, check, request, outside, expect_status, get_at, post, wait_ready, any_state,
}
use uart2llm.HardwareCheck.Configuration.{
  remember, other_interval, configuration_cases, configuration,
}
use uart2llm.HardwareCheck.Maintenance.{refusals, replace_image, maintenance}
use uart2llm.HardwareCheck.Soak.{restarts, reboot, archive, soak}
use uart2llm.HardwareCheck.Run.{
  Phase, smoke, config, crash, maintenance_phase, rollback_phase, soak_phase, Arguments,
  pair_device, note_auto_pairing, identify, set_transport, common_cases, phase_cases, phases,
  handshake,
}
use uart2llm.HardwareCheck.Plan.{restores}

-- The gateway reports the telemetry interval, wherever it answers with one, as something else than
-- null.
pub record Numbered (lab : Lab) : Type 0 where
  pub reported :
      (call : ApiCall) (s : lab.State) (status : ℕ) (answer value : Json)
      → (lab.send call s).0 ≡ ok (status, answer)
      → item_at ("device" ∷ "persisted" ∷ interval ∷ []) answer ≡ ok value
      → is_null value ≡ false

module _ (lab : Lab) where
  -- The action leaves the remembered interval alone.
  record Keeps {A : Type 0} (act : Exec (Bench lab) A) : Type 0 where
    kept : (b : Bench lab) → (act b).1.config_restore ≡ b.config_restore

  Keeps-Quiet : {A : Type 0} (act : Exec (Bench lab) A) → Quiet lab act → Keeps act
  Keeps-Quiet act h = record { kept = h.kept }

  continue-Keeps :
      {A B : Type 0} (r : Result A) (k : A → Exec (Bench lab) B) (b : Bench lab)
      → ((a : A) → Keeps (k a))
      → (continue r k b).1.config_restore ≡ b.config_restore
  continue-Keeps (raise e) k b h = refl
  continue-Keeps (ok a) k b h = (h a).kept b

  Keeps-bind :
      {A B : Type 0} (m : Exec (Bench lab) A) (k : A → Exec (Bench lab) B)
      → Keeps m
      → ((a : A) → Keeps (k a))
      → Keeps (m >>= k)
  Keeps-bind m k h g = record { kept = λ b. continue-Keeps (m b).0 k (m b).1 g ∙ h.kept b }

  Keeps-if :
      {A : Type 0} (c : Bool) (m n : Exec (Bench lab) A)
      → Keeps m
      → Keeps n
      → Keeps (if c then m else n)
  Keeps-if true m n h g = h
  Keeps-if false m n h g = g

  Keeps-transport : (transport : Json) → Keeps (set_transport lab transport)
  unfolding set_transport
  Keeps-transport transport = record { kept = λ b. refl }

  Keeps-noted : Keeps (note_auto_pairing lab)
  unfolding note_auto_pairing
  Keeps-noted = record { kept = λ b. refl }

  module _ (lower_other : ℕ → List ℕ) where
    Keeps-check :
        (name : String) (act : Exec (Bench lab) Json)
        → Quiet lab act
        → Keeps (check lab lower_other name act)
    unfolding check
    Keeps-check name act h = record { kept = h.kept }

    ruleset keeping = (
      Keeps-check, Keeps-Quiet, Keeps-if, Keeps-bind, Keeps-transport, Keeps-noted, Quiet-confirm,
      Quiet-restart, Quiet-rollback, Quiet-automatic, Quiet-wifi, Quiet-upload, Quiet-interrupted,
      Quiet-candidate, Quiet-activation, Quiet-tasks, Quiet-export, Quiet-reboot, Quiet-soak,
      quiet_steps,
    )

    Keeps-configuration_cases :
        (original : Json) (target : ℕ) → Keeps (configuration_cases lab lower_other original target)
    unfolding configuration_cases
    Keeps-configuration_cases original target = search keeping depth 40

    Keeps-maintenance :
        (is_rollback : Bool) (image : List ℕ) (timeout : ℕ)
        → Keeps (maintenance lab lower_other is_rollback image timeout)
    unfolding maintenance refusals replace_image
    Keeps-maintenance is_rollback image timeout = search keeping depth 60

    Keeps-restarts :
        (fl : Arithmetic) (names : List String) → Keeps (restarts lab lower_other fl names)
    unfolding restarts
    Keeps-restarts fl [] = Keeps-Quiet (pure tt) (Quiet-lift lab _)
    Keeps-restarts fl (index ∷ later) =
        Keeps-bind (check lab lower_other ("repeated-startup-" <> index) (reboot lab fl))
          (λ v. restarts lab lower_other fl later)
          (Keeps-check ("repeated-startup-" <> index) (reboot lab fl) (Quiet-reboot lab fl))
          (λ v. Keeps-restarts fl later)

    Keeps-soak : (fl : Arithmetic) (duration : ℕ) → Keeps (soak lab lower_other fl duration)
    unfolding soak archive
    Keeps-soak fl duration = search (Keeps-restarts, keeping) depth 40

    Keeps-pair :
        (o : Arguments) (connected : Json) → Keeps (pair_device lab lower_other o connected)
    unfolding pair_device
    Keeps-pair o connected = search keeping depth 40

    Keeps-identify : (phase : Phase) → Keeps (identify lab lower_other phase)
    unfolding identify
    Keeps-identify phase = search keeping depth 40

    Keeps-common : Keeps (common_cases lab lower_other)
    unfolding common_cases
    Keeps-common = search keeping depth 40

    -- Where the action returns and nothing was remembered, something is afterwards, or nothing.
    record Sets {A : Type 0} (something : Bool) (act : Exec (Bench lab) A) : Type 0 where
      sets :
          (b : Bench lab) (a : A)
          → (act b).0 ≡ ok a
          → is_null b.config_restore ≡ true
          → is_null (act b).1.config_restore ≡ not something

    Sets-Keeps : {A : Type 0} (act : Exec (Bench lab) A) → Keeps act → Sets false act
    Sets-Keeps act h = record { sets = λ b a e n. ap is_null (h.kept b) ∙ n }

    continue-Sets :
        {A B : Type 0} (something : Bool) (r : Result A) (k : A → Exec (Bench lab) B)
        (b : Bench lab) (x : B)
        → ((a : A) → Sets something (k a))
        → (continue r k b).0 ≡ ok x
        → is_null b.config_restore ≡ true
        → is_null (continue r k b).1.config_restore ≡ not something
    continue-Sets something (raise e) k b x h eq n = cc
    continue-Sets something (ok a) k b x h eq n = (h a).sets b x eq n

    Sets-after :
        {A B : Type 0} (something : Bool) (m : Exec (Bench lab) A) (k : A → Exec (Bench lab) B)
        → Keeps m
        → ((a : A) → Sets something (k a))
        → Sets something (m >>= k)
    Sets-after something m k h g = record {
      sets = λ b x e n. continue-Sets something (m b).0 k (m b).1 x g e (ap is_null (h.kept b) ∙ n);
    }

    expected :
        (numbered : Numbered lab) (call : ApiCall) (s : lab.State) (r : Result (ℕ × Json))
        (answer value : Json)
        → (lab.send call s).0 ≡ r
        → expect_status lab 200 r ≡ ok answer
        → item_at ("device" ∷ "persisted" ∷ interval ∷ []) answer ≡ ok value
        → is_null value ≡ false
    unfolding expect_status
    expected numbered call s (raise e) answer value sent h found = cc
    expected numbered call s (ok (status, body)) answer value sent h found =
        elim (Bool-cases (status == 200)) [
          | inl fine ↦
              let same : body ≡ answer = ok-injective (rw fine at h) in
              numbered.reported call s status body value sent
                (ap (item_at ("device" ∷ "persisted" ∷ interval ∷ [])) same ∙ found)
          | inr bad ↦ cc (rw bad at h)
        ]

    lifted :
        (r : Result Json) (f : Json → Result Json) (b : Bench lab) (value : Json)
        → (continue r (λ answer. lift (f answer)) b).0 ≡ ok value
        → (answer : Json) × (r ≡ ok answer) × (f answer ≡ ok value)
    lifted (raise e) f b value h = cc
    lifted (ok answer) f b value h = (answer, refl, h)

    -- The interval that `configuration` reads first is not null.
    interval_read :
        (numbered : Numbered lab) (b : Bench lab) (value : Json)
        → (get_at lab "/config" ("device" ∷ "persisted" ∷ interval ∷ []) b).0 ≡ ok value
        → is_null value ≡ false
    unfolding request outside
    interval_read numbered b value h =
        let (answer, e, found) =
          lifted _ (item_at ("device" ∷ "persisted" ∷ interval ∷ [])) _ value h in
        expected numbered _ b.state _ answer value refl e found

    remembered :
        (r : Result Json) (b : Bench lab) (x : Unit {0})
        → ((value : Json) → r ≡ ok value → is_null value ≡ false)
        → (continue r
            (λ original.
              remember lab original
              >> configuration_cases lab lower_other original (other_interval lab original))
            b).0
          ≡ ok x
        → is_null
            (continue r
              (λ original.
                remember lab original
                >> configuration_cases lab lower_other original (other_interval lab original))
              b).1.config_restore
          ≡ false
    unfolding remember
    remembered (raise e) b x some_value h = cc
    remembered (ok original) b x some_value h =
        ap is_null (
          (Keeps-configuration_cases original (other_interval lab original)).kept
            (record b { config_restore = original }))
        ∙ some_value original refl

    Sets-configuration : Numbered lab → Sets true (configuration lab lower_other)
    unfolding configuration
    Sets-configuration numbered = record {
      sets = λ b x e n.
          remembered (get_at lab "/config" ("device" ∷ "persisted" ∷ interval ∷ []) b).0 _ x
            (interval_read numbered b) e;
    }

    Sets-phase :
        Numbered lab
        → (fl : Arithmetic) (o : Arguments) (phase : Phase)
        → Sets (restores phase) (phase_cases lab lower_other fl o phase)
    unfolding phase_cases restores
    Sets-phase numbered fl o smoke = Sets-Keeps _ (Keeps-Quiet (pure tt) (Quiet-lift lab _))
    Sets-phase numbered fl o config = Sets-configuration numbered
    Sets-phase numbered fl o crash = Sets-Keeps _ (search keeping depth 40)
    Sets-phase numbered fl o maintenance_phase = Sets-Keeps _ (Keeps-maintenance _ _ _)
    Sets-phase numbered fl o rollback_phase = Sets-Keeps _ (Keeps-maintenance _ _ _)
    Sets-phase numbered fl o soak_phase = Sets-Keeps _ (Keeps-soak fl o.duration)

    -- Where the phases return, the interval is remembered if the phase is one that changes it.
    pub phases-Remembers :
        Numbered lab
        → (fl : Arithmetic) (o : Arguments) (b : Bench lab) (x : Unit {0})
        → (phases lab lower_other fl o b).0 ≡ ok x
        → is_null b.config_restore ≡ true
        → is_null (phases lab lower_other fl o b).1.config_restore ≡ not (restores o.phase)
    unfolding phases
    phases-Remembers numbered fl o b x h n =
        (Sets-after (restores o.phase)
            (check lab lower_other "daemon-ready" (wait_ready lab false null (any_state lab))) _
            (search keeping depth 40)
            (λ v.
              Sets-after (restores o.phase)
                (check lab lower_other "serial-handshake"
                  (post lab "/connect" (some (handshake o.port))))
                _ (search keeping depth 40)
                (λ connected.
                  Sets-after (restores o.phase) (pair_device lab lower_other o connected) _
                    (Keeps-pair o connected)
                    (λ w.
                      Sets-after (restores o.phase) (identify lab lower_other o.phase) _
                        (Keeps-identify o.phase)
                        (λ y.
                          Sets-after (restores o.phase) (common_cases lab lower_other) _
                            Keeps-common (λ z. Sets-phase numbered fl o o.phase)))))).sets
          b x h n
