-- ===== src/HardwareCheck/Plan/Phases.antt =====
-- scripts/hardware-check.py: the phases carry the plan out.
use Prim.Native.String.{◌++◌ as ◌<>◌}
use uart2llm.Prelude.{
  ℕ, String, Bool, true, false, List, [], ◌∷◌, ◌++◌, map, some, ◌≡◌, refl, if◌then◌else◌, not,
}
use uart2llm.Python.Error.{ok}
use uart2llm.Python.Exec.{Exec, pure, lift, ◌>>=◌, ◌>>◌}
use uart2llm.Python.Float.{Arithmetic}
use uart2llm.Python.Json
use uart2llm.Python.Json.{Json, null, truthy, item_at}
use uart2llm.HardwareCheck.Quiet.{
  Quiet, Quiet-lift, Quiet-request, Quiet-ready, quiet_steps, Quiet-confirm, Quiet-restart,
  Quiet-rollback, Quiet-automatic, Quiet-wifi, Quiet-upload, Quiet-interrupted, Quiet-candidate,
  Quiet-activation, Quiet-tasks, Quiet-export, Quiet-reboot, Quiet-soak,
}
use uart2llm.HardwareCheck.Bench.{Lab, Bench, check, any_state, post, wait_ready, get_at}
use uart2llm.HardwareCheck.Carries.{
  Adds, Adds-nil, Carries, Carries-Quiet, Carries-bind, Carries-after, Carries-case, Carries-check,
  cases,
}
use uart2llm.HardwareCheck.Configuration.{
  action_named, remember, other_interval, configuration_cases, configuration,
}
use uart2llm.HardwareCheck.Maintenance.{check_image, refusals, replace_image, maintenance}
use uart2llm.HardwareCheck.Soak.{export_crash, reboot, load, restarts, archive, soak}
use uart2llm.HardwareCheck.Run.{
  Phase, smoke, config, crash, maintenance_phase, rollback_phase, soak_phase, Arguments,
  pair_device, note_auto_pairing, identify, set_transport, common_cases, phase_cases, phases,
  handshake,
}
use uart2llm.HardwareCheck.Judge.{interval}
use uart2llm.HardwareCheck.Plan.{soak_plan, archive_plan, planned_phase, planned_start}
use uart2llm.HardwareCheck.Plan.Follows.{
  Follows, Follows-fixed, Follows-if, Follows-bind, Follows-after, Follows-then, Follows-Quiet,
}

module _ (lab : Lab) where
  Quiet-transport : (transport : Json) → Quiet lab (set_transport lab transport)
  unfolding set_transport
  Quiet-transport transport = record { same = λ b. refl; kept = λ b. refl }

  module _ (lower_other : ℕ → List ℕ) where
    Carries-remember : (original : Json) → Carries lab [] (remember lab original)
    unfolding remember
    Carries-remember original = record { adds = λ b u h. Adds-nil b.cases b.cases refl }

    Carries-cases :
        (original : Json) (target : ℕ)
        → Carries lab
            (planned_phase config false)
            (configuration_cases lab lower_other original target)
    unfolding configuration_cases planned_phase
    Carries-cases original target =
        search
          (
            cases, Quiet-confirm, Quiet-restart, Quiet-rollback, Quiet-automatic, Quiet-wifi,
            quiet_steps,
          )
          depth 40

    Carries-configuration : Carries lab (planned_phase config false) (configuration lab lower_other)
    unfolding configuration
    Carries-configuration =
        Carries-after lab _ (get_at lab "/config" ("device" ∷ "persisted" ∷ interval ∷ [])) _
          (search quiet_steps depth 24)
          (λ original.
            Carries-bind lab [] _ (remember lab original) _ (Carries-remember original)
              (λ u. Carries-cases original (other_interval lab original)))

    Carries-refusals :
        (image : List ℕ) (timeout : ℕ)
        → Carries lab
            ("corrupt-image-rejected" ∷ "interrupted-upload-releases-maintenance" ∷ [])
            (refusals lab lower_other image timeout)
    unfolding refusals
    Carries-refusals image timeout =
        search (cases, Quiet-upload, Quiet-interrupted, quiet_steps) depth 40

    Carries-activation :
        (image : List ℕ) (timeout : ℕ)
        → Carries lab
            ("valid-image-upload" ∷ "ota-new-slot-self-test-and-config-preservation" ∷ [])
            (replace_image lab lower_other false image timeout)
    unfolding replace_image
    Carries-activation image timeout =
        search (cases, Quiet-upload, Quiet-activation, quiet_steps) depth 40

    Carries-maintenance :
        (image : List ℕ) (timeout : ℕ)
        → Carries lab
            (planned_phase maintenance_phase false)
            (maintenance lab lower_other false image timeout)
    unfolding maintenance planned_phase
    Carries-maintenance image timeout =
        Carries-after lab _ (lift (check_image image)) _ (Quiet-lift lab _) (λ u.
          Carries-bind lab _ _ (refusals lab lower_other image timeout) _
            (Carries-refusals image timeout) (λ v. Carries-activation image timeout))

    Carries-fallback :
        (image : List ℕ) (timeout : ℕ)
        → Carries lab
            (planned_phase rollback_phase false)
            (maintenance lab lower_other true image timeout)
    unfolding maintenance replace_image planned_phase
    Carries-fallback image timeout =
        search (cases, Quiet-upload, Quiet-candidate, quiet_steps) depth 40

    Carries-restarts :
        (fl : Arithmetic) (names : List String)
        → Carries lab
            (map (λ index. "repeated-startup-" <> index) names)
            (restarts lab lower_other fl names)
    unfolding restarts
    Carries-restarts fl [] = Carries-Quiet lab (pure tt) (Quiet-lift lab _)
    Carries-restarts fl (index ∷ later) =
        Carries-case lab lower_other _ _ (reboot lab fl) (λ v. restarts lab lower_other fl later)
          (Quiet-reboot lab fl) (λ v. Carries-restarts fl later)

    Carries-dump : Carries lab ("archive-coredump-before-clearing" ∷ []) (
        check lab lower_other "archive-coredump-before-clearing" (export_crash lab) >>= λ v.
        pure tt)
    Carries-dump = search (cases, Quiet-export, quiet_steps) depth 40

    -- The cases of the soak after the archive.
    soak_cases : Arithmetic → ℕ → Exec (Bench lab) (Unit {0})
    soak_cases fl duration = do
      _ ←
          check lab lower_other "clear-preserved-coredump"
            (post lab "/device/action" (some (action_named "clear_crash")))
      restarts lab lower_other fl ("1" ∷ "2" ∷ "3" ∷ "4" ∷ "5" ∷ [])
      _ ← check lab lower_other "management-soak-no-restart-or-new-coredump" (load lab fl duration)
      pure tt

    Follows-archive : Follows lab archive_plan (archive lab lower_other)
    unfolding archive archive_plan
    Follows-archive =
        Follows-Quiet lab _ (wait_ready lab true null (any_state lab)) _ (Quiet-ready lab _ _ _)
          (λ state.
            Follows-Quiet lab _ (lift (item_at ("device" ∷ "crash" ∷ "available" ∷ []) state)) _
              (Quiet-lift lab _)
              (λ available.
                Follows-if lab archive_plan (truthy available) _ _ Carries-dump
                  (Carries-Quiet lab (pure tt) (Quiet-lift lab _))))

    Carries-load :
        (fl : Arithmetic) (duration : ℕ)
        → Carries lab ("management-soak-no-restart-or-new-coredump" ∷ []) (
            check lab lower_other "management-soak-no-restart-or-new-coredump"
              (load lab fl duration)
            >>= λ v. pure tt)
    Carries-load fl duration = search (cases, Quiet-soak, quiet_steps) depth 40

    Carries-soak : (fl : Arithmetic) (duration : ℕ) → Carries lab soak_plan (soak_cases fl duration)
    unfolding soak_plan soak_cases
    Carries-soak fl duration =
        Carries-case lab lower_other _ _
          (post lab "/device/action" (some (action_named "clear_crash"))) _
          (Quiet-request lab _ _ _ _)
          (λ v.
            Carries-bind lab _ _ (restarts lab lower_other fl ("1" ∷ "2" ∷ "3" ∷ "4" ∷ "5" ∷ [])) _
              (Carries-restarts fl _) (λ u. Carries-load fl duration))

    Follows-soak :
        (fl : Arithmetic) (duration : ℕ)
        → Follows lab (planned_phase soak_phase) (soak lab lower_other fl duration)
    unfolding soak planned_phase soak_cases soak_plan
    Follows-soak fl duration =
        Follows-then lab archive_plan _ (archive lab lower_other) _ Follows-archive
          (λ u. Carries-soak fl duration)

    pairing_plan : Bool → List String
    pairing_plan auto_paired =
        (if auto_paired then "security2-auto-pairing" else "security2-pairing") ∷ []

    Carries-noted : Carries lab ("security2-auto-pairing" ∷ []) (note_auto_pairing lab)
    unfolding note_auto_pairing
    Carries-noted = record {
      adds = λ b a h. record {
        entries = _;
        appended = refl;
        named = refl;
        all_passed = ((_, refl), tt);
      };
    }

    Carries-pair :
        (o : Arguments)
        → Carries lab ("security2-pairing" ∷ []) (
            check lab lower_other "security2-pairing" (post lab "/pair" (some o.pairing)) >>= λ v.
            pure tt)
    Carries-pair o = search (cases, quiet_steps) depth 40

    Follows-pairing :
        (o : Arguments) (connected : Json)
        → Follows lab pairing_plan (pair_device lab lower_other o connected)
    unfolding pair_device pairing_plan
    Follows-pairing o connected =
        Follows-Quiet lab _ (lift (Json.get "paired" null connected)) _ (Quiet-lift lab _)
          (λ paired.
            Follows-if lab pairing_plan (not (truthy paired)) _ _ (Carries-pair o) Carries-noted)

    Carries-identify :
        (phase : Phase)
        → Carries lab ("actual-device-capabilities" ∷ []) (identify lab lower_other phase)
    unfolding identify
    Carries-identify phase = search (cases, Quiet-transport, quiet_steps) depth 40

    Carries-common :
        Carries lab
          ("real-telemetry" ∷ "configuration-registry" ∷ "state-registry" ∷ "task-stack-diagnostics"
            ∷ "encrypted-logs-channel" ∷ "health-diagnostics" ∷ "configuration-snapshot" ∷ [])
          (common_cases lab lower_other)
    unfolding common_cases
    Carries-common = search (cases, Quiet-tasks, quiet_steps) depth 40

    Follows-phase :
        (fl : Arithmetic) (o : Arguments) (phase : Phase)
        → Follows lab (planned_phase phase) (phase_cases lab lower_other fl o phase)
    unfolding phase_cases planned_phase
    Follows-phase fl o smoke =
        Follows-fixed lab false _ (pure tt) (Carries-Quiet lab (pure tt) (Quiet-lift lab _))
    Follows-phase fl o config =
        Follows-fixed lab false (planned_phase config) _ Carries-configuration
    Follows-phase fl o crash =
        Follows-fixed lab false (planned_phase crash)
          (check lab lower_other "private-coredump-export" (export_crash lab) >>= λ v. pure tt)
          (search (cases, Quiet-export, quiet_steps))
    Follows-phase fl o maintenance_phase = Follows-fixed lab false _ _ (Carries-maintenance _ _)
    Follows-phase fl o rollback_phase = Follows-fixed lab false _ _ (Carries-fallback _ _)
    Follows-phase fl o soak_phase = Follows-soak fl o.duration

    -- Where the phases return, the run has recorded the planned cases, and they passed.
    pub phases-Adds :
        (fl : Arithmetic) (o : Arguments) (b : Bench lab) (u : Unit {0})
        → (phases lab lower_other fl o b).0 ≡ ok u
        → (auto_paired no_coredump : Bool) × Adds
            (planned_start auto_paired ++ planned_phase o.phase no_coredump)
            b.cases
            (phases lab lower_other fl o b).1.cases
    unfolding phases planned_start pairing_plan
    phases-Adds fl o b u h =
        let (ij, added) =
          (Follows-after lab _ _
              (check lab lower_other "daemon-ready" (wait_ready lab false null (any_state lab))) _
              (Carries-check lab lower_other _ _ (Quiet-ready lab _ _ _))
              (λ v.
                Follows-after lab _ _
                  (check lab lower_other "serial-handshake"
                    (post lab "/connect" (some (handshake o.port))))
                  _ (Carries-check lab lower_other _ _ (Quiet-request lab _ _ _ _))
                  (λ connected.
                    Follows-bind lab _ _ (pair_device lab lower_other o connected) _
                      (Follows-pairing o connected)
                      (λ w.
                        Follows-after lab _ _ (identify lab lower_other o.phase) _
                          (Carries-identify o.phase)
                          (λ x.
                            Follows-after lab _ _ (common_cases lab lower_other) _ Carries-common
                              (λ y. Follows-phase fl o o.phase)))))).adds
            b u h in
        (ij.0, ij.1, added)
