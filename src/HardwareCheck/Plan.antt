-- ===== src/HardwareCheck/Plan.antt =====
-- scripts/hardware-check.py: the cases of each phase as a plan.
pub mod Follows
pub mod Phases
pub mod Remembers
pub mod Verdict
use Prim.Native.String.{◌++◌ as ◌<>◌}
use uart2llm.Prelude.{
  ℕ, zero, suc, ◌+◌, arith, String, Bool, true, false, List, [], ◌∷◌, ◌++◌, map, append-nil,
  append_assoc, none, some, Option, ◌≡◌, refl, sym, ap, ◌∙◌, All, if◌then◌else◌, not,
}
use mathlib.Core.List.{map-append}
use mathlib.Core.Path.{subst}
use uart2llm.Python.Error.{Error, Result, ok, raise, is_ok}
use uart2llm.Python.Exec.{Exec, pure, lift, continue, ◌>>=◌, ◌>>◌}
use uart2llm.Python.Float.{Arithmetic}
use uart2llm.Python.Json
use uart2llm.Python.Json.{Json, null, truthy, item_at}
use uart2llm.Redaction.{strict_sanitize}
use uart2llm.HardwareCheck.Quiet.{
  Quiet, Quiet-lift, Quiet-request, Quiet-ready, quiet_steps, Quiet-confirm, Quiet-restart,
  Quiet-rollback, Quiet-automatic, Quiet-wifi, Quiet-upload, Quiet-interrupted, Quiet-candidate,
  Quiet-activation, Quiet-tasks, Quiet-export, Quiet-reboot, Quiet-soak,
}
use uart2llm.HardwareCheck.Bench.{
  Lab, Bench, Case, check, evidence, any_state, post, outside, sleep, read_clock, request, get,
  ready, wait_rounds, wait_ready,
}
use uart2llm.HardwareCheck.Carries.{
  Adds, Adds-nil, Adds-append, Carries, Carries-Quiet, Carries-bind, Carries-after, Carries-case,
  Carries-check, cases,
}
use uart2llm.HardwareCheck.Configuration.{
  action_named, apply_value, confirm, restart, rollback, automatic, random_name, bad_wifi,
  restore_pending, write_back, restore, remember, configuration_cases, configuration,
}
use uart2llm.HardwareCheck.Maintenance.{
  check_image, upload, interrupted, stay_offline, same_configuration, unconfirmed_candidate,
  activation, refusals, replace_image, maintenance,
}
use uart2llm.HardwareCheck.Soak.{
  tasks_snapshot, export_crash, reboot, note_progress, add_sample, load_round, load_rounds,
  load_measured, load, restarts, archive, soak,
}
use uart2llm.HardwareCheck.Run.{
  Phase, smoke, config, crash, maintenance_phase, rollback_phase, soak_phase, Arguments,
  pair_device, note_auto_pairing, identify, set_transport, common_cases, phase_cases, phases,
  handshake,
}

-- A coredump that is there is archived first.
unfoldable pub archive_plan : Bool → List String
archive_plan no_coredump = if no_coredump then [] else "archive-coredump-before-clearing" ∷ []

unfoldable pub soak_plan : List String
soak_plan =
    "clear-preserved-coredump" ∷ "repeated-startup-1" ∷ "repeated-startup-2" ∷ "repeated-startup-3"
    ∷ "repeated-startup-4" ∷ "repeated-startup-5" ∷ "management-soak-no-restart-or-new-coredump"
    ∷ []

-- The cases of a phase.
unfoldable pub planned_phase : Phase → Bool → List String
unfolding archive_plan soak_plan
planned_phase smoke no_coredump = []
planned_phase config no_coredump =
    "config-confirm" ∷ "restart-persists-confirmed-config" ∷ "explicit-rollback"
    ∷ "confirmation-timeout-rollback" ∷ "restore-original-configuration"
    ∷ "invalid-setting-rejected" ∷ "valid-setting-immediately-after-rejection"
    ∷ "usb-uart-change-rejected" ∷ "valid-setting-after-unsupported-uart"
    ∷ "bad-wifi-cannot-confirm-and-auto-rolls-back" ∷ []
planned_phase crash no_coredump = "private-coredump-export" ∷ []
planned_phase maintenance_phase no_coredump =
    "corrupt-image-rejected" ∷ "interrupted-upload-releases-maintenance" ∷ "valid-image-upload"
    ∷ "ota-new-slot-self-test-and-config-preservation" ∷ []
planned_phase rollback_phase no_coredump =
    "valid-image-upload" ∷ "unconfirmed-candidate-rolls-back-with-host-offline" ∷ []
planned_phase soak_phase no_coredump = archive_plan no_coredump ++ soak_plan

-- Every case of a run up to the phase's own; the device may be paired already.
unfoldable pub planned_start : Bool → List String
planned_start auto_paired =
    "daemon-ready"
    ∷ "serial-handshake"
    ∷ (if auto_paired then "security2-auto-pairing" else "security2-pairing")
    ∷ "actual-device-capabilities"
    ∷ "real-telemetry"
    ∷ "configuration-registry"
    ∷ "state-registry"
    ∷ "task-stack-diagnostics"
    ∷ "encrypted-logs-channel"
    ∷ "health-diagnostics"
    ∷ "configuration-snapshot"
    ∷ []

-- The phases that remember the interval, which is put back at the end.
unfoldable pub restores : Phase → Bool
restores smoke = false
restores config = true
restores crash = false
restores maintenance_phase = false
restores rollback_phase = false
restores soak_phase = false

-- The restoration of the interval is a case too.
unfoldable pub planned_restore : Bool → List String
planned_restore restored = if restored then "configuration-finally-cleanup" ∷ [] else []
