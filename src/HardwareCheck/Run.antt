-- ===== src/HardwareCheck/Run.antt =====
-- scripts/hardware-check.py: `main`, with its phases, its `finally` and its report.
use uart2llm.Prelude.{
  ℕ, String, Bool, true, false, List, [], ◌∷◌, ◌++◌, none, some, Option, not, ◌&&◌, leb,
  if◌then◌else◌,
}
use uart2llm.Prelude.Int.{pos}
use uart2llm.Python.Error.{Error, Result, ok, raise, is_exception, system_exit, timeout_expired}
use uart2llm.Python.Exec.{Exec, pure, lift, ◌>>=◌, ◌>>◌}
use uart2llm.Python.Float.{Arithmetic}
use uart2llm.Python.Json
use uart2llm.Python.Json.{Json, null, bool, int, str, obj, field, end, item, truthy}
use uart2llm.Python.Json.Equality.{is_null}
use uart2llm.HardwareCheck.Judge.{capable, validation_build}
use uart2llm.HardwareCheck.Bench.{
  Lab, Bench, Case, PartialSoak, outside, get, post, check, wait_ready, any_state,
}
use uart2llm.HardwareCheck.Configuration.{action_named, configuration, restore}
use uart2llm.HardwareCheck.Maintenance.{maintenance}
use uart2llm.HardwareCheck.Soak.{tasks_snapshot, export_crash, soak}

pub data Phase : Type 0 where
  smoke : Phase
  config : Phase
  crash : Phase
  maintenance_phase : Phase
  rollback_phase : Phase
  soak_phase : Phase

-- The options, with the files they name as they are read: the image, and the pairing.
pub record Arguments : Type 0 where
  pub port : String
  pub pairing : Json
  pub phase : Phase
  pub image : Option (List ℕ)
  pub duration : ℕ
  pub upload_timeout : ℕ
  pub report_exists : Bool

unfoldable pub needs_image : Phase → Bool
needs_image smoke = false
needs_image config = false
needs_image crash = false
needs_image maintenance_phase = true
needs_image rollback_phase = true
needs_image soak_phase = false

unfoldable pub has_image : Option (List ℕ) → Bool
has_image none = false
has_image (some image) = true

-- The tests of the command line; each refusal ends the program.
unfoldable pub check_options : Arguments → Result (Unit {0})
unfolding needs_image has_image
check_options o =
    if needs_image o.phase && not (has_image o.image)
    then raise (system_exit "--image is required for maintenance/rollback")
    else if not (leb 60 o.duration && leb o.duration 86400)
    then raise (system_exit "--seconds must be 60..86400")
    else if o.report_exists
    then raise (system_exit "--report already exists; choose a new evidence filename")
    else ok tt

-- Whether the phase needs the USB validation build.
unfoldable pub needs_validation : Phase → Bool
needs_validation smoke = false
needs_validation config = true
needs_validation crash = false
needs_validation maintenance_phase = true
needs_validation rollback_phase = true
needs_validation soak_phase = true

unfoldable pub handshake : String → Json
handshake port = obj (
    field "port" (str port)
      (field "baud" (int (pos 115200)) (field "flow_control" (bool false) end)))

-- The image, which `check_options` has required where it is used.
unfoldable pub image_of : Option (List ℕ) → List ℕ
image_of none = []
image_of (some image) = image

-- The report as it is written: its cases, the transport, what the soak left, the failure of the
-- phases, and the verdict.
pub record RunReport : Type 0 where
  pub cases : List Case
  pub transport : Json
  pub partial_soak : Option PartialSoak
  pub failure : Option Error
  pub passed : Bool

-- What `main` comes to: its exit code or the exception that it ends with, and the report, if it wrote
-- one.
pub record Ending : Type 0 where
  pub code : Result ℕ
  pub written : Option RunReport

-- `except Exception` of the phases: whether it caught something, and what.
unfoldable pub failure_of : Result (Unit {0}) → Option Error
failure_of (ok u) = none
failure_of (raise e) = if is_exception e then some e else none

-- `return 1 if failed else 0`, unless an exception is on its way.
unfoldable pub exit_code : Result (Unit {0}) → Bool → Result ℕ
exit_code (ok u) cleaned = ok (if cleaned then 0 else 1)
exit_code (raise e) cleaned = if is_exception e then ok 1 else raise e

module _ (lab : Lab) where
  -- `report['physical_transport'] = ...`
  unfoldable pub set_transport : Json → Exec (Bench lab) (Unit {0})
  set_transport transport b = (ok tt, record b { transport = transport })

  unfoldable pub auto_paired : Case
  auto_paired = record {
    name = "security2-auto-pairing";
    outcome = ok (str "Stored device credential successfully authenticated");
    milliseconds = none;
  }

  unfoldable pub note_auto_pairing : Exec (Bench lab) (Unit {0})
  unfolding auto_paired
  note_auto_pairing b = (ok tt, record b { cases = b.cases ++ (auto_paired ∷ []) })

  module _ (lower_other : ℕ → List ℕ) where
    abbrev check_case : String → Exec (Bench lab) Json → Exec (Bench lab) Json
    check_case name action = check lab lower_other name action

    unfoldable pub pair_device : Arguments → Json → Exec (Bench lab) (Unit {0})
    unfolding note_auto_pairing truthy Json.get
    pair_device o connected = do
      paired ← lift (Json.get "paired" null connected)
      if not (truthy paired)
          then (do _ ← check_case "security2-pairing" (post lab "/pair" (some o.pairing)); pure tt)
          else note_auto_pairing

    -- The device that answers, and what the phase needs of it.
    unfoldable pub identify : Phase → Exec (Bench lab) (Unit {0})
    unfolding set_transport needs_validation item
    identify phase = do
      caps ← check_case "actual-device-capabilities" (get lab "/capabilities")
      device ← lift (item "device" caps)
      lift (capable device)
      transport ← lift (item "transport" device)
      set_transport transport
      if needs_validation phase then lift (validation_build device) else pure tt

    -- The cases that every phase has.
    unfoldable pub common_cases : Exec (Bench lab) (Unit {0})
    common_cases = do
      _ ← check_case "real-telemetry" (wait_ready lab true null (any_state lab))
      _ ← check_case "configuration-registry" (get lab "/config/schema")
      _ ← check_case "state-registry" (get lab "/state/schema")
      _ ← check_case "task-stack-diagnostics" (tasks_snapshot lab)
      _ ← check_case "encrypted-logs-channel" (get lab "/logs")
      _ ← check_case "health-diagnostics" (post lab "/diagnostics" (some (action_named "health")))
      _ ← check_case "configuration-snapshot" (get lab "/config")
      pure tt

    -- The cases of the phase.
    unfoldable pub phase_cases : Arithmetic → Arguments → Phase → Exec (Bench lab) (Unit {0})
    unfolding image_of
    phase_cases fl o smoke = pure tt
    phase_cases fl o config = configuration lab lower_other
    phase_cases fl o crash = check_case "private-coredump-export" (export_crash lab) >> pure tt
    phase_cases fl o maintenance_phase =
        maintenance lab lower_other false (image_of o.image) o.upload_timeout
    phase_cases fl o rollback_phase =
        maintenance lab lower_other true (image_of o.image) o.upload_timeout
    phase_cases fl o soak_phase = soak lab lower_other fl o.duration

    -- The body of the `try` of `main`.
    unfoldable pub phases : Arithmetic → Arguments → Exec (Bench lab) (Unit {0})
    unfolding pair_device identify common_cases phase_cases handshake
    phases fl o = do
      _ ← check_case "daemon-ready" (wait_ready lab false null (any_state lab))
      connected ← check_case "serial-handshake" (post lab "/connect" (some (handshake o.port)))
      pair_device o connected
      identify o.phase
      common_cases
      phase_cases fl o o.phase

    -- `except Exception: failed = True` of the clean-up: false where it caught something.
    unfoldable pub cleaned_by : Result Json → Result Bool
    cleaned_by (ok value) = ok true
    cleaned_by (raise e) = if is_exception e then ok false else raise e

    -- The first part of the `finally`: the interval goes back, if one is remembered.
    unfoldable pub clean_up : Exec (Bench lab) Bool
    unfolding cleaned_by
    clean_up b =
        let (r, b') = check_case "configuration-finally-cleanup" (restore lab b.config_restore) b in
        if is_null b.config_restore then (ok true, b) else (cleaned_by r, b')

    -- `daemon.wait(timeout=10)`: a daemon that stays is terminated.
    unfoldable pub await_daemon : Exec (Bench lab) (Unit {0})
    await_daemon b =
        let (gone, b') = outside lab (lab.await_exit 10) b in
        let terminated : Bench lab = record b' { state = lab.terminate b'.state } in
        elim gone [
          | ok u ↦ (ok u, b')
          | raise timeout_expired ↦ outside lab (lab.await_exit 5) terminated
          | raise e ↦ (raise e, b')
        ]

    -- `except Exception: pass`
    unfoldable pub ignored : Result Json → Result (Unit {0})
    ignored (ok value) = ok tt
    ignored (raise e) = if is_exception e then ok tt else raise e

    -- The rest of it: a failure of the request is ignored.
    unfoldable pub stop_daemon : Exec (Bench lab) (Unit {0})
    unfolding ignored await_daemon
    stop_daemon = do
      (λ b. let (r, b') = post lab "/shutdown" none b in (ignored r, b'))
      await_daemon

    -- What stands in the `finally` before the report.
    unfoldable pub finish : Exec (Bench lab) Bool
    unfolding clean_up stop_daemon
    finish = do cleaned ← clean_up; stop_daemon; pure cleaned

    unfoldable pub report_of : Result (Unit {0}) → Bool → Bench lab → RunReport
    unfolding failure_of
    report_of outcome cleaned b = record {
      cases = b.cases;
      transport = b.transport;
      partial_soak = b.partial_soak;
      failure = failure_of outcome;
      passed = elim (failure_of outcome) [ none ↦ cleaned | some e ↦ false ];
    }

    -- What `main` comes to once the phases are over: an exception of the `finally` itself takes the
    -- place of what went before, and nothing is written.
    unfoldable pub ending_of : Result (Unit {0}) → Result Bool → Bench lab → Ending
    unfolding report_of exit_code
    ending_of outcome (raise e) b = record { code = raise e; written = none }
    ending_of outcome (ok cleaned) b = record {
      code = exit_code outcome cleaned;
      written = some (report_of outcome cleaned b);
    }

    -- The report as `main` makes it.
    unfoldable pub first_bench : lab.State → Bench lab
    first_bench s = record {
      state = s;
      cases = [];
      config_restore = null;
      transport = str "pending capability check";
      partial_soak = none;
    }

    -- `main`, from the daemon's start on.
    unfoldable pub main : Arithmetic → Arguments → lab.State → Ending × Bench lab
    unfolding check_options phases finish ending_of first_bench
    main fl o s =
        let (outcome, b) = phases fl o (first_bench s) in
        let (cleaned, b') = finish b in
        elim (check_options o) [
          | raise e ↦ (record { code = raise e; written = none }, first_bench s)
          | ok u ↦ (ending_of outcome cleaned b', b')
        ]
