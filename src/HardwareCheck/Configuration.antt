-- ===== src/HardwareCheck/Configuration.antt =====
-- scripts/hardware-check.py: `configuration`, and the restoration at the end of the run.
use Prim.Native.String.{◌++◌ as ◌<>◌}
use uart2llm.Prelude.{ℕ, ◌+◌, String, List, true, some, none, [], ◌∷◌, not, if◌then◌else◌}
use uart2llm.Prelude.Int.{pos}
use uart2llm.Python.Error.{ok}
use uart2llm.Python.Exec.{Exec, pure, lift, ◌>>=◌, ◌>>◌}
use uart2llm.Python.Json.{Json, bool, int, str, obj, field, end, item, truthy}
use uart2llm.Python.Json.Equality.{equals}
use uart2llm.HardwareCheck.Judge.{
  interval, interval_is, require_interval, require_settled, unconfigured, wifi_restored,
}
use uart2llm.HardwareCheck.Bench.{
  Lab, Bench, outside, sleep, request, post, get_at, check, wait_ready, any_state, telemetry_patch,
}

-- The body of a request for an action or a diagnosis.
abbrev pub action_named : String → Json
action_named name = obj (field "action" (str name) end)

module _ (lab : Lab) where
  abbrev patch : Json → ℕ → Exec (Bench lab) Json
  patch body expected = request lab "/config" "PATCH" (some body) expected

  abbrev device_config : Exec (Bench lab) Json
  device_config = get_at lab "/config" ("device" ∷ [])

  -- `apply`
  unfoldable pub apply_value : Json → Exec (Bench lab) (Unit {0})
  apply_value value = do _ ← patch (telemetry_patch value) 200; sleep lab 1500

  unfoldable pub confirm : Json → Exec (Bench lab) Json
  unfolding apply_value
  confirm value = do
    apply_value value
    _ ← post lab "/config/confirm" none
    result ← device_config
    lift (require_interval "persisted" value result)
    pure result

  -- The session before a restart.
  abbrev pub link_session : Exec (Bench lab) Json
  link_session = get_at lab "/state" ("connection" ∷ "link" ∷ "session" ∷ [])

  unfoldable pub restart : Json → Exec (Bench lab) Json
  restart target = do
    old ← link_session
    _ ← post lab "/device/action" (some (action_named "reboot"))
    sleep lab 2000
    _ ← wait_ready lab true old (any_state lab)
    value ← device_config
    lift (require_interval "persisted" target value)
    pure value

  unfoldable pub rollback : ℕ → Exec (Bench lab) Json
  unfolding apply_value
  rollback target = do
    apply_value (int (pos (target + 200)))
    _ ← post lab "/config/rollback" none
    sleep lab 1500
    result ← device_config
    lift (require_interval "effective" (int (pos target)) result)
    pure result

  unfoldable pub automatic : ℕ → Exec (Bench lab) Json
  unfolding apply_value
  automatic target = do
    apply_value (int (pos (target + 300)))
    sleep lab 33000
    result ← device_config
    lift (require_settled "effective" (int (pos target)) result)
    pure result

  -- The name of a network that is not there.
  network_patch : String → Json
  network_patch name = obj (
      field "device"
        (obj (
          field "wifi.ssid" (str ("u2-no-ap-" <> name))
            (field "wifi.password" (str "not-a-real-network-key") end)))
        end)

  unfoldable pub random_name : Exec (Bench lab) String
  random_name = outside lab (λ s. let (name, s') = lab.new_name s in (ok name, s'))

  unfoldable pub bad_wifi : Exec (Bench lab) Json
  unfolding network_patch random_name
  bad_wifi = do
    before ← get_at lab "/config" ("device" ∷ "persisted" ∷ [])
    lift (unconfigured before)
    name ← random_name
    _ ← patch (network_patch name) 200
    sleep lab 2000
    _ ← request lab "/config/confirm" "POST" none 400
    sleep lab 33000
    after ← device_config
    lift (wifi_restored before after)
    pure after

  -- `config_restore = original`
  unfoldable pub remember : Json → Exec (Bench lab) (Unit {0})
  remember original b = (ok tt, record b { config_restore = original })

  -- `target`: another interval than the original one.
  pub other_interval : Json → ℕ
  unfolding equals
  other_interval original = if not (equals original (int (pos 1300))) then 1300 else 1400

  setting_patch : String → ℕ → Json
  setting_patch name value = obj (field "device" (obj (field name (int (pos value)) end)) end)

  unfoldable pub restore_pending : Json → Exec (Bench lab) Json
  unfolding truthy
  restore_pending snapshot = do
    pending ← lift (item "pending" snapshot)
    if truthy pending
        then (do _ ← post lab "/config/rollback" none; sleep lab 2000; device_config)
        else pure snapshot

  unfoldable pub write_back : Json → Json → Exec (Bench lab) (Unit {0})
  write_back original snapshot = do
    same ← lift (interval_is "persisted" original snapshot)
    if same then pure tt else (do
      _ ← patch (telemetry_patch original) 200
      sleep lab 1500
      _ ← post lab "/config/confirm" none
      pure tt)

  -- `restore`
  unfoldable pub restore : Json → Exec (Bench lab) Json
  unfolding restore_pending write_back
  restore original = do
    first ← device_config
    snapshot ← restore_pending first
    write_back original snapshot
    restored ← device_config
    lift (require_settled "persisted" original restored)
    pure (obj (field "original_telemetry_interval_ms" original (field "restored" (bool true) end)))

  module _ (lower_other : ℕ → List ℕ) where
    abbrev check_case : String → Exec (Bench lab) Json → Exec (Bench lab) Json
    check_case name action = check lab lower_other name action

    -- The cases, once the original interval is remembered.
    unfoldable pub configuration_cases : Json → ℕ → Exec (Bench lab) (Unit {0})
    unfolding confirm restart rollback automatic bad_wifi setting_patch
    configuration_cases original target = do
      _ ← check_case "config-confirm" (confirm (int (pos target)))
      _ ← check_case "restart-persists-confirmed-config" (restart (int (pos target)))
      _ ← check_case "explicit-rollback" (rollback target)
      _ ← check_case "confirmation-timeout-rollback" (automatic target)
      _ ← check_case "restore-original-configuration" (confirm original)
      _ ← check_case "invalid-setting-rejected" (patch (setting_patch interval 1) 400)
      _ ← check_case "valid-setting-immediately-after-rejection" (confirm original)
      _ ← check_case "usb-uart-change-rejected" (patch (setting_patch "uart.baud" 230400) 400)
      _ ← check_case "valid-setting-after-unsupported-uart" (confirm original)
      _ ← check_case "bad-wifi-cannot-confirm-and-auto-rolls-back" bad_wifi
      pure tt

    unfoldable pub configuration : Exec (Bench lab) (Unit {0})
    unfolding remember other_interval configuration_cases
    configuration = do
      original ← get_at lab "/config" ("device" ∷ "persisted" ∷ interval ∷ [])
      remember original
      configuration_cases original (other_interval original)
