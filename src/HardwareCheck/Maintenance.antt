-- ===== src/HardwareCheck/Maintenance.antt =====
-- scripts/hardware-check.py: `maintenance`, the update of the board's firmware, and the fallback of
-- an image that was not confirmed.
use uart2llm.Prelude.{
  ℕ, zero, suc, ◌*◌, String, Bool, true, List, [], ◌∷◌, none, some, ◌&&◌, ◌==◌, leb, length, take,
  if◌then◌else◌,
}
use uart2llm.Python.Error.{Result, ok, raise, index_error}
use uart2llm.Python.Exec.{Exec, pure, lift, ◌>>=◌, ◌>>◌}
use uart2llm.Python.Json.{Json, item_at}
use uart2llm.HardwareCheck.Judge.{
  require, require_item, require_false, rolled_back, activated, image_confirmed,
}
use uart2llm.HardwareCheck.Bench.{
  Lab, Bench, outside, sleep, expect_status, get, post, get_at, check, wait_ready, any_state,
}
use uart2llm.HardwareCheck.Configuration.{action_named}

-- `bytes(n)`
zeros : ℕ → List ℕ
zeros zero = []
zeros (suc n) = 0 ∷ zeros n

-- The image begins with the magic byte and fits the partition.
pub check_image : List ℕ → Result (Unit {0})
check_image [] = raise index_error
check_image (b ∷ bs) = require (b == 0xE9 && leb (length (b ∷ bs)) (4 * 1024 * 1024)) ""

module _ (lab : Lab) where
  unfoldable pub upload : List ℕ → ℕ → ℕ → Exec (Bench lab) Json
  upload bytes timeout expected = outside lab (λ s.
      let (answer, s') = lab.upload bytes timeout s in (expect_status lab expected answer, s'))

  unfoldable pub interrupted : List ℕ → Exec (Bench lab) Json
  interrupted image = do
    outside lab (lab.begin_upload (length image) (take 4096 image))
    sleep lab 2000
    outside lab (λ s. (ok tt, lab.drop_upload s))
    sleep lab 3000
    state ← get lab "/state"
    lift (require_false ("host" ∷ "firmware_upload" ∷ []) "" state)
    pure state

  -- Twenty seconds, as often as given.
  unfoldable pub stay_offline : ℕ → Exec (Bench lab) (Unit {0})
  stay_offline zero = pure tt
  stay_offline (suc n) = sleep lab 20000 >> stay_offline n

  -- The persisted configuration is still the original one.
  unfoldable pub same_configuration : Json → String → Exec (Bench lab) (Unit {0})
  same_configuration original message = do
    value ← get lab "/config"
    lift (require_item ("device" ∷ "persisted" ∷ []) original message value)

  unfoldable pub unconfirmed_candidate : Json → Json → Json → Exec (Bench lab) Json
  unfolding stay_offline same_configuration
  unconfirmed_candidate original old_session old_slot = do
    _ ← post lab "/device/action" (some (action_named "reboot"))
    _ ← post lab "/shutdown" none
    outside lab (lab.await_exit 10)
    stay_offline 7
    outside lab (λ s. (ok tt, lab.start_daemon s))
    state ← wait_ready lab true old_session (any_state lab)
    lift (rolled_back old_slot state)
    same_configuration original "rollback changed persisted configuration"
    pure state

  unfoldable pub activation : Json → Json → Json → Exec (Bench lab) Json
  unfolding same_configuration
  activation original old_session old_slot = do
    _ ← post lab "/device/action" (some (action_named "reboot"))
    sleep lab 2000
    state ← wait_ready lab true old_session image_confirmed
    lift (activated old_slot state)
    same_configuration original "OTA changed persisted configuration"
    pure state

  module _ (lower_other : ℕ → List ℕ) where
    abbrev check_case : String → Exec (Bench lab) Json → Exec (Bench lab) Json
    check_case name action = check lab lower_other name action

    -- The two cases of the maintenance phase before the upload.
    unfoldable pub refusals : List ℕ → ℕ → Exec (Bench lab) (Unit {0})
    unfolding upload interrupted zeros
    refusals image timeout = do
      _ ← check_case "corrupt-image-rejected" (upload (zeros 1024) timeout 502)
      _ ← check_case "interrupted-upload-releases-maintenance" (interrupted image)
      pure tt

    -- The upload, and the last case: of the rollback phase, or of the maintenance phase.
    unfoldable pub replace_image : Bool → List ℕ → ℕ → Exec (Bench lab) (Unit {0})
    unfolding upload unconfirmed_candidate activation
    replace_image rollback image timeout = do
      original ← get_at lab "/config" ("device" ∷ "persisted" ∷ [])
      before ← get lab "/state"
      old_session ← lift (item_at ("connection" ∷ "link" ∷ "session" ∷ []) before)
      old_slot ← lift (item_at ("device" ∷ "ota" ∷ "running_partition" ∷ []) before)
      _ ← check_case "valid-image-upload" (upload image timeout 200)
      _ ←
          (if rollback
            then check_case "unconfirmed-candidate-rolls-back-with-host-offline"
                (unconfirmed_candidate original old_session old_slot)
            else check_case "ota-new-slot-self-test-and-config-preservation"
                (activation original old_session old_slot))
      pure tt

    unfoldable pub maintenance : Bool → List ℕ → ℕ → Exec (Bench lab) (Unit {0})
    unfolding check_image refusals replace_image
    maintenance rollback image timeout = do
      lift (check_image image)
      if rollback then pure tt else refusals image timeout
      replace_image rollback image timeout
