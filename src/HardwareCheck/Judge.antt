-- ===== src/HardwareCheck/Judge.antt =====
-- scripts/hardware-check.py: what the checks read off the answers of the gateway.
use uart2llm.Prelude.{
  ℕ, ◌*◌, String, Bool, true, false, List, [], ◌∷◌, not, ◌&&◌, ◌||◌, leb, any, if◌then◌else◌,
}
use uart2llm.Prelude.Int.{pos, negsuc}
use uart2llm.Python.Error.{Result, ok, raise, ◌>>=◌, ◌>>◌, raise_if, assertion_error, type_error}
use uart2llm.Python.Float.{float_is, Arithmetic}
use uart2llm.Python.Json
use uart2llm.Python.Json.{
  Json, null, bool, int, float, str, arr, obj, empty, or_empty, truthy, equals_ℕ, equals_str,
  iterate, item_at, item,
}
use uart2llm.Python.Json.Equality.{hashable, equals, is_null}

-- `assert test, message`
abbrev pub require : Bool → String → Result (Unit {0})
require test message = raise_if (not test) (assertion_error message)

-- `wait_ready`, on one state: whether the device is paired and in a session other than the old one.
unfoldable pub ready_state : Bool → Json → Json → Result Bool
unfolding Json.get truthy equals
ready_state paired old state = do
  conn ← Json.get "connection" empty state
  link ← Json.get "link" empty conn
  session ← Json.get "session" null link
  if not paired then ok true else (do
    flag ← Json.get "paired" null conn
    if not (truthy flag) then ok false else (do
      device ← Json.get "device" null state
      own ← Json.get "session" null (or_empty device)
      ok (equals own session && (is_null old || not (equals session old)))))

-- `v >= n` for a natural number n
unfoldable pub at_least : Arithmetic → ℕ → Json → Result Bool
unfolding float_is
at_least fl n (int (pos m)) = ok (leb n m)
at_least fl n (int (negsuc m)) = ok false
at_least fl n (bool true) = ok (leb n 1)
at_least fl n (bool false) = ok (leb n 0)
at_least fl n (float x) = ok (fl.less (fl.of_int (pos n)) x || float_is n x)
at_least fl n null = raise type_error
at_least fl n (str _) = raise type_error
at_least fl n (arr _) = raise type_error
at_least fl n (obj _) = raise type_error

-- `[v['id'] for v in values]`
unfoldable pub task_ids : List Json → Result (List Json)
unfolding item
task_ids [] = ok []
task_ids (v ∷ vs) = do id ← item "id" v; rest ← task_ids vs; ok (id ∷ rest)

unfoldable pub distinct : List Json → Bool
unfolding equals
distinct [] = true
distinct (v ∷ vs) = not (any (equals v) vs) && distinct vs

-- `len(set(ids)) == len(ids)`
unfoldable pub no_duplicates : List Json → Result Bool
unfolding distinct hashable
no_duplicates ids = if any (λ v. not (hashable v)) ids then raise type_error else ok (distinct ids)

-- The ids of one answer to `/tasks`, without duplicates.
unfoldable pub tasks_distinct : String → Json → Result (Unit {0})
unfolding item task_ids no_duplicates iterate
tasks_distinct message value = do
  device ← item "device" value
  tasks ← iterate device
  ids ← task_ids tasks
  distinct_ids ← no_duplicates ids
  require distinct_ids message

-- The checks after a restart of the soak.
unfoldable pub restarted_well : Arithmetic → Json → Result (Unit {0})
unfolding item_at at_least truthy
restarted_well fl state = do
  crash ← item_at ("device" ∷ "crash" ∷ "available" ∷ []) state
  require (not (truthy crash)) ""
  free ← item_at ("device" ∷ "memory" ∷ "internal_free" ∷ []) state
  enough ← at_least fl 32768 free
  require enough "low internal heap after restart"
  block ← item_at ("device" ∷ "memory" ∷ "largest_internal_block" ∷ []) state
  large ← at_least fl 16384 block
  require large "fragmented internal heap after restart"

-- The checks of one round of the soak, against the session at its start.
unfoldable pub soak_state : Arithmetic → Json → Json → Result (Unit {0})
unfolding item_at at_least truthy equals
soak_state fl session state = do
  now ← item_at ("connection" ∷ "link" ∷ "session" ∷ []) state
  require (equals now session) "unexpected session restart"
  crash ← item_at ("device" ∷ "crash" ∷ "available" ∷ []) state
  require (not (truthy crash)) "new coredump"
  free ← item_at ("device" ∷ "memory" ∷ "internal_free" ∷ []) state
  enough ← at_least fl 32768 free
  require enough "internal heap exhausted"

-- The state of a device that has fallen back to its old image.
unfoldable pub rolled_back : Json → Json → Result (Unit {0})
unfolding item_at equals equals_ℕ truthy
rolled_back old_slot state = do
  slot ← item_at ("device" ∷ "ota" ∷ "running_partition" ∷ []) state
  require (equals slot old_slot) "unconfirmed candidate did not roll back"
  image ← item_at ("device" ∷ "ota" ∷ "image_state" ∷ []) state
  require (equals_ℕ 2 image) "fallback image is not valid"
  crash ← item_at ("device" ∷ "crash" ∷ "available" ∷ []) state
  require (not (truthy crash)) "rollback produced a coredump"

-- `s['device']['ota']['image_state'] == 2`
unfoldable pub image_confirmed : Json → Result Bool
unfolding item_at equals_ℕ
image_confirmed state = do
  image ← item_at ("device" ∷ "ota" ∷ "image_state" ∷ []) state
  ok (equals_ℕ 2 image)

-- The state of a device that runs the new image.
unfoldable pub activated : Json → Json → Result (Unit {0})
unfolding item_at equals image_confirmed
activated old_slot state = do
  slot ← item_at ("device" ∷ "ota" ∷ "running_partition" ∷ []) state
  require (not (equals slot old_slot)) "OTA did not select the other slot"
  confirmed ← image_confirmed state
  require confirmed "candidate image was not confirmed valid"

-- The device that every phase needs.
unfoldable pub capable : Json → Result (Unit {0})
unfolding item equals_ℕ
capable device = do
  flash ← item "flash_bytes" device
  if not (equals_ℕ (16 * 1024 * 1024) flash)
      then raise (assertion_error "")
      else (do psram ← item "psram_bytes" device; require (equals_ℕ (8 * 1024 * 1024) psram) "")

-- The device that the phases beyond the smoke test need.
unfoldable pub validation_build : Json → Result (Unit {0})
unfolding item equals_str truthy
validation_build device = do
  transport ← item "transport" device
  if not (equals_str "usb_serial_jtag_validation" transport)
      then raise (assertion_error "This test phase requires the USB validation build")
      else (do
        supported ← item "uart_configuration_supported" device
        require (not (truthy supported)) "This test phase requires the USB validation build")

abbrev pub interval : String
interval = "telemetry.interval_ms"

-- `device[view]['telemetry.interval_ms'] == value`
unfoldable pub interval_is : String → Json → Json → Result Bool
unfolding item_at equals
interval_is view value device = do v ← item_at (view ∷ interval ∷ []) device; ok (equals v value)

unfoldable pub require_interval : String → Json → Json → Result (Unit {0})
unfolding interval_is
require_interval view value device = do same ← interval_is view value device; require same ""

-- `not device['pending'] and ...`
unfoldable pub require_settled : String → Json → Json → Result (Unit {0})
unfolding item truthy require_interval
require_settled view value device = do
  pending ← item "pending" device
  if truthy pending then raise (assertion_error "") else require_interval view value device

unfoldable pub unconfigured : Json → Result (Unit {0})
unfolding item truthy
unconfigured persisted = do
  ssid ← item "wifi.ssid" persisted
  require (not (truthy ssid)) "bad-Wi-Fi test requires an unconfigured board"

-- The configuration after a network that could not be confirmed.
unfoldable pub wifi_restored : Json → Json → Result (Unit {0})
unfolding item item_at truthy equals
wifi_restored before after = do
  pending ← item "pending" after
  if truthy pending then raise (assertion_error "") else (do
    persisted ← item "persisted" after
    require (equals persisted before) ""
    ssid ← item_at ("effective" ∷ "wifi.ssid" ∷ []) after
    old ← item "wifi.ssid" before
    require (equals ssid old) "")

-- `assert value[k1][k2]... == expected, message`
unfoldable pub require_item : List String → Json → String → Json → Result (Unit {0})
unfolding item_at equals
require_item keys expected message value = do
  v ← item_at keys value
  require (equals v expected) message

unfoldable pub require_false : List String → String → Json → Result (Unit {0})
unfolding item_at truthy
require_false keys message value = do v ← item_at keys value; require (not (truthy v)) message
