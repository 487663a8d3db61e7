-- ===== src/HardwareCheck/Soak.antt =====
-- scripts/hardware-check.py: `soak`, and the answers that `tasks_snapshot` and `export_crash` check.
use Prim.Native.String.{◌++◌ as ◌<>◌}
use uart2llm.Prelude.{
  ℕ, zero, suc, ◌+◌, ◌-◌, ◌*◌, String, true, List, [], ◌∷◌, ◌++◌, none, some, Option, ltb, length,
  if◌then◌else◌,
}
use uart2llm.Prelude.Int.{pos}
use uart2llm.Python.Error.{Result, ok, raise, runtime_error, type_error}
use uart2llm.Python.Exec.{Exec, pure, lift, ◌>>=◌, ◌>>◌}
use uart2llm.Python.Float.{Arithmetic}
use uart2llm.Python.Json.{
  Json, null, bool, int, float, str, arr, obj, field, end, Items, nil, cons, item, item_at, truthy,
}
use uart2llm.HardwareCheck.Judge.{tasks_distinct, restarted_well, soak_state}
use uart2llm.HardwareCheck.Bench.{
  Lab, Bench, PartialSoak, outside, sleep, read_clock, get, post, check, wait_ready, any_state,
}
use uart2llm.HardwareCheck.Configuration.{link_session, action_named}

module _ (lab : Lab) where
  unfoldable pub tasks_snapshot : Exec (Bench lab) Json
  tasks_snapshot = do
    value ← get lab "/tasks"
    lift (tasks_distinct "duplicate task IDs across pages" value)
    pure value

  -- `base64.b64decode` takes text only.
  decoded_data : Json → Result (List ℕ)
  decoded_data (str s) = lab.decode_base64 s
  decoded_data null = raise type_error
  decoded_data (bool _) = raise type_error
  decoded_data (int _) = raise type_error
  decoded_data (float _) = raise type_error
  decoded_data (arr _) = raise type_error
  decoded_data (obj _) = raise type_error

  -- The coredump goes to a new private file; the report names its size and digest only.
  unfoldable pub export_crash : Exec (Bench lab) Json
  unfolding decoded_data
  export_crash = do
    value ← post lab "/diagnostics" (some (action_named "crash_export"))
    text ← lift (item "data" value)
    data_bytes ← lift (decoded_data text)
    path ← outside lab (lab.store_private data_bytes)
    pure (
        obj (
          field "bytes" (int (pos (length data_bytes)))
            (field "sha256" (str (lab.sha256 data_bytes)) (field "private_file" (str path) end))))

  unfoldable pub reboot : Arithmetic → Exec (Bench lab) Json
  reboot fl = do
    old ← link_session lab
    _ ← post lab "/device/action" (some (action_named "reboot"))
    sleep lab 2000
    state ← wait_ready lab true old (any_state lab)
    lift (restarted_well fl state)
    pure state

  -- `report['partial_soak']`
  unfoldable pub note_progress : Option PartialSoak → Exec (Bench lab) (Unit {0})
  note_progress progress b = (ok tt, record b { partial_soak = progress })

  -- One more round, with its sample.
  unfoldable pub one_more : PartialSoak → ℕ → Json → PartialSoak
  one_more progress ms memory = record progress {
    rounds_completed = progress.rounds_completed + 1;
    samples = progress.samples ++ ((ms, memory) ∷ []);
  }

  unfoldable pub add_sample : PartialSoak → ℕ → Json → Exec (Bench lab) PartialSoak
  unfolding note_progress one_more
  add_sample progress ms memory = do
    note_progress (some (one_more progress ms memory))
    sleep lab 1000
    pure (one_more progress ms memory)

  -- One round of the load: its sample is the time since the start, and the memory.
  unfoldable pub load_round : Arithmetic → Json → ℕ → PartialSoak → Exec (Bench lab) PartialSoak
  unfolding add_sample
  load_round fl own start progress = do
    state ← get lab "/state"
    lift (soak_state fl own state)
    tasks ← get lab "/tasks"
    lift (tasks_distinct "duplicate task pagination" tasks)
    _ ← get lab "/config"
    _ ← get lab "/logs"
    _ ← post lab "/diagnostics" (some (action_named "health"))
    now ← read_clock lab
    memory ← lift (item_at ("device" ∷ "memory" ∷ []) state)
    add_sample progress (now - start) memory

  -- The loop of `load`, on fuel: each round pauses for a second.
  unfoldable pub load_rounds :
      ℕ → Arithmetic → Json → ℕ → ℕ → PartialSoak → Exec (Bench lab) PartialSoak
  unfolding load_round
  load_rounds zero fl own start deadline progress b =
      (raise (runtime_error "the loop did not end"), b)
  load_rounds (suc fuel) fl own start deadline progress b =
      let (r, b') = load_round fl own start progress b in
      let more : PartialSoak → Result PartialSoak × Bench lab =
        λ next. load_rounds fuel fl own start deadline next b' in
      if ltb (lab.now b.state) deadline
      then elim r [ raise e ↦ (raise e, b') | ok next ↦ more next ]
      else (ok progress, b)

  samples_json : List (ℕ × Json) → Items
  samples_json [] = nil
  samples_json ((ms, memory) ∷ samples) =
      cons (obj (field "elapsed_seconds" (lab.seconds ms) (field "memory" memory end)))
        (samples_json samples)

  -- `load` from its first entry in the report on, for a time in seconds; a round takes a second.
  unfoldable pub load_measured : Arithmetic → ℕ → ℕ → Json → PartialSoak → Exec (Bench lab) Json
  unfolding note_progress load_rounds samples_json
  load_measured fl duration start own first = do
    note_progress (some first)
    done ← load_rounds (suc duration) fl own start (start + 1000 * duration) first
    final ← get lab "/state"
    note_progress none
    now ← read_clock lab
    pure (
        obj (
          field "duration_seconds" (lab.seconds (now - start)) (
            field "rounds" (int (pos done.rounds_completed))
              (field "samples" (arr (samples_json done.samples)) (field "final" final end)))))

  unfoldable pub load : Arithmetic → ℕ → Exec (Bench lab) Json
  unfolding load_measured
  load fl duration = do
    start ← read_clock lab
    own ← link_session lab
    load_measured fl duration start own
        (record { session = own; rounds_completed = 0; samples = [] })

  module _ (lower_other : ℕ → List ℕ) where
    abbrev check_case : String → Exec (Bench lab) Json → Exec (Bench lab) Json
    check_case name action = check lab lower_other name action

    -- The restarts, numbered by the texts given.
    unfoldable pub restarts : Arithmetic → List String → Exec (Bench lab) (Unit {0})
    unfolding reboot
    restarts fl [] = pure tt
    restarts fl (index ∷ later) = do
      _ ← check_case ("repeated-startup-" <> index) (reboot fl)
      restarts fl later

    unfoldable pub archive : Exec (Bench lab) (Unit {0})
    unfolding export_crash truthy
    archive = do
      state ← wait_ready lab true null (any_state lab)
      available ← lift (item_at ("device" ∷ "crash" ∷ "available" ∷ []) state)
      if truthy available
          then (do _ ← check_case "archive-coredump-before-clearing" export_crash; pure tt)
          else pure tt

    unfoldable pub soak : Arithmetic → ℕ → Exec (Bench lab) (Unit {0})
    unfolding archive restarts load
    soak fl duration = do
      archive
      _ ←
          check_case "clear-preserved-coredump"
            (post lab "/device/action" (some (action_named "clear_crash")))
      restarts fl ("1" ∷ "2" ∷ "3" ∷ "4" ∷ "5" ∷ [])
      _ ← check_case "management-soak-no-restart-or-new-coredump" (load fl duration)
      pure tt
