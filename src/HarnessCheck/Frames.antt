-- ===== src/HarnessCheck/Frames.antt =====
-- scripts/harness-check.py: what an event does not touch of the follower's count of frames.
use uart2llm.Prelude.{
  ℕ, ◌+◌, ◌≡◌, refl, ◌∙◌, String, Bool, true, false, List, [], ◌∷◌, if◌then◌else◌,
}
use uart2llm.Python.Error.{Result, ok, raise}
use uart2llm.Python.Exec.{Exec, pure, lift, continue, ◌>>=◌, ◌>>◌}
use uart2llm.Python.Float.{Arithmetic}
use uart2llm.Python.Json
use uart2llm.Python.Json.{Json, null, item, equals_str}
use uart2llm.HarnessCheck.Values.{TextTools, markers_in}
use uart2llm.HarnessCheck.Tools.{Tool}
use uart2llm.HarnessCheck.Follow.{
  Follow, Attempt, modify, read_field, count_more, add_gap, add_markers, set_attempt, chunk_frame,
  end_frame, stream_frame,
}
use uart2llm.HarnessCheck.Events.{
  check_sequence, add_texts, request_header, catalog_entry, assistant_message, tool_call,
  result_block, result_blocks, tool_result,
}
use uart2llm.HarnessCheck.Records.{
  by_kind, check_bounds, new_event, event, snapshot_events, snapshot, consume,
}

-- The frames that came, and their bytes.
abbrev pub frames : Follow → ℕ × ℕ
frames f = (f.frame_count, f.received_bytes)

-- The action counts no frame.
pub record Keeps {A : Type 0} (act : Exec Follow A) : Type 0 where
  pub same : (f : Follow) → frames (act f).1 ≡ frames f

continue-Keeps :
    {A B : Type 0} (r : Result A) (k : A → Exec Follow B) (f : Follow)
    → ((a : A) → Keeps (k a))
    → frames (continue r k f).1 ≡ frames f
continue-Keeps (raise e) k f h = refl
continue-Keeps (ok a) k f h = (h a).same f

Keeps-bind :
    {A B : Type 0} (m : Exec Follow A) (k : A → Exec Follow B)
    → Keeps m
    → ((a : A) → Keeps (k a))
    → Keeps (m >>= k)
Keeps-bind m k h g = record { same = λ f. continue-Keeps (m f).0 k (m f).1 g ∙ h.same f }

Keeps-lift : {A : Type 0} (r : Result A) → Keeps (lift r)
Keeps-lift r = record { same = λ f. refl }

Keeps-read_field : {A : Type 0} (part : Follow → A) → Keeps (read_field part)
Keeps-read_field part = record { same = λ f. refl }

Keeps-modify :
    (change : Follow → Follow)
    → ((f : Follow) → frames (change f) ≡ frames f)
    → Keeps (modify change)
Keeps-modify change h = record { same = h }

Keeps-if :
    {A : Type 0} (c : Bool) (m n : Exec Follow A) → Keeps m → Keeps n → Keeps (if c then m else n)
Keeps-if true m n h g = h
Keeps-if false m n h g = g

Keeps-count_more : (n : ℕ) (key : Json) → Keeps (count_more n key)
unfolding count_more
Keeps-count_more n key = record { same = λ f. refl }

Keeps-add_gap : (what : String) → Keeps (add_gap what)
unfolding add_gap
Keeps-add_gap what = record { same = λ f. refl }

Keeps-add_markers : (found : List String) → Keeps (add_markers found)
unfolding add_markers
Keeps-add_markers found = record { same = λ f. refl }

Keeps-set_attempt : (id : Json) (attempt : Attempt) → Keeps (set_attempt id attempt)
unfolding set_attempt
Keeps-set_attempt id attempt = record { same = λ f. refl }

ruleset follow_steps = (
  Keeps-count_more, Keeps-add_gap, Keeps-add_markers, Keeps-set_attempt, Keeps-lift,
  Keeps-read_field, Keeps-if, Keeps-bind, Keeps-modify, refl,
)

Keeps-stream_frame : (frame : Json) → Keeps (stream_frame frame)
unfolding stream_frame chunk_frame end_frame
Keeps-stream_frame frame = search follow_steps depth 40

Keeps-check_sequence :
    (fl : Arithmetic) (opening : Bool) (seq : Json) → Keeps (check_sequence fl opening seq)
unfolding check_sequence
Keeps-check_sequence fl opening seq = search follow_steps depth 40

Keeps-request_header : (data_of : Json) → Keeps (request_header data_of)
unfolding request_header
Keeps-request_header data_of = search follow_steps depth 40

Keeps-catalog_entry : (data_of : Json) → Keeps (catalog_entry data_of)
unfolding catalog_entry
Keeps-catalog_entry data_of = search follow_steps depth 40

Keeps-add_texts : (t : TextTools) (texts : List String) → Keeps (add_texts t texts)
unfolding add_texts
Keeps-add_texts t [] = search follow_steps
Keeps-add_texts t (text ∷ texts) =
    Keeps-bind (modify (λ f. record f { text_bytes = f.text_bytes + t.encoded_length text }))
      (λ u. add_markers (markers_in text) >> add_texts t texts) (Keeps-modify _ (λ f. refl))
      (λ u.
        Keeps-bind (add_markers (markers_in text)) (λ v. add_texts t texts)
          (Keeps-add_markers (markers_in text)) (λ v. Keeps-add_texts t texts))

Keeps-assistant_message :
    (t : TextTools) (fl : Arithmetic) (data_of : Json) → Keeps (assistant_message t fl data_of)
unfolding assistant_message
Keeps-assistant_message t fl data_of = search (Keeps-add_texts, follow_steps) depth 40

Keeps-tool_call : (t : TextTools) (data_of : Json) → Keeps (tool_call t data_of)
unfolding tool_call
Keeps-tool_call t data_of = search follow_steps depth 40

Keeps-result_block : (t : TextTools) (block : Json) → Keeps (result_block t block)
unfolding result_block
Keeps-result_block t block = search follow_steps depth 40

Keeps-result_blocks : (t : TextTools) (blocks : List Json) → Keeps (result_blocks t blocks)
unfolding result_blocks
Keeps-result_blocks t [] = search follow_steps
Keeps-result_blocks t (block ∷ blocks) =
    Keeps-bind (lift (Json.get "type" null block)) _ (Keeps-lift _) (λ kind.
      Keeps-bind (if equals_str "tool-result" kind then result_block t block else pure tt)
        (λ u. result_blocks t blocks)
        (Keeps-if _ (result_block t block) (pure tt) (Keeps-result_block t block)
          (Keeps-lift (ok tt)))
        (λ u. Keeps-result_blocks t blocks))

Keeps-tool_result : (t : TextTools) (data_of : Json) → Keeps (tool_result t data_of)
unfolding tool_result
Keeps-tool_result t data_of = search (Keeps-result_blocks, follow_steps) depth 40

Keeps-check_bounds : Keeps check_bounds
unfolding check_bounds
Keeps-check_bounds = record { same = λ f. refl }

Keeps-by_kind :
    (t : TextTools) (fl : Arithmetic) (kind data_of : Json) (brief : Tool)
    → Keeps (by_kind t fl kind data_of brief)
unfolding by_kind
Keeps-by_kind t fl kind data_of brief =
    search
      (
        Keeps-request_header, Keeps-catalog_entry, Keeps-assistant_message, Keeps-tool_call,
        Keeps-tool_result, follow_steps,
      )
      depth 40

Keeps-new_event :
    (t : TextTools) (fl : Arithmetic) (opening : Bool) (value seq kind data_of : Json)
    → Keeps (new_event t fl opening value seq kind data_of)
unfolding new_event
Keeps-new_event t fl opening value seq kind data_of =
    search (Keeps-check_sequence, Keeps-by_kind, Keeps-check_bounds, follow_steps) depth 40

Keeps-event :
    (t : TextTools) (fl : Arithmetic) (opening : Bool) (value : Json)
    → Keeps (event t fl opening value)
unfolding event
Keeps-event t fl opening value = search (Keeps-new_event, follow_steps) depth 40

Keeps-snapshot_events :
    (t : TextTools) (fl : Arithmetic) (entries : List Json) → Keeps (snapshot_events t fl entries)
unfolding snapshot_events
Keeps-snapshot_events t fl [] = search follow_steps
Keeps-snapshot_events t fl (entry ∷ entries) =
    let inner = lift (item "event" entry) >>= λ value. event t fl true value in
    Keeps-bind (lift (Json.get "type" null entry)) _ (Keeps-lift _) (λ kind.
      Keeps-bind (if equals_str "event" kind then inner else pure tt)
        (λ u. snapshot_events t fl entries)
        (Keeps-if _ inner (pure tt)
          (Keeps-bind (lift (item "event" entry)) (λ value. event t fl true value)
            (Keeps-lift (item "event" entry)) (λ value. Keeps-event t fl true value))
          (Keeps-lift (ok tt)))
        (λ u. Keeps-snapshot_events t fl entries))

Keeps-snapshot : (t : TextTools) (fl : Arithmetic) (value : Json) → Keeps (snapshot t fl value)
unfolding snapshot
Keeps-snapshot t fl value = search (Keeps-snapshot_events, follow_steps) depth 40

pub Keeps-consume : (t : TextTools) (fl : Arithmetic) (value : Json) → Keeps (consume t fl value)
unfolding consume
Keeps-consume t fl value =
    search (Keeps-snapshot, Keeps-event, Keeps-stream_frame, follow_steps) depth 40
