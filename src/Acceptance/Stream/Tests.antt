-- ===== src/Acceptance/Stream/Tests.antt =====
-- A run of `stream_work`, and instances of its theorems.
use uart2llm.Prelude.{◌≤◌, arith, All, ◌≡◌, refl, true, some, length}
use uart2llm.Python.Error.{ok, ◌>>=◌}
use uart2llm.Python.Json.{str, obj, field, end}
use uart2llm.Python.Loop.{Ends}
use uart2llm.Python.Text.{occurs_in}
use uart2llm.Acceptance.Samples.{world, clock, stream_body, stream_response}
use uart2llm.Acceptance.Stream.{StreamState, start, read_stream, stream_reply, take_line}
use uart2llm.Acceptance.Stream.Lines.{split_lines}
use uart2llm.Acceptance.Stream.Laws.{account, Finished, read_stream_total}
use uart2llm.Acceptance.Stream.Verdict.{Verified, Complete, stream_reply-Verified}
use uart2llm.Acceptance.Stream.Completeness.{read_stream_complete, stream_reply_accepts}

abbrev last_state : StreamState
last_state = record {
  count = 21;
  first = some 8;
  content = "你好，串口";
  arguments = "2";
  usage = true;
  extension = true;
  done = true;
}

account_body : account world clock (split_lines stream_body.bytes) start ≡ ok last_state
unfolding account split_lines take_line ◌>>=◌
account_body = refl

read_stream_total_example :
    Ends (Finished world clock stream_body.bytes) (read_stream world clock stream_body)
read_stream_total_example = read_stream_total world clock stream_body

read_stream_complete_example : read_stream world clock stream_body ≡ some (ok last_state)
read_stream_complete_example =
    read_stream_complete world clock stream_body last_state refl lines_short short_body account_body
  where
    lines_short : All (λ line. length line ≤ 8192) (split_lines stream_body.bytes)
    lines_short = unfold split_lines in (omega arith, (omega arith, tt))

    short_body : length stream_body.bytes ≤ 65536
    short_body = omega arith

last_state-Complete : Complete world clock last_state
last_state-Complete = record {
  done = refl;
  content = refl;
  usage = refl;
  extension = refl;
  arguments = (obj (field "value" (str "中文") end), refl, refl);
}

stream_reply_accepts_example : stream_reply world clock stream_response ≡ ok (21, some 8)
unfolding occurs_in
stream_reply_accepts_example =
    stream_reply_accepts world clock stream_response last_state refl refl refl
      (unfold split_lines in (omega arith, (omega arith, tt))) (omega arith) account_body
      last_state-Complete

stream_reply-Verified_example : Verified world clock stream_response (21, some 8)
unfolding occurs_in
stream_reply-Verified_example =
    stream_reply-Verified world clock stream_response (21, some 8)
      (stream_reply_accepts world clock stream_response last_state refl refl refl
        (unfold split_lines in (omega arith, (omega arith, tt))) (omega arith) account_body
        last_state-Complete)
