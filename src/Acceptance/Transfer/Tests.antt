-- ===== src/Acceptance/Transfer/Tests.antt =====
-- Runs of the download, the upload and the JSON requests, and instances of their theorems.
use uart2llm.Prelude.{ℕ, ◌≤◌, ◌≡◌, refl, Option, none, length, codes}
use uart2llm.Prelude.Int.{pos}
use uart2llm.Python.Error.{ok, ◌>>=◌}
use uart2llm.Python.Float.{Float}
use uart2llm.Python.Json
use uart2llm.Python.Json.{Json, str, int, obj, field, end, equals_ℕ, equals_str}
use uart2llm.Acceptance.Samples.{world, recorder, recorder-Streams, file_response, marks}
use uart2llm.Acceptance.Endpoint.{json_limit, Response, read_body}
use uart2llm.Acceptance.Transfer.{json_reply, upload_reply, download_reply}
use uart2llm.Acceptance.Transfer.Download.{
  IsExpected, download_reply_accepted, download_reply_accepts,
}
use uart2llm.Acceptance.Transfer.Replies.{Stored, json_reply_accepted, upload_reply_accepted}

abbrev one_byte : ℕ × Option Float
one_byte = (1, none)

file_response-IsExpected : IsExpected world recorder recorder-Streams 1 "x" file_response
unfolding marks
file_response-IsExpected = record { status = refl; whole = refl; digest = refl }

download_reply_accepts_example : download_reply world recorder 1 "x" file_response ≡ ok (1, none)
download_reply_accepts_example =
    download_reply_accepts world recorder recorder-Streams 1 "x" file_response refl
      file_response-IsExpected

download_reply_accepted_example :
    IsExpected world recorder recorder-Streams 1 "x" file_response × (one_byte ≡ one_byte)
download_reply_accepted_example =
    download_reply_accepted world recorder recorder-Streams 1 "x" file_response one_byte (
      download_reply_accepts world recorder recorder-Streams 1 "x" file_response refl
        file_response-IsExpected)

abbrev upload_response : Response
upload_response = record {
  status = 200;
  content_type = "application/json";
  body = record { bytes = codes "3"; broken = none };
}

abbrev reported : Json
reported = obj (field "bytes" (int (pos 1)) (field "sha256" (str "x") end))

json_reply_value : json_reply world upload_response ≡ ok reported
unfolding json_reply read_body ◌>>=◌
json_reply_value = refl

json_reply_accepted_example :
    (upload_response.status ≡ 200)
    × (length upload_response.body.bytes ≤ json_limit)
    × (world.loads upload_response.body.bytes ≡ ok reported)
json_reply_accepted_example = json_reply_accepted world upload_response reported json_reply_value

upload_reply_count : upload_reply world 1 "x" upload_response ≡ ok (1, none)
unfolding upload_reply read_body ◌>>=◌ Json.get equals_ℕ equals_str
upload_reply_count = refl

upload_reply_accepted_example : Stored world 1 "x" upload_response × (one_byte ≡ one_byte)
upload_reply_accepted_example =
    upload_reply_accepted world 1 "x" upload_response one_byte upload_reply_count
