-- ===== src/Acceptance/Transfer.antt =====
-- scripts/acceptance.py: `Endpoint.json`, `upload_work` and `download_work`.
pub mod Download
pub mod Replies
mod Tests
use Prim.Native.String.{◌++◌ as ◌<>◌}
use uart2llm.Prelude.{
  ℕ, ◌+◌, ◌*◌, String, Bool, true, false, Option, none, some, List, [], ◌∷◌, not, ◌||◌, ◌==◌,
  str_eq, ltb, if◌then◌else◌, length,
}
use uart2llm.Python.Error.{
  Error, Result, ok, raise, ◌>>=◌, ◌>>◌, raise_if, runtime_error, type_error, key_error,
}
use uart2llm.Python.Exec
use uart2llm.Python.Exec.{Exec, lift}
use uart2llm.Python.Float.{Float}
use uart2llm.Python.Json
use uart2llm.Python.Json.{
  Json, Items, Fields, null, bool, int, float, str, arr, obj, nil, cons, field, end, empty, lookup,
  equals_ℕ, equals_str, truthy,
}
use uart2llm.Python.Loop.{Round, again, leave, loop}
use uart2llm.Acceptance.Pattern.{chunk, Sha}
use uart2llm.Acceptance.Multipart.{MultipartBody, multipart_body, boundary}
use uart2llm.Acceptance.Endpoint.{
  model, json_limit, Body, Response, Endpoint, World, Payload, no_body, text_body, file_body,
  read_body, exchange,
}

module _ (w : World) where
  -- The `try` block of `Endpoint.json`.
  pub json_reply : Response → Result Json
  unfolding read_body
  json_reply response = do
    raise_if (not (response.status == 200)) (runtime_error "HTTP status")
    answer ← read_body (json_limit + 1) response.body
    raise_if (ltb json_limit (length answer.0))
        (runtime_error "JSON response exceeds acceptance harness limit")
    w.loads answer.0

  unfoldable pub json_request : String → String → Option Json → Exec Endpoint Json
  unfolding json_reply
  json_request method path none = exchange w method path no_body [] json_reply
  json_request method path (some value) =
      let body = w.dumps_utf8 value in
      exchange w method path (text_body body)
        (("Content-Type", "application/json") ∷ ("Content-Length", w.show (length body)) ∷ [])
        json_reply

  pub upload_reply : ℕ → String → Response → Result (ℕ × Option Float)
  unfolding read_body equals_ℕ equals_str Json.get
  upload_reply size expected response = do
    answer ← read_body (json_limit + 1) response.body
    raise_if (not (response.status == 200) || ltb json_limit (length answer.0))
        (runtime_error "upload returned HTTP status or oversized JSON")
    value ← w.loads answer.0
    count ← Json.get "bytes" null value
    digest ← Json.get "sha256" null value
    raise_if (not (equals_ℕ size count) || not (equals_str expected digest))
        (runtime_error "upload size or SHA-256 mismatch")
    ok (size, none)

  unfoldable pub upload_work : ℕ → String → Exec Endpoint (ℕ × Option Float)
  unfolding upload_reply
  upload_work size expected =
      let body = multipart_body size in
      exchange w "POST" "/v1/files" (file_body body)
        (("Content-Type", "multipart/form-data; boundary=" <> boundary)
          ∷ ("Content-Length", w.show body.body_length)
          ∷ ("X-Expected-Sha256", expected)
          ∷ [])
        (upload_reply size expected)

module _ (w : World) (h : Sha) where
  -- The variables of the download loop.
  pub record DownloadState : Type 0 where
    pub rest : Body
    pub count : ℕ
    pub digest : h.State

  -- The body of `while data := response.read(CHUNK)`.
  pub with_block : ℕ → DownloadState → List ℕ → Body → Round DownloadState (Result (ℕ × h.State))
  with_block size s [] rest = leave (ok (s.count, s.digest))
  with_block size s (x ∷ xs) rest =
      if ltb size (s.count + length (x ∷ xs))
      then leave (raise (runtime_error "download exceeded declared fixture size"))
      else again (record {
        rest = rest;
        count = s.count + length (x ∷ xs);
        digest = h.update s.digest (x ∷ xs);
      })

  pub download_round : ℕ → DownloadState → Round DownloadState (Result (ℕ × h.State))
  unfolding read_body with_block
  download_round size s = elim (read_body chunk s.rest) [
    | raise e ↦ leave (raise e)
    | ok (block, rest) ↦ with_block size s block rest
  ]

  -- Each round reads at least one byte of at most `size`.
  pub download_loop : ℕ → Body → Option (Result (ℕ × h.State))
  unfolding download_round loop
  download_loop size b =
      loop (download_round size) (size + 2) (record { rest = b; count = 0; digest = h.start })

  -- The tests after the loop.
  pub check_download : ℕ → String → Option (Result (ℕ × h.State)) → Result (ℕ × Option Float)
  check_download size expected none = raise (runtime_error "the loop did not end")
  check_download size expected (some r) = do
    answer ← r
    raise_if (not (answer.0 == size) || not (str_eq (h.hexdigest answer.1) expected))
        (runtime_error "download size or SHA-256 mismatch")
    ok (answer.0, none)

  pub download_reply : ℕ → String → Response → Result (ℕ × Option Float)
  unfolding download_loop check_download
  download_reply size expected response = do
    raise_if (not (response.status == 200)) (runtime_error "download returned HTTP status")
    check_download size expected (download_loop size response.body)

  unfoldable pub download_work : ℕ → String → Exec Endpoint (ℕ × Option Float)
  unfolding download_reply
  download_work size expected =
      exchange w "GET" ("/v1/files/fixture-pattern/content?size=" <> w.show size) no_body []
        (download_reply size expected)
