-- ===== src/Acceptance/Endpoint.antt =====
-- scripts/acceptance.py: `Endpoint`, the client side of one gateway address, and the part of
-- `http.client` that it uses: what a request brings back is a parameter, the server.
pub mod Connections
pub mod Threads
mod Tests
use Prim.Native.String.{◌++◌ as ◌<>◌}
use uart2llm.Prelude.{
  ℕ, ◌+◌, ◌*◌, String, Bool, true, false, Option, none, some, List, [], ◌∷◌, not, ◌==◌, str_eq, ltb,
  if◌then◌else◌, length, take, drop,
}
use uart2llm.Python.Dict.{insert}
use uart2llm.Python.Error.{Error, Result, ok, raise}
use uart2llm.Python.Exec.{Exec, lift, finally, ◌>>=◌}
use uart2llm.Python.Json.{Json}
use uart2llm.Acceptance.Multipart.{MultipartBody}

abbrev pub model : String
model = "uart2llm-acceptance-fixture-v1"

abbrev pub json_limit : ℕ
json_limit = 128 * 1024

-- A response body: the bytes that arrive, and the exception that a read past them raises.
pub record Body : Type 0 where
  pub bytes : List ℕ
  pub broken : Option Error

pub record Response : Type 0 where
  pub status : ℕ
  pub content_type : String
  pub body : Body

-- `response.read(n)`
unfoldable pub read_body : ℕ → Body → Result (List ℕ × Body)
read_body n b =
    let rest = record b { bytes = drop n b.bytes } in
    let got = ok (take n b.bytes, rest) in
    if ltb (length b.bytes) n then elim b.broken [ none ↦ got | some e ↦ raise e ] else got

pub data Payload : Type 0 where
  no_body : Payload
  text_body : List ℕ → Payload
  file_body : MultipartBody → Payload

pub record Request : Type 0 where
  pub https : Bool
  pub host : String
  pub port : ℕ
  pub method : String
  pub target : String
  pub body : Payload
  pub headers : List (String × String)

-- `active` is the set of the connections that are open, by the number of their opening; the order of
-- the list stands for no order of the set. `closed` lists what was closed, the latest first.
pub record Endpoint : Type 0 where
  pub https : Bool
  pub host : String
  pub port : Option ℕ
  pub base_path : String
  pub token : String
  pub opened : ℕ
  pub active : List ℕ
  pub closed : List ℕ

-- `self.active.add(conn)`, under the lock.
abbrev pub add_active : Endpoint → Endpoint
add_active ep = record ep { opened = ep.opened + 1; active = ep.opened ∷ ep.active }

-- `set.discard`
pub discard : ℕ → List ℕ → List ℕ
discard c [] = []
discard c (d ∷ ds) = let rest = discard c ds in if c == d then rest else d ∷ rest

-- `close`
unfoldable pub close : ℕ → Endpoint → Endpoint
unfolding discard
close conn ep = record ep { active = discard conn ep.active; closed = conn ∷ ep.closed }

-- The loop of `abort`, over a copy of `active`, where no other thread does anything meanwhile; the
-- shutdown of the socket, whose errors are ignored, is left out.
close_all : List ℕ → Endpoint → Endpoint
unfolding close
close_all [] ep = ep
close_all (conn ∷ rest) ep = close_all rest (close conn ep)

pub abort : Endpoint → Endpoint
unfolding close_all
abort ep = close_all ep.active ep

-- `port or default`: a port of 0 counts as none.
port_or : ℕ → Option ℕ → ℕ
port_or default none = default
port_or default (some p) = if p == 0 then default else p

with_headers : List (String × String) → List (String × String) → List (String × String)
with_headers base [] = base
with_headers base ((k, v) ∷ rest) = with_headers (insert k v base) rest

request_of : Endpoint → String → String → Payload → List (String × String) → Request
unfolding port_or with_headers
request_of ep method path body headers = record {
  https = ep.https;
  host = ep.host;
  port = port_or (if ep.https then 443 else 80) ep.port;
  method = method;
  target = ep.base_path <> path;
  body = body;
  headers =
      with_headers (("Authorization", "Bearer " <> ep.token) ∷ ("Connection", "close") ∷ [])
        headers;
}

-- What the runner uses from outside: the gateway behind `http.client`, and the text format of JSON,
-- `dumps` for `json.dumps(...).encode()`, `dumps_utf8` for the same with `ensure_ascii=False` and `loads` for `json.loads` of bytes or of a text,
-- `decode` for `bytes.decode("utf-8")`, `show` for `str` of a number.
pub record World : Type 0 where
  pub server : Request → Result Response
  pub dumps : Json → List ℕ
  pub dumps_utf8 : Json → List ℕ
  pub loads : List ℕ → Result Json
  pub loads_text : String → Result Json
  pub decode : List ℕ → Result String
  pub show : ℕ → String

module _ (w : World) where
  -- What `open` returns or raises, once the server has answered.
  opened_with : ℕ → Result Response → Exec Endpoint (ℕ × Response)
  unfolding close
  opened_with conn (ok response) ep = (ok (conn, response), ep)
  opened_with conn (raise e) ep = (raise e, close conn ep)

  pub open_request :
      String → String → Payload → List (String × String) → Exec Endpoint (ℕ × Response)
  unfolding request_of opened_with
  open_request method path body headers ep =
      opened_with ep.opened (w.server (request_of ep method path body headers)) (add_active ep)

  -- `conn, response, _ = endpoint.open(...)`, then `try: work(response) finally: close(conn)`
  unfoldable pub exchange :
      {A : Type 0}
      → String
      → String
      → Payload
      → List (String × String)
      → (Response → Result A)
      → Exec Endpoint A
  unfolding open_request close
  exchange method path body headers work = do
    answer ← open_request method path body headers
    finally (lift (work answer.1)) (close answer.0)
