-- ===== src/OpenCode/Tests.antt =====
-- scripts/opencode-check.py: the reading of a response at a concrete input.
use uart2llm.Prelude.{ℕ, refl, false, List, [], ◌∷◌, length, codes}
use uart2llm.Python.Error.{Result, ok, raise, value_error}
use uart2llm.Python.Json.{null}
use uart2llm.OpenCode.Forward.{Response, Reader, forward_chunks}
use uart2llm.OpenCode.Forward.ErrorBody.{Begins, forward_chunks-Begins}

abbrev no_reader : Reader
no_reader = record {
  loads = λ line. raise (value_error "no JSON");
  text_of = λ v. "0";
  encoded_length = λ s. length (codes s);
}

abbrev fresh_response : Response
fresh_response = record {
  status = 503;
  response_bytes = 0;
  response_seen = [];
  error_body = [];
  received = [];
  done = false;
  events = 0;
  usage = null;
  finish_reason = null;
  reasoning_bytes = 0;
  tool_calls = [];
}

two_chunks : List (Result (Unit {0}) × List ℕ)
two_chunks = (ok tt, codes "busy") ∷ (ok tt, codes "later") ∷ []

nothing_yet : Begins fresh_response
nothing_yet status = refl

forward_chunks-Begins_example : Begins (forward_chunks no_reader two_chunks fresh_response).1
forward_chunks-Begins_example =
    forward_chunks-Begins no_reader two_chunks fresh_response nothing_yet
