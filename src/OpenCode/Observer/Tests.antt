-- ===== src/OpenCode/Observer/Tests.antt =====
-- Runs of the observer, and instances of its theorems.
use uart2llm.Prelude.{◌+◌, ◌-◌, ◌*◌, ◌/◌, ◌<◌, some, ltb, arith}
use uart2llm.Prelude.Int.{pos, pos_part}
use uart2llm.Python.Error.{ok, ◌>>=◌}
use uart2llm.Python.Float.{Arithmetic}
use uart2llm.Python.Json.{int, str, obj, arr, nil, cons, field, end}
use uart2llm.OpenCode.Observer.{Post, Observer, new_observer, do_post, leave_request}
use uart2llm.OpenCode.Observer.Bounds.{IsValid, posted, left, done, next, Steps-IsValid}

abbrev arithmetic : Arithmetic
arithmetic = record {
  add = λ x y. x + y;
  sub = λ x y. x - y;
  mul = λ x y. x * y;
  div = λ x y. x / y;
  less = ltb;
  of_int = pos_part;
  round3 = λ x. x;
}

abbrev observer : Observer
observer = new_observer "secret" 64 1536 1200

abbrev post : Post
post = record {
  path = "/v1/chat/completions";
  authorization = some "Bearer secret";
  content_length = ok (pos 80);
  transfer_encoding = "";
  payload = ok (
      obj (
        field "model" (str "deepseek-flash") (
          field "max_tokens" (int (pos 16))
            (field "messages" (arr (cons (obj (field "role" (str "user") end)) nil)) end))));
}

one_active : 0 < (do_post arithmetic "deepseek-flash" post 7 observer).1.active
unfolding do_post ◌>>=◌
one_active = omega arith

observer-IsValid : IsValid observer
observer-IsValid = record {
  within_limit = omega arith;
  active = omega arith;
  peak = omega arith;
  numbered = tt;
  bounded = tt;
}

Steps-IsValid_example :
    IsValid (leave_request (do_post arithmetic "deepseek-flash" post 7 observer).1)
Steps-IsValid_example =
    Steps-IsValid arithmetic "deepseek-flash" observer _
      (next (posted post 7 observer) (next (left _ one_active) (done _))) observer-IsValid
