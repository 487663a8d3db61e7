-- ===== src/Python/Json/Texts.antt =====
-- Comparing a JSON value with a text.
use uart2llm.Prelude.{String, ◌≡◌, sym, ap, eq_iff, true}
use uart2llm.Python.Json.{Json, null, bool, int, float, str, arr, obj, equals_str}

pub equals_str-eq : (s : String) (v : Json) → equals_str s v ≡ true → v ≡ str s
unfolding equals_str
equals_str-eq s (str t) h = ap str (sym ((eq_iff s t).0 h))
equals_str-eq s null h = cc
equals_str-eq s (bool _) h = cc
equals_str-eq s (int _) h = cc
equals_str-eq s (float _) h = cc
equals_str-eq s (arr _) h = cc
equals_str-eq s (obj _) h = cc
