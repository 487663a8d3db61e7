-- ===== src/Redaction.antt =====
-- scripts/hardware_check_support.py: `sanitize`, and the stricter `sanitize` of
-- scripts/hardware-check.py. Both rewrite a JSON value before it enters a report.
pub mod Laws
pub mod Independence
pub mod Strict
mod Tests
use uart2llm.Prelude.{
  ℕ, String, Bool, true, false, List, [], ◌∷◌, ◌&&◌, codes, any, str_eq, if◌then◌else◌,
}
use uart2llm.Prelude.Int.{pos, negsuc}
use uart2llm.Python.Json.{
  Json, null, bool, int, float, str, arr, obj, Items, nil, cons, Fields, end, field,
}
use uart2llm.Python.Text.{occurs_in, lower}

abbrev pub counters : List String
counters =
    "prompt_tokens" ∷ "completion_tokens" ∷ "total_tokens" ∷ "cached_tokens" ∷ "reasoning_tokens"
    ∷ "prompt_cache_hit_tokens" ∷ "prompt_cache_miss_tokens" ∷ []

abbrev pub secret_words : List String
secret_words = "password" ∷ "token" ∷ "ssid" ∷ "bssid" ∷ "username" ∷ "upstream_key" ∷ []

-- `k in counters`
pub is_counter : String → Bool
is_counter k = any (str_eq k) counters

-- `type(v) is int and v >= 0`
pub is_natural : Json → Bool
is_natural (int (pos n)) = true
is_natural (int (negsuc n)) = false
is_natural null = false
is_natural (bool _) = false
is_natural (float _) = false
is_natural (str _) = false
is_natural (arr _) = false
is_natural (obj _) = false

abbrev pub redacted : Json
redacted = str "[redacted]"

-- What becomes of a field: kept as it is, hidden, or sanitized in turn.
pub data Fate : Type 0 where
  keep hide descend : Fate

abbrev pub result : Fate → Json → Json → Json
result keep v w = v
result hide v w = redacted
result descend v w = w

module _ (lower_other : ℕ → List ℕ) where
  pub is_secret : String → Bool
  is_secret k =
      let name = lower lower_other (codes k) in
      any (λ word. occurs_in (codes word) name) secret_words

  pub fate : String → Json → Fate
  fate k v = if is_counter k && is_natural v then keep else if is_secret k then hide else descend

  mutual
    pub sanitize : Json → Json
    sanitize (obj fs) = obj (sanitize_fields fs)
    sanitize (arr vs) = arr (sanitize_items vs)
    sanitize null = null
    sanitize (bool b) = bool b
    sanitize (int n) = int n
    sanitize (float x) = float x
    sanitize (str s) = str s

    pub sanitize_items : Items → Items
    sanitize_items nil = nil
    sanitize_items (cons v vs) = cons (sanitize v) (sanitize_items vs)

    pub sanitize_fields : Fields → Fields
    sanitize_fields end = end
    sanitize_fields (field k v fs) = field k (result (fate k v) v (sanitize v)) (sanitize_fields fs)

  -- scripts/hardware-check.py's own version has no list of counters.
  pub strict_fate : String → Fate
  strict_fate k = if is_secret k then hide else descend

  mutual
    pub strict_sanitize : Json → Json
    strict_sanitize (obj fs) = obj (strict_fields fs)
    strict_sanitize (arr vs) = arr (strict_items vs)
    strict_sanitize null = null
    strict_sanitize (bool b) = bool b
    strict_sanitize (int n) = int n
    strict_sanitize (float x) = float x
    strict_sanitize (str s) = str s

    pub strict_items : Items → Items
    strict_items nil = nil
    strict_items (cons v vs) = cons (strict_sanitize v) (strict_items vs)

    pub strict_fields : Fields → Fields
    strict_fields end = end
    strict_fields (field k v fs) =
        field k (result (strict_fate k) v (strict_sanitize v)) (strict_fields fs)
