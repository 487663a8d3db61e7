-- ===== src/Redaction/Tests.antt =====
-- Runs of the two `sanitize` functions, and instances of their theorems.
use uart2llm.Prelude.{ℕ, List, [], ◌∷◌, ◌≡◌, refl}
use uart2llm.Prelude.Int.{pos}
use uart2llm.Python.Json.{Json, null, int, str, arr, obj, nil, cons, end, field}
use uart2llm.Python.Text.{lower, occurs_in}
use uart2llm.Redaction.{
  is_natural, is_counter, is_secret, fate, sanitize, strict_sanitize, redacted,
}
use uart2llm.Redaction.Laws.{IsClean, sanitize-IsClean}
use uart2llm.Redaction.Independence.{
  Alike, same, alike_obj, alike_field, secret_field, no_fields, sanitize-Alike,
}
use uart2llm.Redaction.Strict.{IsHidden, strict_sanitize-IsHidden}

-- A Unicode table that leaves every character outside ASCII as it is.
abbrev caseless : ℕ → List ℕ
caseless c = c ∷ []

abbrev report : Json
report = obj (
    field "wifi" (obj (field "WiFi_SSID" (str "home") end)) (
      field "usage" (arr (cons (obj (field "total_tokens" (int (pos 9)) end)) nil))
        (field "prompt_tokens" (str "leak") end)))

report_cleaned :
    sanitize caseless report
    ≡ obj (
        field "wifi" (obj (field "WiFi_SSID" redacted end)) (
          field "usage"
            (arr (cons (obj (field "total_tokens" (int (pos 9)) end)) nil))
            (field "prompt_tokens" redacted end)))
unfolding sanitize fate is_counter is_natural is_secret lower occurs_in
report_cleaned = refl

sanitize-IsClean_example : IsClean caseless (sanitize caseless report)
sanitize-IsClean_example = sanitize-IsClean caseless report

-- The same report with other secrets.
abbrev other_report : Json
other_report = obj (
    field "wifi" (obj (field "WiFi_SSID" (arr nil) end)) (
      field "usage" (arr (cons (obj (field "total_tokens" (int (pos 9)) end)) nil))
        (field "prompt_tokens" null end)))

reports-Alike : Alike caseless report other_report
unfolding is_secret is_counter is_natural lower occurs_in
reports-Alike = alike_obj (
    alike_field (alike_obj (secret_field refl refl refl no_fields))
      (alike_field (same _) (secret_field refl refl refl no_fields)))

sanitize-Alike_example : sanitize caseless report ≡ sanitize caseless other_report
sanitize-Alike_example = sanitize-Alike caseless reports-Alike

strict_sanitize-IsHidden_example : IsHidden caseless (strict_sanitize caseless report)
strict_sanitize-IsHidden_example = strict_sanitize-IsHidden caseless report
