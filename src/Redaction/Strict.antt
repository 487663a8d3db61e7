-- ===== src/Redaction/Strict.antt =====
-- The stricter `sanitize` of scripts/hardware-check.py, which has no exception for counters.
use uart2llm.Prelude.{ℕ, String, true, List, ◌≡◌, inl, inr, Bool-cases}
use uart2llm.Python.Json.{
  Json, null, bool, int, float, str, arr, obj, Items, nil, cons, Fields, end, field,
}
use uart2llm.Redaction.{
  redacted, result, is_secret, strict_fate, strict_sanitize, strict_items, strict_fields,
}

module _ (lower_other : ℕ → List ℕ) where
  -- At every depth, a field with a secret name holds the mark.
  mutual
    pub IsHidden : Json → Type 0
    IsHidden (obj fs) = AreHiddenFields fs
    IsHidden (arr vs) = AreHidden vs
    IsHidden null = Unit
    IsHidden (bool _) = Unit
    IsHidden (int _) = Unit
    IsHidden (float _) = Unit
    IsHidden (str _) = Unit

    pub AreHidden : Items → Type 0
    AreHidden nil = Unit
    AreHidden (cons v vs) = IsHidden v × AreHidden vs

    pub AreHiddenFields : Fields → Type 0
    AreHiddenFields end = Unit
    AreHiddenFields (field k v fs) =
        (is_secret lower_other k ≡ true → v ≡ redacted) × IsHidden v × AreHiddenFields fs

  result-IsHidden :
      (k : String) (v w : Json) → IsHidden w → IsHidden (result (strict_fate lower_other k) v w)
  unfolding strict_fate
  result-IsHidden k v w h = elim (Bool-cases (is_secret lower_other k)) [
    | inl s ↦ rw s (unfold IsHidden in tt)
    | inr s ↦ rw s h
  ]

  result_marked :
      (k : String) (v w : Json)
      → is_secret lower_other k ≡ true
      → result (strict_fate lower_other k) v w ≡ redacted
  unfolding strict_fate
  result_marked k v w s = rw s

  mutual
    unfolding strict_sanitize IsHidden

    hidden : (v : Json) → IsHidden (strict_sanitize lower_other v)
    hidden (obj fs) = hidden_fields fs
    hidden (arr vs) = hidden_items vs
    hidden null = tt
    hidden (bool _) = tt
    hidden (int _) = tt
    hidden (float _) = tt
    hidden (str _) = tt

    hidden_items : (vs : Items) → AreHidden (strict_items lower_other vs)
    hidden_items nil = tt
    hidden_items (cons v vs) = (hidden v, hidden_items vs)

    hidden_fields : (fs : Fields) → AreHiddenFields (strict_fields lower_other fs)
    hidden_fields end = tt
    hidden_fields (field k v fs) = (
      result_marked k v (strict_sanitize lower_other v),
      result-IsHidden k v (strict_sanitize lower_other v) (hidden v),
      hidden_fields fs,
    )

  -- After the stricter `sanitize`, at every depth, every field whose lower-case name contains a secret
  -- word holds "[redacted]", the counters of tokens among them.
  pub strict_sanitize-IsHidden : (v : Json) → IsHidden (strict_sanitize lower_other v)
  strict_sanitize-IsHidden v = hidden v
