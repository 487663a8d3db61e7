-- ===== src/Redaction/Laws.antt =====
-- What the shared `sanitize` leaves under a secret name.
use uart2llm.Prelude.{ℕ, String, true, List, ◌≡◌, ◌⊎◌, inl, inr, ◌&&◌, arith, Bool-cases}
use uart2llm.Python.Json.{
  Json, null, bool, int, float, str, arr, obj, Items, nil, cons, Fields, end, field,
}
use uart2llm.Redaction.{
  is_counter, is_natural, redacted, result, is_secret, fate, sanitize, sanitize_items,
  sanitize_fields,
}

module _ (lower_other : ℕ → List ℕ) where
  -- At every depth, a field with a secret name holds the mark or a counter's number.
  mutual
    pub IsClean : Json → Type 0
    IsClean (obj fs) = IsCleanFields fs
    IsClean (arr vs) = IsCleanItems vs
    IsClean null = Unit
    IsClean (bool _) = Unit
    IsClean (int _) = Unit
    IsClean (float _) = Unit
    IsClean (str _) = Unit

    pub IsCleanItems : Items → Type 0
    IsCleanItems nil = Unit
    IsCleanItems (cons v vs) = IsClean v × IsCleanItems vs

    pub IsCleanFields : Fields → Type 0
    IsCleanFields end = Unit
    IsCleanFields (field k v fs) =
        (is_secret lower_other k ≡ true
          → (v ≡ redacted) ⊎ ((is_counter k ≡ true) × (is_natural v ≡ true)))
        × IsClean v
        × IsCleanFields fs

  natural-IsClean : (v : Json) → is_natural v ≡ true → IsClean v
  unfolding is_natural IsClean
  natural-IsClean (obj fs) h = cc
  natural-IsClean (arr vs) h = cc
  natural-IsClean _ h = tt

  result-IsClean :
      (k : String) (v w : Json) → IsClean w → IsClean (result (fate lower_other k v) v w)
  unfolding fate
  result-IsClean k v w h = elim (Bool-cases (is_counter k && is_natural v)) [
    | inl e ↦ rw e (natural-IsClean v (ground arith))
    | inr e ↦ elim (Bool-cases (is_secret lower_other k)) [
      | inl s ↦ rw (e, s) (unfold IsClean in tt)
      | inr s ↦ rw (e, s) h
    ]
  ]

  result_hides :
      (k : String) (v w : Json)
      → is_secret lower_other k ≡ true
      → (result (fate lower_other k v) v w ≡ redacted)
        ⊎ ((is_counter k ≡ true) × (is_natural (result (fate lower_other k v) v w) ≡ true))
  unfolding fate
  result_hides k v w s = elim (Bool-cases (is_counter k && is_natural v)) [
    | inl e ↦ inr (ground arith, rw e (ground arith))
    | inr e ↦ inl (rw (e, s))
  ]

  mutual
    unfolding sanitize IsClean

    clean : (v : Json) → IsClean (sanitize lower_other v)
    clean (obj fs) = clean_fields fs
    clean (arr vs) = clean_items vs
    clean null = tt
    clean (bool _) = tt
    clean (int _) = tt
    clean (float _) = tt
    clean (str _) = tt

    clean_items : (vs : Items) → IsCleanItems (sanitize_items lower_other vs)
    clean_items nil = tt
    clean_items (cons v vs) = (clean v, clean_items vs)

    clean_fields : (fs : Fields) → IsCleanFields (sanitize_fields lower_other fs)
    clean_fields end = tt
    clean_fields (field k v fs) = (
      result_hides k v (sanitize lower_other v),
      result-IsClean k v (sanitize lower_other v) (clean v),
      clean_fields fs,
    )

  -- After `sanitize`, at every depth, a field whose lower-case name contains a secret word holds
  -- "[redacted]", or it is one of the named counters and holds a natural number.
  pub sanitize-IsClean : (v : Json) → IsClean (sanitize lower_other v)
  sanitize-IsClean v = clean v
