-- ===== src/Redaction/Independence.antt =====
-- What stands under a secret name has no influence on what `sanitize` makes of a value.
use uart2llm.Prelude.{
  ℕ, String, true, false, List, ◌≡◌, refl, sym, ap, ◌&&◌, and-eq-true, Bool-cases, inl, inr,
}
use uart2llm.Python.Json.{Json, arr, obj, Items, nil, cons, Fields, end, field}
use uart2llm.Redaction.{
  is_counter, is_natural, result, is_secret, fate, sanitize, sanitize_items, sanitize_fields,
}

module _ (lower_other : ℕ → List ℕ) where
  -- Two values that differ, at any depth, only in what fields with a secret name hold, where neither
  -- field is a counter with a natural number.
  mutual
    pub data Alike : Json → Json → Type 0 where
      same : (v : Json) → Alike v v
      alike_obj : {fs gs : Fields} → AlikeFields fs gs → Alike (obj fs) (obj gs)
      alike_arr : {vs ws : Items} → AlikeItems vs ws → Alike (arr vs) (arr ws)

    pub data AlikeItems : Items → Items → Type 0 where
      no_items : AlikeItems nil nil
      alike_item :
          {v w : Json} {vs ws : Items}
          → Alike v w
          → AlikeItems vs ws
          → AlikeItems (cons v vs) (cons w ws)

    pub data AlikeFields : Fields → Fields → Type 0 where
      no_fields : AlikeFields end end
      alike_field :
          {k : String} {v w : Json} {fs gs : Fields}
          → Alike v w
          → AlikeFields fs gs
          → AlikeFields (field k v fs) (field k w gs)
      secret_field :
          {k : String} {v w : Json} {fs gs : Fields}
          → is_secret lower_other k ≡ true
          → (is_counter k && is_natural v) ≡ false
          → (is_counter k && is_natural w) ≡ false
          → AlikeFields fs gs
          → AlikeFields (field k v fs) (field k w gs)

  natural-Alike : {v w : Json} → Alike v w → is_natural v ≡ is_natural w
  natural-Alike (same v) = refl
  natural-Alike (alike_obj h) = unfold is_natural in refl
  natural-Alike (alike_arr h) = unfold is_natural in refl

  same_natural : {v w : Json} → Alike v w → is_natural v ≡ true → v ≡ w
  unfolding is_natural
  same_natural (same v) n = refl
  same_natural (alike_obj h) n = cc
  same_natural (alike_arr h) n = cc

  -- What is kept of two fields that are alike.
  result_alike :
      (k : String) (v w x y : Json)
      → is_natural v ≡ is_natural w
      → (is_natural v ≡ true → v ≡ w)
      → x ≡ y
      → result (fate lower_other k v) v x ≡ result (fate lower_other k w) w y
  unfolding fate
  result_alike k v w x y n eq h = elim (Bool-cases (is_counter k && is_natural v)) [
    | inl e ↦ let p : v ≡ w = eq (and-eq-true _ _ e).1 in rw (sym n, e) p
    | inr e ↦ elim (Bool-cases (is_secret lower_other k)) [
      | inl s ↦ rw (sym n, e, s)
      | inr s ↦ rw (sym n, e, s) h
    ]
  ]

  result_secret :
      (k : String) (v w x y : Json)
      → is_secret lower_other k ≡ true
      → (is_counter k && is_natural v) ≡ false
      → (is_counter k && is_natural w) ≡ false
      → result (fate lower_other k v) v x ≡ result (fate lower_other k w) w y
  unfolding fate
  result_secret k v w x y s a b = rw (a, b, s)

  mutual
    unfolding sanitize

    alike : {v w : Json} → Alike v w → sanitize lower_other v ≡ sanitize lower_other w
    alike (same v) = refl
    alike (alike_obj h) = ap obj (alike_fields h)
    alike (alike_arr h) = ap arr (alike_items h)

    alike_items :
        {vs ws : Items}
        → AlikeItems vs ws
        → sanitize_items lower_other vs ≡ sanitize_items lower_other ws
    alike_items no_items = refl
    alike_items (alike_item h later) = cc (alike h, alike_items later)

    alike_fields :
        {fs gs : Fields}
        → AlikeFields fs gs
        → sanitize_fields lower_other fs ≡ sanitize_fields lower_other gs
    alike_fields no_fields = refl
    alike_fields (alike_field {k = k} {v = v} {w = w} h later) =
        cc (result_alike k v w _ _ (natural-Alike h) (same_natural h) (alike h), alike_fields later)
    alike_fields (secret_field {k = k} {v = v} {w = w} s a b later) = cc (
      result_secret k v w (sanitize lower_other v) (sanitize lower_other w) s a b,
      alike_fields later,
    )

  -- Two values that differ only in what fields with a secret name hold, at any depth, and not in the
  -- natural number of a counter, are sanitized to the same value.
  pub sanitize-Alike : {v w : Json} → Alike v w → sanitize lower_other v ≡ sanitize lower_other w
  sanitize-Alike h = alike h
