-- ===== src/Python/Json.antt =====
-- The values that `json.loads` returns, and how the scripts read them. A dict keeps its fields in
-- insertion order, and a key that is there twice counts by its first entry.
pub mod Equality
pub mod Texts
use uart2llm.Prelude.{
  ℕ, zero, suc, String, Bool, true, false, Option, none, some, List, [], ◌∷◌, not, ◌==◌, str_eq,
  if◌then◌else◌,
}
use uart2llm.Prelude.Int.{ℤ, pos, negsuc}
use uart2llm.Python.Error.{
  Result, ok, raise, attribute_error, type_error, key_error, index_error, ◌>>=◌,
}
use uart2llm.Python.Float.{Float, float_is}

mutual
  pub data Json : Type 0 where
    null : Json
    bool : Bool → Json
    int : ℤ → Json
    float : Float → Json
    str : String → Json
    arr : Items → Json
    obj : Fields → Json

  pub data Items : Type 0 where
    nil : Items
    cons : Json → Items → Items

  pub data Fields : Type 0 where
    end : Fields
    field : String → Json → Fields → Fields

abbrev pub empty : Json
empty = obj end

abbrev pub items : Items → List Json
items nil = []
items (cons v vs) = v ∷ items vs

unfoldable pub lookup : String → Fields → Option Json
lookup k end = none
lookup k (field j v fs) = if str_eq j k then some v else lookup k fs

abbrev pub or_default : Json → Option Json → Json
or_default d none = d
or_default d (some v) = v

-- `v.get(k, d)`; only a dict has `get`.
unfoldable pub get : String → Json → Json → Result Json
unfolding lookup
get k d (obj fs) = ok (or_default d (lookup k fs))
get k d null = raise attribute_error
get k d (bool _) = raise attribute_error
get k d (int _) = raise attribute_error
get k d (float _) = raise attribute_error
get k d (str _) = raise attribute_error
get k d (arr _) = raise attribute_error

-- `bool(v)`
unfoldable pub truthy : Json → Bool
unfolding float_is
truthy null = false
truthy (bool b) = b
truthy (int (pos zero)) = false
truthy (int (pos (suc n))) = true
truthy (int (negsuc n)) = true
truthy (float x) = not (float_is 0 x)
truthy (str s) = not (str_eq s "")
truthy (arr nil) = false
truthy (arr (cons v vs)) = true
truthy (obj end) = false
truthy (obj (field k v fs)) = true

-- `v == n` for a natural number `n`: an integer, a float or a bool may equal it.
unfoldable pub equals_ℕ : ℕ → Json → Bool
unfolding float_is
equals_ℕ n (int (pos m)) = n == m
equals_ℕ n (bool true) = n == 1
equals_ℕ n (bool false) = n == 0
equals_ℕ n (float x) = float_is n x
equals_ℕ n null = false
equals_ℕ n (int (negsuc m)) = false
equals_ℕ n (str s) = false
equals_ℕ n (arr vs) = false
equals_ℕ n (obj fs) = false

-- `v == s` for a text `s`
unfoldable pub equals_str : String → Json → Bool
equals_str s (str t) = str_eq s t
equals_str s null = false
equals_str s (bool _) = false
equals_str s (int _) = false
equals_str s (float _) = false
equals_str s (arr _) = false
equals_str s (obj _) = false

-- `v is True`
unfoldable pub is_true : Json → Bool
is_true (bool b) = b
is_true null = false
is_true (int _) = false
is_true (float _) = false
is_true (str _) = false
is_true (arr _) = false
is_true (obj _) = false

abbrev pub is_dict : Json → Bool
is_dict (obj _) = true
is_dict null = false
is_dict (bool _) = false
is_dict (int _) = false
is_dict (float _) = false
is_dict (str _) = false
is_dict (arr _) = false

-- A dict's keys, which iterating over it yields.
keys : Fields → List Json
keys end = []
keys (field k v fs) = str k ∷ keys fs

characters : String → List Json
characters String.[] = []
characters (String.◌∷◌ c s) = str (String.◌∷◌ c String.[]) ∷ characters s

-- `for x in v`
unfoldable pub iterate : Json → Result (List Json)
unfolding keys characters
iterate (arr vs) = ok (items vs)
iterate (obj fs) = ok (keys fs)
iterate (str s) = ok (characters s)
iterate null = raise type_error
iterate (bool _) = raise type_error
iterate (int _) = raise type_error
iterate (float _) = raise type_error

-- `v[k]` for a text k
unfoldable pub item : String → Json → Result Json
unfolding lookup
item k (obj fs) = elim (lookup k fs) [ none ↦ raise key_error | some v ↦ ok v ]
item k null = raise type_error
item k (bool _) = raise type_error
item k (int _) = raise type_error
item k (float _) = raise type_error
item k (str _) = raise type_error
item k (arr _) = raise type_error

-- `v[0]`
unfoldable pub first_item : Json → Result Json
first_item (arr nil) = raise index_error
first_item (arr (cons v vs)) = ok v
first_item (obj _) = raise key_error
first_item (str String.[]) = raise index_error
first_item (str (String.◌∷◌ c s)) = ok (str (String.◌∷◌ c String.[]))
first_item null = raise type_error
first_item (bool _) = raise type_error
first_item (int _) = raise type_error
first_item (float _) = raise type_error

-- `v or {}`
abbrev pub or_empty : Json → Json
unfolding truthy
or_empty v = if truthy v then v else empty

-- `v[k1][k2]...`
unfoldable pub item_at : List String → Json → Result Json
unfolding item
item_at [] v = ok v
item_at (k ∷ ks) v = do inner ← item k v; item_at ks inner
