-- ===== src/Python/Json/Equality.antt =====
-- `==` on the values that `json.loads` returns: numbers by their value, lists by their items, dicts
-- by their keys in any order.
use uart2llm.Prelude.{
  ℕ, suc, ◌-◌, ◌%◌, ◌^◌, String, Bool, true, false, none, some, ◌&&◌, ◌||◌, ◌==◌, str_eq,
  if◌then◌else◌,
}
use uart2llm.Prelude.Int.{ℤ, pos, negsuc}
use uart2llm.Python.Float.{Float, float_is, is_finite, is_negative}
use uart2llm.Python.Json.{
  Json, Items, Fields, null, bool, int, float, str, arr, obj, nil, cons, end, field, lookup,
}

bool_number : Bool → ℤ
bool_number true = pos 1
bool_number false = pos 0

int_eq : ℤ → ℤ → Bool
int_eq (pos m) (pos n) = m == n
int_eq (negsuc m) (negsuc n) = m == n
int_eq (pos m) (negsuc n) = false
int_eq (negsuc m) (pos n) = false

-- A whole number against a float.
int_float_eq : ℤ → Float → Bool
unfolding float_is is_negative
int_float_eq (pos n) x = float_is n x
int_float_eq (negsuc n) x = is_negative x && float_is (suc n) (x - 2 ^ 63)

-- A NaN equals nothing, and the two zeros are equal.
float_eq : Float → Float → Bool
unfolding is_finite float_is
float_eq x y = if x == y then is_finite x || x % 2 ^ 52 == 0 else float_is 0 x && float_is 0 y

-- What is not a number equals no number.
number_eq : ℤ → Json → Bool
unfolding bool_number int_eq int_float_eq
number_eq m (int n) = int_eq m n
number_eq m (bool b) = int_eq m (bool_number b)
number_eq m (float x) = int_float_eq m x
number_eq m null = false
number_eq m (str _) = false
number_eq m (arr _) = false
number_eq m (obj _) = false

float_number_eq : Float → Json → Bool
unfolding bool_number int_float_eq float_eq
float_number_eq x (int n) = int_float_eq n x
float_number_eq x (bool b) = int_float_eq (bool_number b) x
float_number_eq x (float y) = float_eq x y
float_number_eq x null = false
float_number_eq x (str _) = false
float_number_eq x (arr _) = false
float_number_eq x (obj _) = false

abbrev pub is_null : Json → Bool
is_null null = true
is_null (bool _) = false
is_null (int _) = false
is_null (float _) = false
is_null (str _) = false
is_null (arr _) = false
is_null (obj _) = false

abbrev is_text : String → Json → Bool
is_text s (str t) = str_eq s t
is_text s _ = false

abbrev size : Fields → ℕ
size end = 0
size (field k v fs) = suc (size fs)

unfoldable mutual
  unfolding number_eq float_number_eq lookup

  pub equals : Json → Json → Bool
  equals null w = is_null w
  equals (bool b) w = number_eq (bool_number b) w
  equals (int n) w = number_eq n w
  equals (float x) w = float_number_eq x w
  equals (str s) w = is_text s w
  equals (arr vs) (arr ws) = equal_items vs ws
  equals (arr vs) null = false
  equals (arr vs) (bool _) = false
  equals (arr vs) (int _) = false
  equals (arr vs) (float _) = false
  equals (arr vs) (str _) = false
  equals (arr vs) (obj _) = false
  equals (obj fs) (obj gs) = size fs == size gs && equal_fields fs gs
  equals (obj fs) null = false
  equals (obj fs) (bool _) = false
  equals (obj fs) (int _) = false
  equals (obj fs) (float _) = false
  equals (obj fs) (str _) = false
  equals (obj fs) (arr _) = false

  pub equal_items : Items → Items → Bool
  equal_items nil nil = true
  equal_items nil (cons w ws) = false
  equal_items (cons v vs) nil = false
  equal_items (cons v vs) (cons w ws) = equals v w && equal_items vs ws

  pub equal_fields : Fields → Fields → Bool
  equal_fields end gs = true
  equal_fields (field k v fs) gs =
      elim (lookup k gs) [ none ↦ false | some w ↦ equals v w ] && equal_fields fs gs

-- A list or a dict is no member of a set.
unfoldable pub hashable : Json → Bool
hashable (arr _) = false
hashable (obj _) = false
hashable null = true
hashable (bool _) = true
hashable (int _) = true
hashable (float _) = true
hashable (str _) = true
