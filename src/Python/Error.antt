-- ===== src/Python/Error.antt =====
-- Exceptions as values, and methods that change an object and may raise.
use uart2llm.Prelude.{String, Bool, true, false, ◌≡◌, refl, if◌then◌else◌}

-- The exception's class, and its message where the program reads it.
pub data Error : Type 0 where
  attribute_error : Error
  key_error : Error
  index_error : Error
  type_error : Error
  overflow_error : Error
  value_error : String → Error
  runtime_error : String → Error
  assertion_error : String → Error
  os_error : Error
  timeout_error : String → Error
  connection_error : String → Error
  http_exception : Error
  timeout_expired : Error
  keyboard_interrupt : Error
  system_exit : String → Error

pub data Result {ℓ} (A : Type ℓ) : Type ℓ where
  ok : A → Result A
  raise : Error → Result A

-- `if b: raise e`
abbrev pub raise_if : Bool → Error → Result (Unit {0})
raise_if false e = ok tt
raise_if true e = raise e

-- What comes next runs only where nothing was raised.
infixl 10 ◌>>=◌ ◌>>◌
unfoldable pub ◌>>=◌ {ℓ κ} : {A : Type ℓ} {B : Type κ} → Result A → (A → Result B) → Result B
raise problem >>= next = raise problem
ok value >>= next = next value

abbrev pub ◌>>◌ {ℓ} : {B : Type ℓ} → Result (Unit {0}) → Result B → Result B
check >> next = check >>= λ passed. next

abbrev pub is_ok {ℓ} : {A : Type ℓ} → Result A → Bool
is_ok (ok a) = true
is_ok (raise e) = false

-- `type(error).__name__`
abbrev pub class_name : Error → String
class_name attribute_error = "AttributeError"
class_name key_error = "KeyError"
class_name index_error = "IndexError"
class_name type_error = "TypeError"
class_name overflow_error = "OverflowError"
class_name (value_error _) = "ValueError"
class_name (runtime_error _) = "RuntimeError"
class_name (assertion_error _) = "AssertionError"
class_name os_error = "OSError"
class_name (timeout_error _) = "TimeoutError"
class_name (connection_error _) = "ConnectionError"
class_name http_exception = "HTTPException"
class_name timeout_expired = "TimeoutExpired"
class_name keyboard_interrupt = "KeyboardInterrupt"
class_name (system_exit _) = "SystemExit"

-- What `except Exception` catches: an interrupt and an exit go on.
unfoldable pub is_exception : Error → Bool
is_exception keyboard_interrupt = false
is_exception (system_exit _) = false
is_exception attribute_error = true
is_exception key_error = true
is_exception index_error = true
is_exception type_error = true
is_exception overflow_error = true
is_exception (value_error _) = true
is_exception (runtime_error _) = true
is_exception (assertion_error _) = true
is_exception os_error = true
is_exception (timeout_error _) = true
is_exception (connection_error _) = true
is_exception http_exception = true
is_exception timeout_expired = true

-- Where the whole returned, both parts did.
pub >>=-eq-ok {ℓ κ} :
    {A : Type ℓ} {B : Type κ} {result : B} (first : Result A) (next : A → Result B)
    → (first >>= next) ≡ ok result
    → (value : A) × (first ≡ ok value) × (next value ≡ ok result)
unfolding ◌>>=◌
>>=-eq-ok (raise problem) next p = cc
>>=-eq-ok (ok value) next p = (value, refl, p)

pub ok-injective {ℓ} : {A : Type ℓ} {a b : A} → ok a ≡ ok b → a ≡ b
ok-injective h = cc

-- A check that raises was passed.
pub raise-eq-ok {ℓ} :
    {A : Type ℓ} (b : Bool) (e : Error) (m : Result A) {a : A}
    → (if b then raise e else m) ≡ ok a
    → (b ≡ false) × (m ≡ ok a)
raise-eq-ok true e m h = cc
raise-eq-ok false e m h = (refl, h)

pub raise_if-eq-ok : (b : Bool) (e : Error) {u : Unit {0}} → raise_if b e ≡ ok u → b ≡ false
raise_if-eq-ok true e h = cc
raise_if-eq-ok false e h = refl
