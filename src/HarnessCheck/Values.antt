-- ===== src/HarnessCheck/Values.antt =====
-- scripts/harness-check.py: the values that the follower reads and records.
use uart2llm.Prelude.{
  ℕ, ◌+◌, String, Bool, true, false, Option, none, some, List, [], ◌∷◌, ◌++◌, not, ◌&&◌, ◌||◌, leb,
  ◌==◌, str_eq, any, all, length, codes, if◌then◌else◌,
}
use uart2llm.Prelude.Int.{ℤ, pos, negsuc}
use uart2llm.Python.Error.{Result, ok, raise, type_error}
use uart2llm.Python.Float.{Float, Arithmetic}
use uart2llm.Python.Dict.{lookup}
use uart2llm.Python.Json
use uart2llm.Python.Json.{
  Json, Items, Fields, null, bool, int, float, str, arr, obj, nil, cons, end, field, items,
  equals_str, truthy,
}
use uart2llm.Python.Json.Equality.{equals, hashable}
use uart2llm.Python.Text.{occurs_in}

-- What the script uses of Python's text: `json.loads` of a value, `str`, `json.dumps`, SHA-256 in
-- hex digits, the length in UTF-8, `lstrip` and `strip`.
pub record TextTools : Type 0 where
  pub loads : Json → Result Json
  pub text_of : Json → String
  pub dumps : Json → String
  pub digest : String → String
  pub encoded_length : String → ℕ
  pub lstrip : String → List ℕ
  pub strip : String → String

abbrev pub markers : List String
markers =
    "UART2LLM_HARNESS_SMOKE_OK" ∷ "MONEY-SKILL-LOADED" ∷ "SUBAGENT-AUDIT-DONE" ∷ "VERIFIED: 11"
    ∷ "HARNESS-WORKFLOW-DONE" ∷ "HARNESS-PARALLEL-DONE" ∷ "HARNESS-ADVANCED-DONE"
    ∷ "HARNESS-OWN-JOB-READY" ∷ "HARNESS-ADVANCED-VERIFIED" ∷ "HARNESS-CHILD-READY"
    ∷ "HARNESS-CHILD-RECOVERED" ∷ "HARNESS-FORK-VERIFIED" ∷ "HARNESS-JS-VERIFIED"
    ∷ "HARNESS-RALPH-VERIFIED" ∷ "HARNESS-COORDINATION-DONE" ∷ "HARNESS-REASONING-VERIFIED: 7321"
    ∷ []

-- A letter, a digit, or one of `_./:-`.
code_letter : ℕ → Bool
code_letter c =
    (leb b'0' c && leb c b'9')
    || (leb b'A' c && leb c b'Z')
    || (leb b'a' c && leb c b'z')
    || any (λ d. c == d) (b'_' ∷ b'.' ∷ b'/' ∷ b':' ∷ b'-' ∷ [])

unfoldable pub is_code : List ℕ → Bool
unfolding code_letter
is_code letters = not (length letters == 0) && leb (length letters) 100 && all code_letter letters

-- `code`: what is no short name becomes null.
unfoldable pub code : Json → Json
unfolding is_code
code (str s) = if is_code (codes s) then str s else null
code null = null
code (bool _) = null
code (int _) = null
code (float _) = null
code (arr _) = null
code (obj _) = null

-- `m in text`
unfoldable pub contains : String → String → Bool
unfolding occurs_in
contains m text = occurs_in (codes m) (codes text)

-- The markers in a text.
unfoldable pub markers_in : String → List String
unfolding contains
markers_in text = found markers
  where
    found : List String → List String
    found [] = []
    found (m ∷ ms) = let rest = found ms in if contains m text then m ∷ rest else rest

-- Adding to a set.
unfoldable pub add_all : List String → List String → List String
add_all [] set = set
add_all (m ∷ ms) set = add_all ms (if any (str_eq m) set then set else set ++ (m ∷ []))

unfoldable pub is_text_block : Fields → Bool
unfolding Json.lookup equals_str
is_text_block fields = elim (Json.lookup "type" fields) [
  | none ↦ false
  | some v ↦ equals_str "text" v
]

unfoldable pub is_result_block : Fields → Bool
unfolding Json.lookup equals_str
is_result_block fields = elim (Json.lookup "type" fields) [
  | none ↦ false
  | some v ↦ equals_str "tool-result" v
]

-- The text of a block, if it is one.
unfoldable pub block_text : Fields → Option String
unfolding Json.lookup
block_text fields = elim (Json.lookup "text" fields) [ none ↦ none | some v ↦ text v ]
  where
    text : Json → Option String
    text (str s) = some s
    text null = none
    text (bool _) = none
    text (int _) = none
    text (float _) = none
    text (arr _) = none
    text (obj _) = none

-- `text_blocks`
unfoldable mutual
  pub text_blocks : Json → List String
  text_blocks (arr blocks) = blocks_texts blocks
  text_blocks null = []
  text_blocks (bool _) = []
  text_blocks (int _) = []
  text_blocks (float _) = []
  text_blocks (str _) = []
  text_blocks (obj _) = []

  pub blocks_texts : Items → List String
  blocks_texts nil = []
  blocks_texts (cons block blocks) = block_texts block ++ blocks_texts blocks

  pub block_texts : Json → List String
  block_texts (obj fields) =
      let nested = content_texts fields in
      elim (if is_text_block fields then block_text fields else none) [
        | some s ↦ s ∷ []
        | none ↦ if is_result_block fields then nested else []
      ]
  block_texts null = []
  block_texts (bool _) = []
  block_texts (int _) = []
  block_texts (float _) = []
  block_texts (str _) = []
  block_texts (arr _) = []

  -- The texts of the block's first `content`.
  pub content_texts : Fields → List String
  content_texts end = []
  content_texts (field k v fields) =
      let here = text_blocks v in
      let later = content_texts fields in if str_eq k "content" then here else later

-- A dict whose keys are JSON values; a list or a dict is no key.
module _ {V : Type 0} where
  unfoldable pub find : Json → List (Json × V) → Option V
  unfolding equals
  find key [] = none
  find key (entry ∷ entries) = if equals entry.0 key then some entry.1 else find key entries

  unfoldable pub put : Json → V → List (Json × V) → List (Json × V)
  unfolding equals
  put key value [] = (key, value) ∷ []
  put key value (entry ∷ entries) =
      if equals entry.0 key then (entry.0, value) ∷ entries else entry ∷ put key value entries

-- `hash(v)`
unfoldable pub require_hash : Json → Result (Unit {0})
unfolding hashable
require_hash v = if hashable v then ok tt else raise type_error

-- `counter[key] += 1`
unfoldable pub count_of : Json → List (Json × ℕ) → ℕ
unfolding find
count_of key counts = elim (find key counts) [ none ↦ 0 | some n ↦ n ]

unfoldable pub tally : ℕ → Json → List (Json × ℕ) → List (Json × ℕ)
unfolding put count_of
tally n key counts = put key (count_of key counts + n) counts

-- The numbers of Python, `bool` included.
pub data Number : Type 0 where
  whole : ℤ → Number
  real : Float → Number

unfoldable pub number : Json → Option Number
number (int n) = some (whole n)
number (bool true) = some (whole (pos 1))
number (bool false) = some (whole (pos 0))
number (float x) = some (real x)
number null = none
number (str _) = none
number (arr _) = none
number (obj _) = none

unfoldable pub int_le : ℤ → ℤ → Bool
int_le (pos m) (pos n) = leb m n
int_le (pos m) (negsuc n) = false
int_le (negsuc m) (pos n) = true
int_le (negsuc m) (negsuc n) = leb n m

unfoldable pub real_le : Arithmetic → Float → Float → Bool
unfolding equals
real_le fl x y = fl.less x y || equals (float x) (float y)

unfoldable pub number_le : Arithmetic → Number → Number → Bool
unfolding int_le real_le
number_le fl (whole m) (whole n) = int_le m n
number_le fl (whole m) (real y) = real_le fl (fl.of_int m) y
number_le fl (real x) (whole n) = real_le fl x (fl.of_int n)
number_le fl (real x) (real y) = real_le fl x y

-- `a <= b`, on numbers
unfoldable pub at_most : Arithmetic → Json → Json → Result Bool
unfolding number number_le
at_most fl a b = elim (number a) [
  | none ↦ raise type_error
  | some m ↦ elim (number b) [ none ↦ raise type_error | some n ↦ ok (number_le fl m n) ]
]

-- `a < 0`, for a number
unfoldable pub is_negative_number : Arithmetic → Json → Bool
unfolding number
is_negative_number fl a = elim (number a) [
  | none ↦ false
  | some (whole (pos n)) ↦ false
  | some (whole (negsuc n)) ↦ true
  | some (real x) ↦ fl.less x (fl.of_int (pos 0))
]

int_succ : ℤ → ℤ
int_succ (pos n) = pos (n + 1)
int_succ (negsuc ℕ.zero) = pos 0
int_succ (negsuc (ℕ.suc n)) = negsuc n

-- `a + 1`
unfoldable pub next_number : Arithmetic → Json → Result Json
unfolding number int_succ
next_number fl a = elim (number a) [
  | none ↦ raise type_error
  | some (whole n) ↦ ok (int (int_succ n))
  | some (real x) ↦ ok (float (fl.add x (fl.of_int (pos 1))))
]

-- A Python value that is there, or `d`.
unfoldable pub field_or : String → Json → List (String × Json) → Json
unfolding lookup
field_or k d tool = elim (lookup k tool) [ none ↦ d | some v ↦ v ]
