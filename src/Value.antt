-- ===== src/Value.antt =====
-- JSON values as the program decodes them: the bodies of webhooks. A number is an opaque code, of
-- which 0 stands for zero.
pub mod Update
use circle_core.Prelude.{
  ℕ, Bool, true, false, String, Option, none, some, ◌==◌, if◌then◌else◌, str_eq,
}
use circle_core.Text.{Text, codes, text_eq, is_empty}

mutual
  pub data Value : Type 0 where
    null : Value
    boolean : Bool → Value
    number : ℕ → Value
    text : Text → Value
    array : Values → Value
    object : Fields → Value

  pub data Values : Type 0 where
    end : Values
    item : Value → Values → Values

  pub data Fields : Type 0 where
    closed : Fields
    field : String → Value → Fields → Fields

-- `d.get(key)`
unfoldable pub get : String → Fields → Value
get key closed = null
get key (field k v d) = let rest = get key d in if str_eq k key then v else rest

-- The value as a dictionary, a string, a number; `isinstance(value, bool)` is not a number here.
unfoldable pub object_of : Value → Option Fields
object_of null = none
object_of (boolean b) = none
object_of (number n) = none
object_of (text t) = none
object_of (array vs) = none
object_of (object d) = some d

unfoldable pub text_of : Value → Option Text
text_of null = none
text_of (boolean b) = none
text_of (number n) = none
text_of (text t) = some t
text_of (array vs) = none
text_of (object d) = none

unfoldable pub number_of : Value → Option ℕ
number_of null = none
number_of (boolean b) = none
number_of (number n) = some n
number_of (text t) = none
number_of (array vs) = none
number_of (object d) = none

unfoldable pub array_of : Value → Option Values
array_of null = none
array_of (boolean b) = none
array_of (number n) = none
array_of (text t) = none
array_of (array vs) = some vs
array_of (object d) = none

-- `value is True`
unfoldable pub is_true : Value → Bool
is_true null = false
is_true (boolean b) = b
is_true (number n) = false
is_true (text t) = false
is_true (array vs) = false
is_true (object d) = false

-- `not value`
unfoldable pub is_falsy : Value → Bool
is_falsy null = true
is_falsy (boolean true) = false
is_falsy (boolean false) = true
is_falsy (number n) = n == 0
is_falsy (text t) = is_empty t
is_falsy (array end) = true
is_falsy (array (item v vs)) = false
is_falsy (object closed) = true
is_falsy (object (field k v d)) = false

-- `d.get(key)` of a value that may be no dictionary, which then has no keys.
unfoldable pub get_in : String → Value → Value
unfolding get object_of
get_in key v = elim (object_of v) [ none ↦ null | some d ↦ get key d ]

-- `value == "..."`
unfoldable pub is_text : String → Value → Bool
unfolding text_of
is_text s v = elim (text_of v) [ none ↦ false | some t ↦ text_eq t (codes s) ]
