-- ===== src/Message/Object.antt =====
-- The JavaScript objects that messages travel as: `Serializer` and `Deserializer` of
-- src/tasks/interop.rs.
use wasmer_js.Prelude.{ℕ, List, Option, none, some, Bool, false, ◌==◌, ◌&&◌, if◌then◌else◌}

-- A text, a JS object such as a module, and the address of a box are numbers.
pub data JsValue : Type 0 where
  undefined : JsValue
  string number big object : ℕ → JsValue
  boolean : Bool → JsValue
  bytes : List ℕ → JsValue

-- A field is a constant's name, or a constant prefix with an index behind it.
pub data Field : Type 0 where
  plain : ℕ → Field
  indexed : ℕ → ℕ → Field

abbrev pub is_field : Field → Field → Bool
is_field (plain a) (plain b) = a == b
is_field (indexed a i) (indexed b j) = a == b && i == j
is_field _ _ = false

-- `Reflect.get` of a field that is not there is `undefined`.
abbrev pub Object : Type 0
Object = Field → JsValue

abbrev pub type_field : Field
type_field = plain 0

-- `Serializer::new`, `set` and `boxed`. Setting a field of a plain object does not fail.
unfoldable pub set : Object → Field → JsValue → Object
set o k v j = if is_field j k then v else o j

unfoldable pub serializer : ℕ → Object
unfolding set
serializer ty = set (λ k. undefined) type_field (string ty)

infixl 5 ◌>>=◌
abbrev pub ◌>>=◌ {ℓ κ} : {A : Type ℓ} {B : Type κ} → Option A → (A → Option B) → Option B
none >>= f = none
some a >>= f = f a

-- What the fields are read as: `Deserializer::string`, `serde` of a number and of a Boolean, `boxed`,
-- and `js` of an object and of a `Uint8Array`.
abbrev pub as_string : JsValue → Option ℕ
as_string (string s) = some s
as_string _ = none

abbrev pub as_number : JsValue → Option ℕ
as_number (number n) = some n
as_number (big n) = some n
as_number _ = none

abbrev pub as_bool : JsValue → Option Bool
as_bool (boolean b) = some b
as_bool _ = none

abbrev pub as_box : JsValue → Option ℕ
as_box (big n) = some n
as_box _ = none

abbrev pub as_object : JsValue → Option ℕ
as_object (object n) = some n
as_object _ = none

abbrev pub as_bytes : JsValue → Option (List ℕ)
as_bytes (bytes xs) = some xs
as_bytes _ = none
