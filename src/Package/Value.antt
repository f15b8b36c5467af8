-- ===== src/Package/Value.antt =====
-- The JavaScript values that a manifest is made of, as far as
-- src/registry/package/package_utils/mem_volumes.rs and `object_entries` of src/utils.rs look at
-- them. A text is the list of its UTF-8 bytes. A number is not a number, negative, or a natural
-- number. No getter throws, every object inherits from `Object`, and no object stands at two places.
use wasmer_js.Prelude.{
  ℕ, zero, suc, ◌+◌, ◌/◌, ◌%◌, List, [], ◌∷◌, Option, none, some, Bool, true, false, ltb, ◌==◌,
  ◌&&◌, ◌||◌, if◌then◌else◌,
}

abbrev pub Text : Type 0
Text = List ℕ

pub data Number : Type 0 where
  not_a_number negative : Number
  whole : ℕ → Number

-- The entries of an object stand in the order of their keys, which `object_entries` gives them in.
mutual
  pub data JsValue : Type 0 where
    undefined null : JsValue
    boolean : Bool → JsValue
    number : Number → JsValue
    string : Text → JsValue
    bytes : List ℕ → JsValue
    date : Number → JsValue
    array : Items → JsValue
    object : Entries → JsValue

  pub data Items : Type 0 where
    nil : Items
    item : JsValue → Items → Items

  pub data Entries : Type 0 where
    end : Entries
    entry : Text → JsValue → Entries → Entries

-- What a computation ends with: a value, an `Err`, or a panic; or its fuel has run out.
pub data Outcome {ℓ} (A : Type ℓ) : Type ℓ where
  done : A → Outcome A
  bailed panicked unfinished : Outcome A

infixl 5 ◌>>=◌
abbrev pub ◌>>=◌ {ℓ κ} : {A : Type ℓ} {B : Type κ} → Outcome A → (A → Outcome B) → Outcome B
done a >>= f = f a
bailed >>= f = bailed
panicked >>= f = panicked
unfinished >>= f = unfinished

abbrev pub same : Text → Text → Bool
same [] [] = true
same (x ∷ xs) (y ∷ ys) = x == y && same xs ys
same _ _ = false

abbrev pub before : Text → Text → Bool
before [] [] = false
before [] (y ∷ ys) = true
before (x ∷ xs) [] = false
before (x ∷ xs) (y ∷ ys) = ltb x y || x == y && before xs ys

-- `BTreeMap`, as its entries in the order of their keys, and its `insert` and `get`.
abbrev pub BTreeMap {ℓ} : Type ℓ → Type ℓ
BTreeMap A = List (Text × A)

unfoldable pub insert {ℓ} : {A : Type ℓ} → BTreeMap A → Text → A → BTreeMap A
insert [] k a = (k, a) ∷ []
insert ((j, b) ∷ rest) k a =
    let rest' = insert rest k a in
    if same k j
    then (k, a) ∷ rest
    else if before k j
    then (k, a) ∷ (j, b) ∷ rest
    else (j, b) ∷ rest'

unfoldable pub find {ℓ} : {A : Type ℓ} → BTreeMap A → Text → Option A
find [] k = none
find ((j, b) ∷ rest) k = if same k j then some b else find rest k

-- `Reflect.set` of a field of a plain object.
unfoldable pub set : Entries → Text → JsValue → Entries
set end k v = entry k v end
set (entry j u rest) k v =
    let rest' = set rest k v in
    if same k j
    then entry k v rest
    else if before k j
    then entry k v (entry j u rest)
    else entry j u rest'

-- `Reflect.deleteProperty`.
unfoldable pub delete_property : Entries → Text → Entries
delete_property end k = end
delete_property (entry j u rest) k =
    let rest' = delete_property rest k in if same k j then rest else entry j u rest'

unfoldable pub lookup : Entries → Text → JsValue
lookup end k = undefined
lookup (entry j u rest) k = if same k j then u else lookup rest k

-- `Reflect.get` of a word, which throws for what is no object.
unfoldable pub get : JsValue → Text → Option JsValue
get (bytes xs) k = some undefined
get (date t) k = some undefined
get (array xs) k = some undefined
get (object es) k = some (lookup es k)
get _ k = none

-- The decimal digits of an index.
unfoldable pub digits : ℕ → ℕ → Text → Text
digits zero n acc = acc
digits (suc fuel) n acc =
    let acc' = (n % 10 + 48) ∷ acc in
    let more = digits fuel (n / 10) acc' in if ltb n 10 then acc' else more

unfoldable pub index_entries : ℕ → Items → Entries
index_entries i nil = end
index_entries i (item v rest) = set (index_entries (suc i) rest) (digits (suc i) i []) v

unfoldable pub byte_items : List ℕ → Items
byte_items [] = nil
byte_items (x ∷ xs) = item (number (whole x)) (byte_items xs)

-- `object_entries` of what `dyn_into::<Object>` makes of a value, if it is an object.
unfoldable pub object_entries : JsValue → Option Entries
object_entries (bytes xs) = some (index_entries 0 (byte_items xs))
object_entries (date t) = some end
object_entries (array xs) = some (index_entries 0 xs)
object_entries (object es) = some es
object_entries _ = none

abbrev pub is_undefined : JsValue → Bool
is_undefined undefined = true
is_undefined _ = false

abbrev pub is_null : JsValue → Bool
is_null null = true
is_null _ = false

-- `is_object`: `typeof` says so, and the value is not null.
abbrev pub is_object : JsValue → Bool
is_object (bytes xs) = true
is_object (date t) = true
is_object (array xs) = true
is_object (object es) = true
is_object _ = false
