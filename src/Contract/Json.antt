-- ===== src/Contract/Json.antt =====
-- `serde_json::Value` by its constructors, with the methods that the generator calls. An object is
-- its entries in the order of iteration.
use nautilus_agents.Base.{
  ◌≡◌, ◌⊎◌, Bool, List, [], ◌∷◌, if◌then◌else◌, Option, none, some, ◌==◌, list_eq, nat_eq,
}
use nautilus_agents.Text.{Text}

mutual
  pub data Value : Type 0 where
    null : Value
    boolean : Bool → Value
    number : Text → Value
    string : Text → Value
    array : Values → Value
    object : Members → Value

  pub data Values : Type 0 where
    nil : Values
    cons : Value → Values → Values

  pub data Members : Type 0 where
    end : Members
    member : Text → Value → Members → Members

-- `Map::get`
abbrev pub get : Text → Members → Option Value
get key end = none
get key (member k v ms) = if k == key then some v else get key ms

-- `as_str`
abbrev pub as_str : Value → Option Text
as_str (string t) = some t
as_str _ = none

-- The texts among the elements of an array: `as_array`, flattened, `filter_map(Value::as_str)`.
abbrev pub texts : Values → List Text
texts nil = []
texts (cons (string t) vs) = t ∷ texts vs
texts (cons v vs) = texts vs

abbrev pub array_texts : Option Value → List Text
array_texts (some (array vs)) = texts vs
array_texts _ = []

-- An entry of an object, and an element of an array.
abbrev pub HasMember : Text → Value → Members → Type 0
HasMember k v end = ⊥
HasMember k v (member j w ms) = ((k ≡ j) × (v ≡ w)) ⊎ HasMember k v ms

abbrev pub HasValue : Value → Values → Type 0
HasValue v nil = ⊥
HasValue v (cons w vs) = (v ≡ w) ⊎ HasValue v vs
