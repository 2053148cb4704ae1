-- ===== src/Json.antt =====
-- The JSON values of serde_json that src/resources/application.rs takes apart and changes.
pub mod Laws
pub mod Merge
use wasmcloud_operator.Base.{
  ℕ, String, Bool, true, false, ◌==◌, Option, none, some, List, [], ◌∷◌, if◌then◌else◌,
}

-- A number is kept as its text: the program reads none.
mutual
  pub data Value : Type 0 where
    null : Value
    bool : Bool → Value
    number : String → Value
    text : String → Value
    array : Items → Value
    object : Fields → Value

  pub data Items : Type 0 where
    nil : Items
    cons : Value → Items → Items

  -- `serde_json::Map`
  pub data Fields : Type 0 where
    end : Fields
    field : String → Value → Fields → Fields

unfoldable pub lookup : String → Fields → Option Value
lookup k end = none
lookup k (field j v fs) = if j == k then some v else lookup k fs

-- `Map::insert`
unfoldable pub put : String → Value → Fields → Fields
put k v end = field k v end
put k v (field j u fs) = let rest = field j u (put k v fs) in if j == k then field k v fs else rest

-- `Map::remove`
unfoldable pub drop : String → Fields → Fields
drop k end = end
drop k (field j u fs) = let rest = drop k fs in if j == k then rest else field j u rest

-- `Value::get` with a text
unfoldable pub member : String → Value → Option Value
unfolding lookup
member k (object fs) = lookup k fs
member k _ = none

-- A change through `Value::get_mut` with a text, if there is such a member.
unfoldable pub change_member : String → (Value → Value) → Value → Value
unfolding lookup put
change_member k f (object fs) = elim (lookup k fs) [
  | none ↦ object fs
  | some v ↦ object (put k (f v) fs)
]
change_member k f v = v

-- `value[k] = new` at the end of a path of `IndexMut`; `none` stands for its panic on a value that
-- is neither null nor an object. A member that is missing on the way is null.
unfoldable pub assign : List String → Value → Value → Option Value
unfolding lookup put
assign [] new v = some new
assign (k ∷ ks) new null = elim (assign ks new null) [
  | none ↦ none
  | some u ↦ some (object (field k u end))
]
assign (k ∷ ks) new (object fs) =
    elim (assign ks new (elim (lookup k fs) [ none ↦ null | some v ↦ v ])) [
      | none ↦ none
      | some u ↦ some (object (put k u fs))
    ]
assign (k ∷ ks) new _ = none

-- The member at the end of a path.
unfoldable pub at_path : List String → Value → Option Value
unfolding member
at_path [] v = some v
at_path (k ∷ ks) v = elim (member k v) [ none ↦ none | some u ↦ at_path ks u ]
