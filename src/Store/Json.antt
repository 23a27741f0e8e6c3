-- ===== src/Store/Json.antt =====
-- serde_json's `Value`, as far as src/store and src/adapter_agent24 build and read one. A text column
-- that holds a serialised value holds the value itself here.
use sin.Prelude.{
  ℕ, zero, suc, eqb, String, Bool, Option, none, some, List, [], ◌∷◌, ◌==◌, if◌then◌else◌,
}

mutual
  pub data Value : Type 0 where
    null : Value
    bool : Bool → Value
    num : ℕ → Value
    str : String → Value
    obj : Fields → Value
    arr : Items → Value

  pub data Fields : Type 0 where
    field : (name : String) → Value → Fields → Fields
    end : Fields

  pub data Items : Type 0 where
    cons : Value → Items → Items
    nil : Items

abbrev pub opt_str : Option String → Value
opt_str none = null
opt_str (some s) = str s

abbrev pub opt_num : Option ℕ → Value
opt_num none = null
opt_num (some n) = num n

abbrev pub strings : List String → Items
strings [] = nil
strings (s ∷ l) = cons (str s) (strings l)

-- a member of an object
abbrev pub member : String → Fields → Option Value
member k end = none
member k (field j v fs) = if j == k then some v else member k fs

abbrev pub get : String → Value → Option Value
get k (obj fs) = member k fs
get k _ = none

abbrev pub as_str : Option Value → Option String
as_str (some (str s)) = some s
as_str _ = none

abbrev pub as_bool : Option Value → Option Bool
as_bool (some (bool b)) = some b
as_bool _ = none

abbrev pub size : Items → ℕ
size nil = 0
size (cons v items) = suc (size items)

abbrev pub item : ℕ → Items → Option Value
item i nil = none
item zero (cons v items) = some v
item (suc i) (cons v items) = item i items

-- serde's `Deserialize` of a struct: a field by its name in an object, or by its place in an array of
-- as many items as the struct has fields
abbrev pub struct_field : (fields place : ℕ) → String → Value → Option Value
struct_field fields place name (arr items) =
    if eqb (size items) fields then item place items else none
struct_field fields place name v = get name v
