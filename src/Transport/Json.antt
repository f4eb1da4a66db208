-- ===== src/Transport/Json.antt =====
-- What the transport uses of the crate serde_json: the type of JSON values and its operations as
-- an interface, and their documented laws as a second record that theorems take.
use tokensaver.Prelude.{ℕ, ◌≡◌, Bool, true, Option, some, List, if◌then◌else◌, Str, str_eq}

pub record Json : Type 1 where
  pub Value : Type 0
  pub from_slice : List ℕ → Option Value
  pub to_vec : Value → Option (List ℕ)
  -- `Value::get`, and `Map::get` of an object
  pub get : Str → Value → Option Value
  -- whether `as_object` is `Some`
  pub is_object : Value → Bool
  pub is_null : Value → Bool
  pub as_array : Value → Option (List Value)
  pub as_str : Value → Option Str
  pub as_u64 : Value → Option ℕ
  -- `Value::String`, and the array that `as_array_mut` has changed
  pub string : Str → Value
  pub array : List Value → Value
  -- `Map::insert` of an object
  pub insert : Str → Value → Value → Value

pub record JsonLaws (json : Json) : Type 0 where
  pub get-insert :
      (key other : Str) (value object : json.Value)
      → json.is_object object ≡ true
      → json.get other (json.insert key value object)
        ≡ (if str_eq key other then some value else json.get other object)
  pub is_object-insert :
      (key : Str) (value object : json.Value)
      → json.is_object object ≡ true
      → json.is_object (json.insert key value object) ≡ true
  -- only an object has members
  pub is_object-get :
      (key : Str) (value member : json.Value)
      → json.get key value ≡ some member
      → json.is_object value ≡ true
