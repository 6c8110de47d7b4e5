-- ===== src/Serde.antt =====
-- What the program uses of serde_json: JSON values, their text form, and the text form that the
-- derived `Serialize` and `Deserialize` give a `StoredResponse`. These are parameters of the model.
pub mod Object
use responses_api_store.Common.{
  String, ◌==◌, Bool, true, false, Option, none, some, List, [], ◌∷◌, ◌≡◌, ◌≢◌, Result, ok,
  if◌then◌else◌,
}
use responses_api_store.Common.Text.{is_blank}
use responses_api_store.Record.{StoredResponse}

pub record Json : Type 1 where
  pub Value : Type 0
  -- `Value::Null`, `Value::Bool`, `Value::String`, `Value::Array` and an empty `Value::Object`
  pub null : Value
  pub boolean : Bool → Value
  pub text : String → Value
  pub array : List Value → Value
  pub empty_object : Value
  -- `Value::get` with a text, `Value::as_str`, `Value::is_object`
  pub get : Value → String → Option Value
  pub as_str : Value → Option String
  pub is_object : Value → Bool
  -- `Map::insert` and `Map::remove` on the object behind `as_object_mut`
  pub insert : Value → String → Value → Value
  pub remove : Value → String → Value
  -- `value[key] = x`; `none` is its panic
  pub index_set : Value → String → Value → Option Value
  -- `serde_json::to_string` and `from_str`, with the text of the error
  pub to_string : Value → Result String String
  pub from_str : String → Result String Value
  pub encode : StoredResponse Value → Result String String
  pub decode : String → Result String (StoredResponse Value)

-- The documented behaviour of objects and texts.
pub record ObjectLaws (j : Json) : Type 0 where
  pub get_empty : (k : String) → j.get j.empty_object k ≡ none
  pub is_object_empty : j.is_object j.empty_object ≡ true
  -- only an object has a member
  pub is_object_of_get :
      (v : j.Value) (k : String) (x : j.Value) → j.get v k ≡ some x → j.is_object v ≡ true
  pub is_object_insert :
      (v : j.Value) (k : String) (x : j.Value)
      → j.is_object v ≡ true
      → j.is_object (j.insert v k x) ≡ true
  pub get_insert :
      (v : j.Value) (k : String) (x : j.Value) (i : String)
      → j.is_object v ≡ true
      → j.get (j.insert v k x) i ≡ (if k == i then some x else j.get v i)
  pub is_object_remove :
      (v : j.Value) (k : String) → j.is_object v ≡ true → j.is_object (j.remove v k) ≡ true
  pub get_remove :
      (v : j.Value) (k i : String)
      → j.is_object v ≡ true
      → j.get (j.remove v k) i ≡ (if k == i then none else j.get v i)
  -- assignment to a member of an object inserts it; on `null` it makes an object, else it panics
  pub index_set_object :
      (v : j.Value) (k : String) (x : j.Value)
      → j.is_object v ≡ true
      → j.index_set v k x ≡ some (j.insert v k x)
  pub index_set_null :
      (k : String) (x : j.Value) → j.index_set j.null k x ≡ some (j.insert j.empty_object k x)
  pub index_set_other :
      (v : j.Value) (k : String) (x : j.Value)
      → j.is_object v ≡ false
      → v ≢ j.null
      → j.index_set v k x ≡ none
  pub as_str_text : (s : String) → j.as_str (j.text s) ≡ some s

-- What the JSON library prints is not empty and is read back.
pub record TextLaws (j : Json) : Type 0 where
  pub from_str-to_string : (v : j.Value) (s : String) → j.to_string v ≡ ok s → j.from_str s ≡ ok v
  pub to_string_not_empty : (v : j.Value) (s : String) → j.to_string v ≡ ok s → is_blank s ≡ false

-- A JSON value prints.
pub record PrintLaws (j : Json) : Type 0 where
  pub prints : (v : j.Value) → (s : String) × (j.to_string v ≡ ok s)

-- A record can be written, and what is written is read back. A pending request that is `null` is read back as absent, since the
-- derived `Deserialize` of an `Option` takes `null` for `None`.
pub record CodecLaws (j : Json) : Type 0 where
  pub encodes : (r : StoredResponse j.Value) → (s : String) × (j.encode r ≡ ok s)
  pub decode-encode :
      (r : StoredResponse j.Value) (s : String)
      → r.pending_upstream_request ≢ some j.null
      → j.encode r ≡ ok s
      → j.decode s ≡ ok r

module _ (j : Json) where
  -- The members that the macro `json!` inserts in turn.
  abbrev pub insert_all : j.Value → List (String × j.Value) → j.Value
  insert_all v [] = v
  insert_all v ((k, x) ∷ fs) = insert_all (j.insert v k x) fs

  -- `json!({ … })`
  abbrev pub object : List (String × j.Value) → j.Value
  object fs = insert_all j.empty_object fs
