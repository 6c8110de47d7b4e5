-- ===== src/Examples/Values.antt =====
-- A concrete type of JSON values that has the documented behaviour of objects and texts.
use Prim.Native.Char.{code}
use Prim.Native.String.{[], ◌∷◌}
use responses_api_store.Common.{
  String, ◌==◌, Bool, true, false, Option, none, some, List, eqb, ◌≡◌, ◌≢◌, refl, arith, Result, ok,
  err, eq_iff, ok-injective, Bool-cases, inl, inr, if◌then◌else◌,
}
use responses_api_store.Common.Text.{is_blank}
use responses_api_store.Record.{StoredResponse}
use responses_api_store.Serde.{Json, ObjectLaws}

mutual
  pub data Value : Type 0 where
    null : Value
    boolean : Bool → Value
    text : String → Value
    array : Items → Value
    object : Fields → Value

  pub data Items : Type 0 where
    nil : Items
    cons : Value → Items → Items

  pub data Fields : Type 0 where
    end : Fields
    field : String → Value → Fields → Fields

abbrev items : List Value → Items
items List.[] = nil
items (List.◌∷◌ v vs) = cons v (items vs)

unfoldable pub member : Fields → String → Option Value
member end k = none
member (field i v fs) k = if i == k then some v else member fs k

unfoldable pub put : Fields → String → Value → Fields
put end k x = field k x end
put (field i v fs) k x = if i == k then field k x fs else field i v (put fs k x)

unfoldable pub drop : Fields → String → Fields
drop end k = end
drop (field i v fs) k = let rest = drop fs k in if i == k then rest else field i v rest

abbrev get : Value → String → Option Value
get (object fs) k = member fs k
get null k = none
get (boolean b) k = none
get (text s) k = none
get (array vs) k = none

abbrev as_str : Value → Option String
as_str (text s) = some s
as_str null = none
as_str (boolean b) = none
as_str (array vs) = none
as_str (object fs) = none

abbrev is_object : Value → Bool
is_object (object fs) = true
is_object null = false
is_object (boolean b) = false
is_object (text s) = false
is_object (array vs) = false

abbrev insert : Value → String → Value → Value
insert (object fs) k x = object (put fs k x)
insert null k x = null
insert (boolean b) k x = boolean b
insert (text s) k x = text s
insert (array vs) k x = array vs

abbrev remove : Value → String → Value
remove (object fs) k = object (drop fs k)
remove null k = null
remove (boolean b) k = boolean b
remove (text s) k = text s
remove (array vs) k = array vs

abbrev index_set : Value → String → Value → Option Value
index_set (object fs) k x = some (object (put fs k x))
index_set null k x = some (object (field k x end))
index_set (boolean b) k x = none
index_set (text s) k x = none
index_set (array vs) k x = none

abbrev Encode : Type 0
Encode = StoredResponse Value → Result String String

abbrev Decode : Type 0
Decode = String → Result String (StoredResponse Value)

abbrev Print : Type 0
Print = Value → Result String String

abbrev Parse : Type 0
Parse = String → Result String Value

-- The codecs are chosen by each example. Here a value prints if it is a text, or an object
-- with a status alone.
abbrev print_status : String → Value → Result String String
print_status k (text s) = if k == "status" then ok ("{" ∷ s) else err "unsupported"
print_status k null = err "unsupported"
print_status k (boolean b) = err "unsupported"
print_status k (array vs) = err "unsupported"
print_status k (object fs) = err "unsupported"

abbrev print_fields : Fields → Result String String
print_fields end = err "unsupported"
print_fields (field k v end) = print_status k v
print_fields (field k v (field i w fs)) = err "unsupported"

abbrev pub print : Value → Result String String
print (text s) = ok ("'" ∷ s)
print null = err "unsupported"
print (boolean b) = err "unsupported"
print (array vs) = err "unsupported"
print (object fs) = print_fields fs

abbrev pub parse : String → Result String Value
parse [] = err "empty"
parse (c ∷ s) =
    if eqb (code c) b'{'
    then ok (object (field "status" (text s) end))
    else if eqb (code c) 39
    then ok (text s)
    else err "unsupported"

abbrev pub json : Encode → Decode → Print → Parse → Json
json encode decode to_string from_str = record {
  Value = Value;
  null = null;
  boolean = boolean;
  text = text;
  array = λ vs. array (items vs);
  empty_object = object end;
  get = get;
  as_str = as_str;
  is_object = is_object;
  insert = insert;
  remove = remove;
  index_set = index_set;
  to_string = to_string;
  from_str = from_str;
  encode = encode;
  decode = decode;
}

member-put :
    (fs : Fields) (k : String) (x : Value) (i : String)
    → member (put fs k x) i ≡ (if k == i then some x else member fs i)
unfolding member put
member-put end k x i = refl
member-put (field n v fs) k x i =
    ground (arith, member-put fs k x i, eq_iff n k, eq_iff n i, eq_iff k i)

member-drop :
    (fs : Fields) (k i : String) → member (drop fs k) i ≡ (if k == i then none else member fs i)
unfolding member drop
member-drop end k i = ground arith
member-drop (field n v fs) k i =
    ground (arith, member-drop fs k i, eq_iff n k, eq_iff n i, eq_iff k i)

pub json-ObjectLaws :
    (encode : Encode) (decode : Decode) (to_string : Print) (from_str : Parse)
    → ObjectLaws (json encode decode to_string from_str)
unfolding member put
json-ObjectLaws encode decode to_string from_str = record {
  get_empty = λ k. refl;
  is_object_empty = refl;
  is_object_of_get = get-object;
  is_object_insert = λ v k x h. object-insert v k x h;
  get_insert = get-insert;
  is_object_remove = object-remove;
  get_remove = get-remove;
  index_set_object = set-object;
  index_set_null = λ k x. refl;
  index_set_other = set-other;
  as_str_text = λ s. refl;
}
  where
    get-object : (v : Value) (k : String) (x : Value) → get v k ≡ some x → is_object v ≡ true
    get-object v k x h = ground arith

    object-insert :
        (v : Value) (k : String) (x : Value) → is_object v ≡ true → is_object (insert v k x) ≡ true
    object-insert v k x h = ground arith

    get-insert :
        (v : Value) (k : String) (x : Value) (i : String)
        → is_object v ≡ true
        → get (insert v k x) i ≡ (if k == i then some x else get v i)
    get-insert (object fs) k x i h = member-put fs k x i
    get-insert null k x i h = ground arith
    get-insert (boolean b) k x i h = ground arith
    get-insert (text s) k x i h = ground arith
    get-insert (array vs) k x i h = ground arith

    object-remove : (v : Value) (k : String) → is_object v ≡ true → is_object (remove v k) ≡ true
    object-remove v k h = ground arith

    get-remove :
        (v : Value) (k i : String)
        → is_object v ≡ true
        → get (remove v k) i ≡ (if k == i then none else get v i)
    get-remove (object fs) k i h = member-drop fs k i
    get-remove null k i h = ground arith
    get-remove (boolean b) k i h = ground arith
    get-remove (text s) k i h = ground arith
    get-remove (array vs) k i h = ground arith

    set-object :
        (v : Value) (k : String) (x : Value)
        → is_object v ≡ true
        → index_set v k x ≡ some (insert v k x)
    set-object v k x h = ground arith

    set-other :
        (v : Value) (k : String) (x : Value)
        → is_object v ≡ false
        → v ≢ null
        → index_set v k x ≡ none
    set-other v k x h n = ground arith

-- What prints is not empty and is read back.
pub print-parse :
    (v : Value) (s : String) → print v ≡ ok s → (parse s ≡ ok v) × (is_blank s ≡ false)
print-parse (text t) s h = rw (← ok-injective h) (refl, refl)
print-parse null s h = ground arith
print-parse (boolean b) s h = ground arith
print-parse (array vs) s h = ground arith
print-parse (object end) s h = ground arith
print-parse (object (field k (text t) end)) s h = elim (Bool-cases (k == "status")) [
  | inl status ↦ rw (← ok-injective (rw status at h), (eq_iff k "status").0 status) (refl, refl)
  | inr other ↦ absurd (ground (arith, rw other at h))
]
print-parse (object (field k null end)) s h = ground arith
print-parse (object (field k (boolean b) end)) s h = ground arith
print-parse (object (field k (array vs) end)) s h = ground arith
print-parse (object (field k (object fs) end)) s h = ground arith
print-parse (object (field k v (field i w fs))) s h = ground arith
