-- ===== src/Examples/Codec.antt =====
-- A codec that writes every record and reads back what it wrote.
mod Parts
use Prim.Native.String
use responses_api_store.Common.{
  ℕ, zero, suc, ◌+◌, ◌≤◌, String, Bool, true, false, Option, none, some, List, [], ◌∷◌, ◌≡◌, ◌≢◌,
  refl, ap, Result, ok, err, arith, length, ok-injective, if◌then◌else◌,
}
use responses_api_store.Common.Int.{ℤ, pos, negsuc}
use responses_api_store.Common.Text.{is_blank}
use responses_api_store.Record.{StoredResponse}
use responses_api_store.Serde.{Json, CodecLaws, TextLaws, PrintLaws}
use responses_api_store.Examples.Values.{Value, null, json}
use Parts.{
  Reader, ◌>>=◌, write_text, read_text, read_text-write_text, write_number, read_number,
  read_number-write_number, write_value, read_value, size, value_read, number_not_empty,
}

record Codec (A : Type 0) : Type 0 where
  write : A → String → String
  read : Reader A
  read-write : (a : A) (s : String) → read (write a s) ≡ some (a, s)

text_codec : Codec String
text_codec = record { write = write_text; read = read_text; read-write = read_text-write_text }

-- A value stands behind its size.
value_codec : Codec Value
value_codec = record {
  write = λ v s. write_number (size v) (write_value v s);
  read = λ s. read_number s >>= λ n. read_value n.0 n.1;
  read-write = λ v s.
      rw (read_number-write_number (size v) (write_value v s))
        (value_read (size v) v s (omega arith));
}

module _ {A : Type 0} (c : Codec A) where
  write_option : Option A → String → String
  write_option none s = write_number 0 s
  write_option (some a) s = write_number 1 (c.write a s)

  read_some : ℕ → Reader (Option A)
  read_some zero s = some (none, s)
  read_some (suc n) s = c.read s >>= λ x. some (some x.0, x.1)

  option_codec : Codec (Option A)
  unfolding write_option read_some
  option_codec = record {
    write = write_option;
    read = λ s. read_number s >>= λ n. read_some n.0 n.1;
    read-write = laws;
  }
    where
      laws :
          (o : Option A) (s : String)
          → (read_number (write_option o s) >>= λ n. read_some n.0 n.1) ≡ some (o, s)
      laws none s = rw (read_number-write_number 0 s) refl
      laws (some a) s = rw (read_number-write_number 1 (c.write a s)) (rw (c.read-write a s) refl)

  write_all : List A → String → String
  write_all [] s = s
  write_all (a ∷ xs) s = c.write a (write_all xs s)

  read_all : ℕ → Reader (List A)
  read_all zero s = some ([], s)
  read_all (suc n) s = c.read s >>= λ x. read_all n x.1 >>= λ y. some (x.0 ∷ y.0, y.1)

  read_all-write_all :
      (xs : List A) (s : String) → read_all (length xs) (write_all xs s) ≡ some (xs, s)
  unfolding read_all write_all
  read_all-write_all [] s = refl
  read_all-write_all (a ∷ xs) s = rw (c.read-write a (write_all xs s), read_all-write_all xs s) refl

  list_codec : Codec (List A)
  list_codec = record {
    write = λ xs s. write_number (length xs) (write_all xs s);
    read = λ s. read_number s >>= λ n. read_all n.0 n.1;
    read-write = λ xs s.
        rw (read_number-write_number (length xs) (write_all xs s)) (read_all-write_all xs s);
  }

write_integer : ℤ → String → String
write_integer (pos n) s = write_number 0 (write_number n s)
write_integer (negsuc n) s = write_number 1 (write_number n s)

signed : ℕ → ℕ → ℤ
signed zero n = pos n
signed (suc _) n = negsuc n

read_integer : Reader ℤ
read_integer s = read_number s >>= λ x. read_number x.1 >>= λ y. some (signed x.0 y.0, y.1)

read_integer-write_integer : (z : ℤ) (s : String) → read_integer (write_integer z s) ≡ some (z, s)
unfolding read_integer write_integer signed
read_integer-write_integer (pos n) s =
    rw (read_number-write_number 0 (write_number n s), read_number-write_number n s) refl
read_integer-write_integer (negsuc n) s =
    rw (read_number-write_number 1 (write_number n s), read_number-write_number n s) refl

integer_codec : Codec ℤ
integer_codec = record {
  write = write_integer;
  read = read_integer;
  read-write = read_integer-write_integer;
}

write_record : StoredResponse Value → String → String
write_record r s = text_codec.write r.upstream (
    value_codec.write r.response (
      (list_codec value_codec).write r.input (
        (option_codec value_codec).write r.pending_upstream_request (
          (option_codec text_codec).write r.upstream_authorization
            ((option_codec integer_codec).write r.enqueued_at s)))))

-- `null` is read as no request.
not_null : Option Value → Option Value
not_null (some null) = none
not_null o = o

read_record : String → Option (StoredResponse Value)
read_record s = text_codec.read s >>= λ a. value_codec.read a.1 >>= λ b.
    (list_codec value_codec).read b.1 >>= λ c. (option_codec value_codec).read c.1 >>= λ d.
    (option_codec text_codec).read d.1 >>= λ e. (option_codec integer_codec).read e.1 >>= λ f.
    some (record {
      upstream = a.0;
      response = b.0;
      input = c.0;
      pending_upstream_request = not_null d.0;
      upstream_authorization = e.0;
      enqueued_at = f.0;
    })

not_null_lem : (o : Option Value) → o ≢ some null → not_null o ≡ o
unfolding not_null
not_null_lem none h = refl
not_null_lem (some v) h = ground arith

read_record-write_record :
    (r : StoredResponse Value)
    → r.pending_upstream_request ≢ some null
    → read_record (write_record r "") ≡ some r
unfolding read_record write_record
read_record-write_record r plain =
    let f : String = (option_codec integer_codec).write r.enqueued_at "" in
    let e : String = (option_codec text_codec).write r.upstream_authorization f in
    let d : String = (option_codec value_codec).write r.pending_upstream_request e in
    let c : String = (list_codec value_codec).write r.input d in
    let b : String = value_codec.write r.response c in
    rw
      (
        text_codec.read-write r.upstream b,
        value_codec.read-write r.response c,
        (list_codec value_codec).read-write r.input d,
        (option_codec value_codec).read-write r.pending_upstream_request e,
        (option_codec text_codec).read-write r.upstream_authorization f,
        (option_codec integer_codec).read-write r.enqueued_at "",
        not_null_lem r.pending_upstream_request plain,
      )
      refl

pub encode : StoredResponse Value → Result String String
encode r = ok (write_record r "")

decoded : Option (StoredResponse Value) → Result String (StoredResponse Value)
decoded none = err "unreadable"
decoded (some r) = ok r

pub decode : String → Result String (StoredResponse Value)
unfolding decoded
decode s = decoded (read_record s)

pub print : Value → Result String String
unfolding value_codec
print v = ok (value_codec.write v "")

read_whole : Option (Value × String) → Result String Value
read_whole none = err "unreadable"
read_whole (some (v, s)) = ok v

pub parse : String → Result String Value
unfolding read_whole
parse s = read_whole (value_codec.read s)

abbrev pub stored_json : Json
stored_json = json encode decode print parse

decode-encode :
    (r : StoredResponse Value) (s : String)
    → r.pending_upstream_request ≢ some null
    → encode r ≡ ok s
    → decode s ≡ ok r
unfolding encode decode
decode-encode r s plain h = rw (← ok-injective h, read_record-write_record r plain) refl

pub stored_json-CodecLaws : CodecLaws stored_json
unfolding encode
stored_json-CodecLaws = record {
  encodes = λ r. (write_record r "", refl);
  decode-encode = decode-encode;
}

parse-print : (v : Value) (s : String) → print v ≡ ok s → parse s ≡ ok v
unfolding print parse
parse-print v s h = rw (← ok-injective h, value_codec.read-write v "") refl

print_not_empty : (v : Value) (s : String) → print v ≡ ok s → is_blank s ≡ false
unfolding print
print_not_empty v s h = rw (← ok-injective h) (number_not_empty (size v) (write_value v ""))

pub stored_json-TextLaws : TextLaws stored_json
stored_json-TextLaws = record {
  from_str-to_string = parse-print;
  to_string_not_empty = print_not_empty;
}

pub stored_json-PrintLaws : PrintLaws stored_json
unfolding print
stored_json-PrintLaws = record { prints = λ v. (value_codec.write v "", refl) }
