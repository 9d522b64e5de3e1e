-- ===== src/Encoding/Control/Access.antt =====
-- What Python does when the codec reads an attribute, subscripts a value or converts it.
use opcua_drafts.Prelude.{
  ℕ, ℤ, pos, negsuc, String, Bool, true, false, not, ◌||◌, Option, none, some, List, [], ◌∷◌,
  length, eqb, int_eq, ◌==◌, if◌then◌else◌, Result, ok, err, attribute_error, type_error, key_error,
  value_error, outside, ◌>>=◌, from_option, ◌^◌,
}
use opcua_drafts.Base64.{b64encode, b64decode}
use opcua_drafts.Encoding.Types.{BuiltInType, type_of_number}
use opcua_drafts.Encoding.Values.{
  Bytes, IdType, Obj, null, bool, int, float, str, bytes, list, dict, date_time, guid, xml_element,
  status_code, union_value, variant, data_value, Items, nil, cons, Entries, entry, lookup, has_key,
}

abbrev pub opt_int : Option ℤ → Obj
opt_int none = null
opt_int (some n) = int n

abbrev pub opt_str : Option String → Obj
opt_str none = null
opt_str (some s) = str s

-- list(dimensions)
abbrev pub int_items : List ℤ → Items
int_items [] = nil
int_items (d ∷ ds) = cons (int d) (int_items ds)

abbrev byte_items : List ℕ → Items
byte_items [] = nil
byte_items (b ∷ bs) = cons (int (pos b)) (byte_items bs)

abbrev char_items : String → Items
char_items String.[] = nil
char_items (String.◌∷◌ c s) = cons (str (String.◌∷◌ c String.[])) (char_items s)

abbrev key_items : Entries → Items
key_items Entries.end = nil
key_items (entry k v d) = cons (str k) (key_items d)

-- `for e in o`
unfoldable pub iterate : Obj → Result Items
iterate (list xs) = ok xs
iterate (bytes bs) = ok (byte_items bs)
iterate (str s) = ok (char_items s)
iterate (dict d) = ok (key_items d)
iterate _ = err type_error

-- o.ticks, o.bytes
unfoldable pub get_ticks : Obj → Result Obj
get_ticks (date_time n) = ok (int n)
get_ticks _ = err attribute_error

unfoldable pub get_bytes : Obj → Result Obj
get_bytes (guid bs) = ok (bytes bs)
get_bytes _ = err attribute_error

-- o.value, which several classes have
unfoldable pub get_value : Obj → Result Obj
get_value (xml_element s) = ok (opt_str s)
get_value (status_code n) = ok (int n)
get_value (union_value f x) = ok x
get_value (variant t x d) = ok x
get_value (data_value x s a b c d) = ok x
get_value _ = err attribute_error

-- `_b64` and `_unb64`
unfoldable pub b64 : Obj → Result Obj
b64 (bytes bs) = ok (str (b64encode bs))
b64 _ = err type_error

unfoldable pub unb64 : Obj → Result Bytes
unb64 (str s) = b64decode s
unb64 _ = err attribute_error

-- o[k], for a text k
unfoldable pub subscript : Obj → String → Result Obj
subscript (dict d) k = from_option key_error (lookup k d)
subscript _ k = err type_error

-- o.get(k): None for a missing key
unfoldable pub get : Obj → String → Result Obj
get (dict d) k = elim (lookup k d) [ none ↦ ok null | some v ↦ ok v ]
get _ k = err attribute_error

-- k in o
unfoldable pub contains : Obj → String → Result Bool
contains (dict d) k = ok (has_key k d)
contains (list xs) k = err outside
contains (str s) k = err outside
contains _ k = err type_error

-- int(o); the texts, bytes and floats that it also accepts are outside the model.
unfoldable pub to_int : Obj → Result ℤ
to_int (int n) = ok n
to_int (bool b) = ok (pos (if b then 1 else 0))
to_int (float f) = err outside
to_int (str s) = err outside
to_int (bytes s) = err outside
to_int _ = err type_error

abbrev is_nil : Items → Bool
is_nil nil = true
is_nil _ = false

-- bool(o): the zero of each kind is false, -0.0 too.
unfoldable pub truth : Obj → Bool
truth null = false
truth (bool b) = b
truth (int n) = not (int_eq n (pos 0))
truth (float f) = not (eqb f 0 || eqb f (2 ^ 63))
truth (str s) = not (s == "")
truth (bytes []) = false
truth (list xs) = not (is_nil xs)
truth (dict Entries.end) = false
truth _ = true

-- `o is None`
abbrev pub is_null : Obj → Bool
is_null null = true
is_null _ = false

-- A field annotated `int`, `Optional[int]` or `Optional[str]` is filled from a document with no
-- check. The model holds only what the annotation allows.
unfoldable pub as_int : Obj → Result ℤ
as_int (int n) = ok n
as_int _ = err outside

unfoldable pub as_opt_int : Obj → Result (Option ℤ)
as_opt_int null = ok none
as_opt_int (int n) = ok (some n)
as_opt_int _ = err outside

unfoldable pub as_opt_str : Obj → Result (Option String)
as_opt_str null = ok none
as_opt_str (str s) = ok (some s)
as_opt_str _ = err outside

-- tuple(xs) of dimensions
unfoldable pub as_ints : Items → Result (List ℤ)
as_ints nil = ok []
as_ints (cons x xs) = do n ← as_int x; ns ← as_ints xs; ok (n ∷ ns)

-- `Guid.__post_init__`
unfoldable pub make_guid : Bytes → Result Bytes
make_guid bs = if eqb (length bs) 16 then ok bs else err value_error

-- v.IdType(n) and t.BuiltInType(n)
unfoldable pub to_id_type : ℤ → Result IdType
to_id_type (pos n) =
    if eqb n 0
    then ok IdType.numeric
    else if eqb n 1
    then ok IdType.string
    else if eqb n 2
    then ok IdType.guid
    else if eqb n 3
    then ok IdType.opaque
    else err value_error
to_id_type (negsuc n) = err value_error

unfoldable pub to_built_in_type : ℤ → Result BuiltInType
to_built_in_type (pos n) = from_option value_error (type_of_number n)
to_built_in_type (negsuc n) = err value_error
