-- ===== src/Encoding/Control/RoundTrip/Sparse.antt =====
-- Dicts whose absent members are not written: what stands under each key, and how it is read.
use opcua_drafts.Prelude.{
  ℤ, String, Bool, true, Option, none, some, ◌≡◌, refl, ok, arith, if◌then◌else◌, ◌==◌,
}
use opcua_drafts.Encoding.Values.{Obj, dict, Entries, lookup}
use opcua_drafts.Encoding.Values.Laws.{has_key-lookup, lookup-insert}
use opcua_drafts.Encoding.Control.Access.{subscript, get, contains, as_int, as_opt_int, as_opt_str}
use opcua_drafts.Encoding.Control.Encode.{put_some, some_int, some_str}
use opcua_drafts.Encoding.Control.Decode.{some_status, get_int, get_str}
use opcua_drafts.Encoding.Control.RoundTrip.{is_json, is_json_dict}
use opcua_drafts.Encoding.Control.RoundTrip.Keys.{is_json_dict-insert}

abbrev pub or_else : Option Obj → Option Obj → Option Obj
or_else none r = r
or_else (some o) r = some o

pub or_else-none : (o : Option Obj) → or_else o none ≡ o
or_else-none none = refl
or_else-none (some o) = refl

pub lookup-put_some :
    (k j : String) (o : Option Obj) (d : Entries)
    → lookup k (put_some j o d) ≡ (if j == k then or_else o (lookup k d) else lookup k d)
unfolding put_some
lookup-put_some k j none d = ground arith
lookup-put_some k j (some o) d = lookup-insert k j o d

pub lookup-end : (k : String) → lookup k Entries.end ≡ none
unfolding lookup
lookup-end k = refl

pub ruleset sparse = (lookup-put_some, lookup-end, or_else-none)

abbrev pub json_some : Option Obj → Bool
json_some none = true
json_some (some o) = is_json o

pub is_json_dict-put_some :
    (k : String) (o : Option Obj) (d : Entries)
    → json_some o ≡ true
    → is_json_dict d ≡ true
    → is_json_dict (put_some k o d) ≡ true
unfolding put_some
is_json_dict-put_some k none d h j = j
is_json_dict-put_some k (some o) d h j = is_json_dict-insert k o d h j

pub some_int-json : (n : Option ℤ) → json_some (some_int n) ≡ true
unfolding is_json
some_int-json none = refl
some_int-json (some n) = refl

pub some_str-json : (s : Option String) → json_some (some_str s) ≡ true
unfolding is_json
some_str-json none = refl
some_str-json (some s) = refl

pub is_json_dict-end : is_json_dict Entries.end ≡ true
unfolding is_json
is_json_dict-end = refl

pub ruleset sparse_json = (is_json_dict-put_some, some_int-json, some_str-json, is_json_dict-end)

pub some_status-lookup :
    (d : Entries) (k : String) (n : Option ℤ)
    → lookup k d ≡ some_int n
    → some_status (dict d) k ≡ ok n
unfolding some_status contains subscript as_int
some_status-lookup d k none h = rw (has_key-lookup, h)
some_status-lookup d k (some n) h = rw (has_key-lookup, h)

pub get_int-lookup :
    (d : Entries) (k : String) (n : Option ℤ) → lookup k d ≡ some_int n → get_int (dict d) k ≡ ok n
unfolding get_int get as_opt_int
get_int-lookup d k none h = rw (h, get)
get_int-lookup d k (some n) h = rw (h, get)

pub get_str-lookup :
    (d : Entries) (k : String) (s : Option String)
    → lookup k d ≡ some_str s
    → get_str (dict d) k ≡ ok s
unfolding get_str get as_opt_str
get_str-lookup d k none h = rw (h, get)
get_str-lookup d k (some n) h = rw (h, get)
