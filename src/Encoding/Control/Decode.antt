-- ===== src/Encoding/Control/Decode.antt =====
-- opcua_enc/json_control.py, the decoder. `decode` is the recursive call of `decode_value`, as in the
-- encoder.
use opcua_drafts.Prelude.{
  ℕ, zero, suc, ℤ, pos, String, Option, none, some, List, int_eq, if◌then◌else◌, Result, ok, err,
  stop_iteration, type_error, outside, recursion_error, ◌>>=◌,
}
use opcua_drafts.Encoding.Types.{
  BuiltInType as B, Descriptor, builtin, array, enumeration, struct, Fields, field, Struct,
  structure_type, union,
}
use opcua_drafts.Encoding.Values.{
  Obj, null, int, str, list, dict, extension_object, struct_value, union_value, matrix, variant,
  data_value, diagnostic_info, Items, nil, cons, Entries, lookup, insert,
}
use opcua_drafts.Encoding.Control.Access.{
  iterate, subscript, get, contains, to_int, truth, is_null, as_int, as_opt_int, as_opt_str,
  as_ints, to_built_in_type,
}
use opcua_drafts.Encoding.Control.Leaves.{decode_node_id, decode_scalar}
use opcua_drafts.Encoding.Control.Registry.{Registry, resolve}
use opcua_drafts.Encoding.Control.Encode.{find_field}

switch_name : Obj → Result String
switch_name (str s) = ok s
switch_name _ = err stop_iteration

decode_dims : Obj → Result (Option (List ℤ))
decode_dims obj = do
  present ← contains obj "d"
  if present
      then (do o ← subscript obj "d"; es ← iterate o; ds ← as_ints es; ok (some ds))
      else ok none

-- obj[k] of a key that need not be there, as an int; and obj.get(k)
unfoldable pub some_status : Obj → String → Result (Option ℤ)
some_status obj k = do
  present ← contains obj k
  if present then (do o ← subscript obj k; n ← as_int o; ok (some n)) else ok none

unfoldable pub get_int : Obj → String → Result (Option ℤ)
get_int obj k = do o ← get obj k; as_opt_int o

unfoldable pub get_str : Obj → String → Result (Option String)
get_str obj k = do o ← get obj k; as_opt_str o

module _ (decode : Descriptor → Obj → Result Obj) where
  unfoldable pub decode_items : Descriptor → Items → Result Items
  decode_items t nil = ok nil
  decode_items t (cons o os) = do
    e ← if is_null o then ok null else decode t o
    es ← decode_items t os
    ok (cons e es)

  -- the loop of `_decode_struct`, which fills `fields`, over a dict
  unfoldable pub decode_fields : Fields → Entries → Entries → Result Entries
  decode_fields Fields.end d values = ok values
  decode_fields (field n t optional s fs) d values = elim (lookup n d) [
    | none ↦ decode_fields fs d values
    | some o ↦ do v ← decode t o; decode_fields fs d (insert n v values)
  ]

  unfoldable pub decode_plain : String → Fields → Obj → Result Obj
  unfolding decode_fields
  decode_plain name fs (dict d) = do
    values ← decode_fields fs d Entries.end
    ok (struct_value values (some name))
  decode_plain name Fields.end _ = ok (struct_value Entries.end (some name))
  decode_plain name fs (list xs) = err outside
  decode_plain name fs (str s) = err outside
  decode_plain name fs _ = err type_error

  unfoldable pub decode_union : Fields → Obj → Result Obj
  unfolding switch_name
  decode_union fs obj = do
    switch ← get obj "switch"
    if is_null switch then ok (union_value none null) else do
      f ← switch_name switch
      t ← find_field f fs
      o ← subscript obj "value"
      v ← decode t o
      ok (union_value (some f) v)

  -- `_decode_struct`
  unfoldable pub decode_struct : Struct → Obj → Result Obj
  unfolding decode_union decode_plain
  decode_struct (structure_type n fs union t e) o = decode_union fs o
  decode_struct (structure_type n fs _ t e) o = decode_plain n fs o

  -- `_decode_extobj`
  unfoldable pub decode_extobj : Registry → Obj → Result Obj
  decode_extobj reg obj = do
    o ← subscript obj "typeId"
    type_id ← decode_node_id o
    body ← subscript obj "body"
    if is_null body
        then ok (extension_object type_id null)
        else do s ← resolve reg type_id; v ← decode (struct s) body; ok (extension_object type_id v)

  -- `_decode_variant`
  unfoldable pub decode_variant : Obj → Result Obj
  unfolding decode_dims
  decode_variant obj = do
    t ← subscript obj "t"
    tid ← as_int t
    if int_eq tid (pos 0) then ok (variant none null none) else do
      b ← to_built_in_type tid
      dims ← decode_dims obj
      a ← get obj "a"
      o ← subscript obj "v"
      if truth a
          then (do
            os ← iterate o
            es ← decode_items (builtin b) os
            ok (variant (some (builtin b)) (list es) dims))
          else do v ← decode (builtin b) o; ok (variant (some (builtin b)) v dims)

  -- obj[k] of a key that need not be there, decoded
  unfoldable pub decode_some : Descriptor → Obj → String → Result Obj
  decode_some t obj k = do
    present ← contains obj k
    if present then (do o ← subscript obj k; decode t o) else ok null

  -- `_decode_datavalue`
  unfoldable pub decode_data_value : Obj → Result Obj
  unfolding decode_some some_status get_int
  decode_data_value obj = do
    v ← decode_some (builtin B.variant) obj "value"
    status ← some_status obj "status"
    src_ts ← some_status obj "srcTs"
    src_ps ← get_int obj "srcPs"
    srv_ts ← some_status obj "srvTs"
    srv_ps ← get_int obj "srvPs"
    ok (data_value v status src_ts src_ps srv_ts srv_ps)

  -- `_decode_diag`
  unfoldable pub decode_diag : Obj → Result Obj
  unfolding decode_some some_status get_int get_str
  decode_diag obj = do
    sym ← get_int obj "sym"
    ns ← get_int obj "ns"
    loc ← get_int obj "loc"
    lt ← get_int obj "lt"
    info ← get_str obj "info"
    ist ← some_status obj "ist"
    inner ← decode_some (builtin B.diagnostic_info) obj "inner"
    ok (diagnostic_info sym ns loc lt info ist inner)

  -- `_decode_builtin`
  unfoldable pub decode_builtin : Registry → B → Obj → Result Obj
  unfolding decode_scalar decode_extobj decode_variant decode_data_value decode_diag
  decode_builtin reg B.extension_object o = decode_extobj reg o
  decode_builtin reg B.variant o = decode_variant o
  decode_builtin reg B.data_value o = decode_data_value o
  decode_builtin reg B.diagnostic_info o = decode_diag o
  decode_builtin reg b o = decode_scalar b o

  unfoldable pub decode_array : Descriptor → Obj → Result Obj
  decode_array t null = ok null
  decode_array t o = do os ← iterate o; es ← decode_items t os; ok (list es)

  unfoldable pub decode_matrix : Descriptor → Obj → Result Obj
  decode_matrix t null = ok null
  decode_matrix t obj = do
    d ← subscript obj "dims"
    ds ← iterate d
    dims ← as_ints ds
    o ← subscript obj "values"
    os ← iterate o
    es ← decode_items t os
    ok (matrix dims es)

  -- The body of `decode_value`.
  unfoldable pub decode_body : Registry → Descriptor → Obj → Result Obj
  unfolding decode_array decode_matrix decode_struct decode_builtin
  decode_body reg (array t nullable) o = decode_array t o
  decode_body reg (Descriptor.matrix t nullable) o = decode_matrix t o
  decode_body reg (enumeration e) o = do n ← to_int o; ok (int n)
  decode_body reg (struct s) o = decode_struct s o
  decode_body reg (builtin b) o = decode_builtin reg b o

unfoldable pub decode_value : Registry → ℕ → Descriptor → Obj → Result Obj
unfolding decode_body
decode_value reg zero t o = err recursion_error
decode_value reg (suc n) t o = decode_body (decode_value reg n) reg t o
