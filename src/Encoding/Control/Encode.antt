-- ===== src/Encoding/Control/Encode.antt =====
-- opcua_enc/json_control.py, the encoder. `encode` is the recursive call of `encode_value`: a call
-- of `_encode_struct`, `_encode_builtin`, `_encode_variant` or `_encode_diag` on a part of the value
-- goes through the branch of `encode_value` that makes just that call.
use opcua_drafts.Prelude.{
  ℕ, zero, suc, ℤ, pos, String, Option, none, some, List, ◌==◌, if◌then◌else◌, Result, ok, err,
  assertion_error, attribute_error, value_error, stop_iteration, recursion_error, ◌>>=◌,
}
use opcua_drafts.Encoding.Types.{
  BuiltInType as B, Descriptor, builtin, array, enumeration, struct, Fields, field, Struct,
  structure_type, union, type_number,
}
use opcua_drafts.Encoding.Values.{
  Obj, null, int, str, list, dict, extension_object, struct_value, union_value, matrix, variant,
  data_value, diagnostic_info, Items, nil, cons, Entries, entry, lookup, insert,
}
use opcua_drafts.Encoding.Control.Access.{int_items, iterate, to_int, is_null}
use opcua_drafts.Encoding.Control.Leaves.{encode_node_id, encode_scalar}
use opcua_drafts.Encoding.Control.Registry.{Registry, resolve}

-- out[k] = o, if there is an o
unfoldable pub put_some : String → Option Obj → Entries → Entries
put_some k none out = out
put_some k (some o) out = insert k o out

abbrev pub some_int : Option ℤ → Option Obj
some_int none = none
some_int (some n) = some (int n)

abbrev pub some_str : Option String → Option Obj
some_str none = none
some_str (some s) = some (str s)

-- the field of that name
unfoldable pub find_field : String → Fields → Result Descriptor
find_field k Fields.end = err stop_iteration
find_field k (field n t o s fs) = if n == k then ok t else find_field k fs

abbrev dims_then : Option (List ℤ) → Obj → Entries
dims_then none o = entry "v" o Entries.end
dims_then (some ds) o = entry "d" (list (int_items ds)) (entry "v" o Entries.end)

abbrev pub variant_dict : B → ℕ → Option (List ℤ) → Obj → Obj
variant_dict b a dims o =
    dict (entry "t" (int (pos (type_number b))) (entry "a" (int (pos a)) (dims_then dims o)))

module _ (encode : Descriptor → Obj → Result Obj) where
  -- [None if e is None else encode_value(element, e, reg) for e in val]
  unfoldable pub encode_items : Descriptor → Items → Result Items
  encode_items t nil = ok nil
  encode_items t (cons e es) = do
    o ← if is_null e then ok null else encode t e
    os ← encode_items t es
    ok (cons o os)

  -- the loop of `_encode_struct`, which fills `out`
  unfoldable pub encode_fields : Fields → Entries → Entries → Result Entries
  encode_fields Fields.end values out = ok out
  encode_fields (field n t optional s fs) values out = elim (lookup n values) [
    | none ↦ if optional then encode_fields fs values out else err value_error
    | some v ↦ do o ← encode t v; encode_fields fs values (insert n o out)
  ]

  unfoldable pub encode_union : Fields → Obj → Result Obj
  encode_union fs (union_value none v) = ok (dict (entry "switch" null Entries.end))
  encode_union fs (union_value (some f) v) = do
    t ← find_field f fs
    o ← encode t v
    ok (dict (entry "switch" (str f) (entry "value" o Entries.end)))
  encode_union fs _ = err assertion_error

  unfoldable pub encode_plain : Fields → Obj → Result Obj
  unfolding encode_fields
  encode_plain fs (struct_value values n) = do
    out ← encode_fields fs values Entries.end
    ok (dict out)
  encode_plain fs _ = err assertion_error

  -- `_encode_struct`
  unfoldable pub encode_struct : Struct → Obj → Result Obj
  unfolding encode_union encode_plain
  encode_struct (structure_type n fs union t e) v = encode_union fs v
  encode_struct (structure_type n fs _ t e) v = encode_plain fs v

  -- `_encode_extobj`
  unfoldable pub encode_extobj : Registry → Obj → Result Obj
  encode_extobj reg (extension_object type_id body) =
      if is_null body
      then (do
        n ← encode_node_id type_id
        ok (dict (entry "typeId" n (entry "body" null Entries.end))))
      else do
        s ← resolve reg type_id
        n ← encode_node_id type_id
        o ← encode (struct s) body
        ok (dict (entry "typeId" n (entry "body" o Entries.end)))
  encode_extobj reg _ = err attribute_error

  -- `_encode_variant`; the test `isinstance(var.value, list)` is the pattern `list es`.
  unfoldable pub encode_variant : Obj → Result Obj
  encode_variant (variant none v dims) = ok (dict (entry "t" (int (pos 0)) Entries.end))
  encode_variant (variant (some (builtin b)) (list es) dims) = do
    os ← encode_items (builtin b) es
    ok (variant_dict b 1 dims (list os))
  encode_variant (variant (some (builtin b)) v dims) = do
    o ← encode (builtin b) v
    ok (variant_dict b 0 dims o)
  encode_variant (variant (some _) v dims) = err assertion_error
  encode_variant _ = err attribute_error

  -- the entry of a value that need not be there
  unfoldable pub encode_some : Descriptor → Obj → Result (Option Obj)
  encode_some t v = if is_null v then ok none else do o ← encode t v; ok (some o)

  -- `_encode_datavalue`
  unfoldable pub encode_data_value : Obj → Result Obj
  unfolding encode_some
  encode_data_value (data_value v status src_ts src_ps srv_ts srv_ps) = do
    o ← encode_some (builtin B.variant) v
    ok (
        dict (
          put_some "srvPs" (some_int srv_ps) (
            put_some "srvTs" (some_int srv_ts) (
              put_some "srcPs" (some_int src_ps) (
                put_some "srcTs" (some_int src_ts)
                  (put_some "status" (some_int status) (put_some "value" o Entries.end)))))))
  encode_data_value _ = err attribute_error

  -- `_encode_diag`
  unfoldable pub encode_diag : Obj → Result Obj
  unfolding encode_some
  encode_diag (diagnostic_info sym ns loc lt info ist inner) = do
    o ← encode_some (builtin B.diagnostic_info) inner
    ok (
        dict (
          put_some "inner" o (
            put_some "ist" (some_int ist) (
              put_some "info" (some_str info) (
                put_some "lt" (some_int lt) (
                  put_some "loc" (some_int loc)
                    (put_some "ns" (some_int ns) (put_some "sym" (some_int sym) Entries.end))))))))
  encode_diag _ = err attribute_error

  -- `_encode_builtin`
  unfoldable pub encode_builtin : Registry → B → Obj → Result Obj
  unfolding encode_scalar encode_extobj encode_variant encode_data_value encode_diag
  encode_builtin reg B.extension_object v = encode_extobj reg v
  encode_builtin reg B.variant v = encode_variant v
  encode_builtin reg B.data_value v = encode_data_value v
  encode_builtin reg B.diagnostic_info v = encode_diag v
  encode_builtin reg b v = encode_scalar b v

  unfoldable pub encode_array : Descriptor → Obj → Result Obj
  encode_array t null = ok null
  encode_array t v = do es ← iterate v; os ← encode_items t es; ok (list os)

  unfoldable pub encode_matrix : Descriptor → Obj → Result Obj
  encode_matrix t null = ok null
  encode_matrix t (matrix dims es) = do
    os ← encode_items t es
    ok (dict (entry "dims" (list (int_items dims)) (entry "values" (list os) Entries.end)))
  encode_matrix t _ = err attribute_error

  -- The body of `encode_value`.
  unfoldable pub encode_body : Registry → Descriptor → Obj → Result Obj
  unfolding encode_array encode_matrix encode_struct encode_builtin
  encode_body reg (array t nullable) v = encode_array t v
  encode_body reg (Descriptor.matrix t nullable) v = encode_matrix t v
  encode_body reg (enumeration e) v = do n ← to_int v; ok (int n)
  encode_body reg (struct s) v = encode_struct s v
  encode_body reg (builtin b) v = encode_builtin reg b v

-- The fuel is the depth to which the calls may nest.
unfoldable pub encode_value : Registry → ℕ → Descriptor → Obj → Result Obj
unfolding encode_body
encode_value reg zero t v = err recursion_error
encode_value reg (suc n) t v = encode_body (encode_value reg n) reg t v
