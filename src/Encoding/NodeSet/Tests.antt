-- ===== src/Encoding/NodeSet/Tests.antt =====
-- nodeset.py: runs at concrete documents.
use opcua_drafts.Encoding.NodeSet.Resolving.{load, resolve_datatype}
use opcua_drafts.Prelude.{
  String, none, some, List, [], ◌∷◌, ok, ◌≡◌, refl, dict_keys, elem, lookup, set, map, ◌>>=◌,
  Result,
}
use opcua_drafts.Text.{split_at}
use opcua_drafts.Text.Decimal.{parse_int, parse_digits}
use opcua_drafts.Encoding.Types.{struct_name}
use opcua_drafts.Encoding.NodeSet.{
  FieldElement, DataTypeElement, Loader, default_builtin_aliases, index_types,
}
use opcua_drafts.Encoding.NodeSet.Sound.{Good}
use opcua_drafts.Encoding.NodeSet.Load.{has_definition, load_lem}

abbrev plain : String → String → FieldElement
plain name id = record {
  name = name;
  data_type = some id;
  value = none;
  is_optional = none;
  value_rank = none;
}

abbrev member : String → String → FieldElement
member name v = record {
  name = name;
  data_type = none;
  value = some v;
  is_optional = none;
  value_rank = none;
}

abbrev defined_as : String → String → List FieldElement → DataTypeElement
defined_as id name fs = record {
  id = id;
  browse_name = some name;
  definition = some (record { is_union = none; is_option_set = none; fields = fs });
}

-- Two structures that refer to each other, an enumeration and a type without a Definition.
abbrev document : List DataTypeElement
document =
    defined_as "i=3001" "1:Node" (plain "Next" "i=3002" ∷ plain "Id" "i=7" ∷ [])
    ∷ defined_as "i=3002" "1:Edge"
        (plain "From" "i=3001" ∷ plain "Kind" "i=3003" ∷ plain "Far" "i=9999" ∷ [])
    ∷ defined_as "i=3003" "1:Kind" (member "A" "0" ∷ member "B" "1" ∷ [])
    ∷ record { id = "i=3004"; browse_name = some "1:Abstract"; definition = none }
    ∷ []

abbrev names_of : Result Loader → Result (List String × List String)
names_of r = do l ← r; ok (map struct_name l.structs, l.unresolved)

loads :
    names_of (load default_builtin_aliases document)
    ≡ ok ("Edge" ∷ "Node" ∷ [], "Edge.Far -> i=9999" ∷ [])
unfolding load resolve_datatype lookup set parse_int parse_digits split_at
loads = refl

load_lem_example :
    (l : Loader) × (load default_builtin_aliases document ≡ ok l)
    × (l.in_progress ≡ [])
    × Good default_builtin_aliases (index_types document []) l
    × ((id : String) → elem id (dict_keys l.cache) ≡ has_definition (index_types document []) id)
unfolding parse_int parse_digits
load_lem_example = load_lem default_builtin_aliases document (
  ((_, refl), ((_, refl), tt)),
  (((_, refl), ((_, refl), ((_, refl), tt))), ((_, refl), (tt, tt))),
)
