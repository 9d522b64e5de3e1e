-- ===== src/Encoding/Control/RoundTrip.antt =====
-- What it means that the control codec loses nothing of a value.
pub mod Identifiers
pub mod Scalars
pub mod Names
pub mod Parts
pub mod Keys
pub mod Members
pub mod Structures
pub mod Variants
pub mod Sparse
pub mod Records
pub mod Values
pub mod Nulls
use opcua_drafts.Prelude.{
  ℕ, Bool, true, false, ◌&&◌, Option, some, ◌≡◌, ◌⊎◌, inl, inr, sym, ◌∙◌, subst, false≢true,
  Bool-cases, Result, ok,
}
use opcua_drafts.Encoding.Types.{Descriptor}
use opcua_drafts.Encoding.Values.{
  Obj, null, bool, int, float, str, list, dict, Items, nil, cons, Entries, entry, canonical_equal,
  is_single_float_type,
}
use opcua_drafts.Encoding.Control.Access.{is_null}
use opcua_drafts.Encoding.Control.Typed.{encodes_null}

-- What `json.dumps` accepts and `json.loads` gives back: no bytes and no dataclass.
unfoldable mutual
  pub is_json : Obj → Bool
  is_json null = true
  is_json (bool b) = true
  is_json (int n) = true
  is_json (float f) = true
  is_json (str s) = true
  is_json (list xs) = are_json xs
  is_json (dict d) = is_json_dict d
  is_json _ = false

  pub are_json : Items → Bool
  are_json nil = true
  are_json (cons x xs) = is_json x && are_json xs

  pub is_json_dict : Entries → Bool
  is_json_dict Entries.end = true
  is_json_dict (entry k v d) = is_json v && is_json_dict d

-- How the values of a descriptor are compared: as single-precision numbers only if it is Float.
abbrev pub Compares : Descriptor → Bool → Type 0
Compares t single = (single ≡ false) ⊎ (is_single_float_type (some t) ≡ true)

-- The comparison that is_single_float_type chooses.
pub own_Compares : (t : Descriptor) → Compares t (is_single_float_type (some t))
own_Compares t = elim (Bool-cases (is_single_float_type (some t))) [ inl e ↦ inr e | inr e ↦ inl e ]

-- What holds of the comparison of doubles holds of each comparison at another type than Float.
pub only_double :
    (t : Descriptor) (Q : Bool → Type 0)
    → is_single_float_type (some t) ≡ false
    → Q false
    → (single : Bool) → Compares t single
    → Q single
only_double t Q e q single (inl h) = subst Q (sym h) q
only_double t Q e q single (inr h) = absurd (false≢true (sym e ∙ h))

-- The encoder succeeds, with a JSON document; the decoder succeeds on it; the result is equal in the
-- sense of `canonical_equal`, also with the flag single_float if the type is Float. A value that is not
-- written as null is not read as null.
pub record RoundTrips (single_bits : ℕ → Option ℕ) (encode decode : Descriptor → Obj → Result Obj)
    (t : Descriptor) (v : Obj) : Type 0 where
  pub encoded : Obj
  pub decoded : Obj
  pub encodes : encode t v ≡ ok encoded
  pub decodes : decode t encoded ≡ ok decoded
  pub equal :
      (single : Bool) → Compares t single → canonical_equal single_bits decoded v single ≡ ok true
  pub json : is_json encoded ≡ true
  pub not_null : encodes_null v ≡ false → is_null encoded ≡ false
