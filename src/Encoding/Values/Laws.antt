-- ===== src/Encoding/Values/Laws.antt =====
-- Laws of the equalities of values.py, and of the dict operations.
use opcua_drafts.Prelude.{
  ℤ, String, Bool, true, false, Option, none, some, List, [], ◌∷◌, ◌≡◌, refl, arith, eqb, eqb_refl,
  int_eq, int_eq_refl, eq_iff, eq_refl, ◌==◌, if◌then◌else◌, &&-intro, Bool-cases, inl, inr,
}
use opcua_drafts.Encoding.Values.{
  Bytes, IdType, Identifier, number, text, guid_bytes, opaque_bytes, absent, NodeId, Obj, Entries,
  entry, lookup, has_key, insert, option_eq, list_eq, id_type_eq, identifier_eq, node_id_eq,
  option_int_eq, option_str_eq,
}

module _ {ℓ} {A : Type ℓ} (eq : A → A → Bool) (same : (a : A) → eq a a ≡ true) where
  pub option_eq_refl : (o : Option A) → option_eq eq o o ≡ true
  option_eq_refl none = refl
  option_eq_refl (some a) = same a

  pub list_eq_refl : (xs : List A) → list_eq eq xs xs ≡ true
  list_eq_refl [] = refl
  list_eq_refl (x ∷ xs) = &&-intro (same x) (list_eq_refl xs)

pub bytes_eq_refl : (bs : Bytes) → list_eq eqb bs bs ≡ true
bytes_eq_refl = list_eq_refl eqb eqb_refl

pub ints_eq_refl : (ds : List ℤ) → list_eq int_eq ds ds ≡ true
ints_eq_refl = list_eq_refl int_eq int_eq_refl

pub option_int_eq_refl : (o : Option ℤ) → option_int_eq o o ≡ true
option_int_eq_refl = option_eq_refl int_eq int_eq_refl

pub option_str_eq_refl : (o : Option String) → option_str_eq o o ≡ true
option_str_eq_refl = option_eq_refl ◌==◌ eq_refl

pub id_type_eq_refl : (t : IdType) → id_type_eq t t ≡ true
id_type_eq_refl IdType.numeric = refl
id_type_eq_refl IdType.string = refl
id_type_eq_refl IdType.guid = refl
id_type_eq_refl IdType.opaque = refl

pub identifier_eq_refl : (n : Identifier) → identifier_eq n n ≡ true
identifier_eq_refl (number n) = int_eq_refl n
identifier_eq_refl (text s) = eq_refl s
identifier_eq_refl (guid_bytes bs) = bytes_eq_refl bs
identifier_eq_refl (opaque_bytes bs) = bytes_eq_refl bs
identifier_eq_refl absent = refl

pub node_id_eq_refl : (n : NodeId) → node_id_eq n n ≡ true
node_id_eq_refl n =
    &&-intro (&&-intro (int_eq_refl n.namespace) (id_type_eq_refl n.id_type))
      (identifier_eq_refl n.identifier)

abbrev pub is_some {ℓ} : {A : Type ℓ} → Option A → Bool
is_some none = false
is_some (some a) = true

pub has_key-lookup : (k : String) (d : Entries) → has_key k d ≡ is_some (lookup k d)
unfolding has_key lookup
has_key-lookup k Entries.end = refl
has_key-lookup k (entry j v d) = ground (arith, has_key-lookup k d)

pub lookup-insert :
    (k j : String) (v : Obj) (d : Entries)
    → lookup k (insert j v d) ≡ (if j == k then some v else lookup k d)
unfolding lookup insert
lookup-insert k j v Entries.end = refl
lookup-insert k j v (entry i w d) =
    ground (arith, eq_iff j k, eq_iff i k, eq_iff i j, lookup-insert k j v d)

pub lookup-insert_self : (k : String) (v : Obj) (d : Entries) → lookup k (insert k v d) ≡ some v
lookup-insert_self k v d = simp (lookup-insert, eq_refl)

pub lookup-insert_ne :
    (k j : String) (v : Obj) (d : Entries) → (j ≡ k → ⊥) → lookup k (insert j v d) ≡ lookup k d
lookup-insert_ne k j v d h = rw lookup-insert (ground (arith, eq_iff j k))

-- A predicate on the entries of a dict.
abbrev pub AllEntries {ℓ} : (String → Obj → Type ℓ) → Entries → Type ℓ
AllEntries P Entries.end = Unit
AllEntries P (entry k v d) = P k v × AllEntries P d

pub AllEntries-insert {ℓ} :
    (P : String → Obj → Type ℓ) (k : String) (v : Obj) (d : Entries)
    → P k v
    → AllEntries P d
    → AllEntries P (insert k v d)
unfolding insert
AllEntries-insert P k v Entries.end p h = (p, tt)
AllEntries-insert P k v (entry j w d) p (q, h) = elim (Bool-cases (j == k)) [
  | inl e ↦ rw e (p, h)
  | inr e ↦ rw e (q, AllEntries-insert P k v d p h)
]
