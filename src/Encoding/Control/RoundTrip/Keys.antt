-- ===== src/Encoding/Control/RoundTrip/Keys.antt =====
-- The keys of the dicts that the loops over fields build and read.
use opcua_drafts.Prelude.{
  String, Bool, true, ◌||◌, none, ◌≡◌, refl, sym, ◌∙◌, ◌==◌, eq_refl, &&-intro, inl, inr, arith,
  Bool-cases, &&-left, &&-right,
}
use opcua_drafts.Encoding.Types.{Fields, field}
use opcua_drafts.Encoding.Values.{Obj, Entries, entry, lookup, has_key, insert, keys_within}
use opcua_drafts.Encoding.Values.Laws.{
  has_key-lookup, lookup-insert_self, lookup-insert_ne, lookup-insert,
}
use opcua_drafts.Encoding.Control.Typed.{Lacks}
use opcua_drafts.Encoding.Control.RoundTrip.{is_json_dict, is_json}

-- No field of the structure is a key yet.
abbrev pub IsFresh : Fields → Entries → Type 0
IsFresh Fields.end out = Unit
IsFresh (field n t o s fs) out = (lookup n out ≡ none) × IsFresh fs out

pub IsFresh-insert :
    (fs : Fields) (n : String) (o : Obj) (out : Entries)
    → Lacks n fs
    → IsFresh fs out
    → IsFresh fs (insert n o out)
IsFresh-insert Fields.end n o out l h = tt
IsFresh-insert (field m t p s fs) n o out l h =
    (lookup-insert_ne m n o out (λ e. l.0 (sym e)) ∙ h.0, IsFresh-insert fs n o out l.1 h.1)

pub IsFresh-end : (fs : Fields) → IsFresh fs Entries.end
unfolding lookup
IsFresh-end Fields.end = tt
IsFresh-end (field n t o s fs) = (refl, IsFresh-end fs)

pub is_json_dict-insert :
    (k : String) (o : Obj) (d : Entries)
    → is_json o ≡ true
    → is_json_dict d ≡ true
    → is_json_dict (insert k o d) ≡ true
unfolding is_json insert
is_json_dict-insert k o Entries.end h j = rw h
is_json_dict-insert k o (entry i w d) h j = elim (Bool-cases (i == k)) [
  | inl e ↦ rw e (&&-intro h (&&-right _ _ j))
  | inr e ↦ rw e (&&-intro (&&-left _ _ j) (is_json_dict-insert k o d h (&&-right _ _ j)))
]

pub has_key-insert :
    (k j : String) (v : Obj) (d : Entries) → has_key k d ≡ true → has_key k (insert j v d) ≡ true
has_key-insert k j v d h = elim (Bool-cases (j == k)) [
  | inl e ↦ rw (has_key-lookup, lookup-insert, e)
  | inr e ↦ rw (has_key-lookup, lookup-insert, e, ← has_key-lookup, h)
]

pub has_key-insert_self : (k : String) (v : Obj) (d : Entries) → has_key k (insert k v d) ≡ true
has_key-insert_self k v d = rw (has_key-lookup, lookup-insert_self)

pub or_true : (a b : Bool) → b ≡ true → (a || b) ≡ true
or_true a b h = ground arith

pub keys_within-entry :
    (k : String) (v : Obj) (c d : Entries)
    → keys_within c d ≡ true
    → keys_within c (entry k v d) ≡ true
unfolding has_key
keys_within-entry k v Entries.end d h = refl
keys_within-entry k v (entry j w c) d h =
    &&-intro (or_true (k == j) _ (&&-left _ _ h)) (keys_within-entry k v c d (&&-right _ _ h))

pub keys_within_refl : (d : Entries) → keys_within d d ≡ true
unfolding has_key
keys_within_refl Entries.end = refl
keys_within_refl (entry k v d) =
    &&-intro (rw (eq_refl k)) (keys_within-entry k v d d (keys_within_refl d))
