-- ===== src/Prelude/Dict.antt =====
-- Python's dicts with texts as keys: association lists in the order of insertion.
use Prim.Native.String.{String}
use mathlib.Core.Path.{◌≡◌, refl, sym, ap, ◌∙◌, subst}
use mathlib.Core.Bool.{true, false, false≢true, ◌||◌}
use mathlib.Core.Logic.{inl, inr}
use mathlib.Core.Option.{Option, none, some}
use mathlib.Core.List.{List, [], ◌∷◌, ◌++◌}
use native.Mathlib.Omega.{arith}
use text.Mathlib.Text.{◌==◌}
use text.Mathlib.TextEquality.{eq_iff}
use text.Mathlib.TextPositions.{eq_refl}
use opcua_drafts.Prelude.Tests.{Bool-cases}
use opcua_drafts.Prelude.Lists.{All}
use opcua_drafts.Prelude.Elements.{elem, NoDup, elem-append}

module _ {ℓ} {A : Type ℓ} where
  abbrev pub dict_keys : List (String × A) → List String
  dict_keys [] = []
  dict_keys ((k, v) ∷ d) = k ∷ dict_keys d

  -- d.get(key)
  unfoldable pub lookup : String → List (String × A) → Option A
  lookup key [] = none
  lookup key ((k, v) ∷ d) =
      let rest = lookup key d in elim (k == key) [ true ↦ some v | false ↦ rest ]

  -- d[key] = value
  unfoldable pub set : String → A → List (String × A) → List (String × A)
  set key value [] = (key, value) ∷ []
  set key value ((k, v) ∷ d) =
      let rest = set key value d in
      elim (k == key) [ true ↦ (k, value) ∷ d | false ↦ (k, v) ∷ rest ]

  pub lookup-skip :
      (x k : String) (v : A) (d : List (String × A))
      → (k == x) ≡ false
      → lookup x ((k, v) ∷ d) ≡ lookup x d
  unfolding lookup
  lookup-skip x k v d h = rw (h, lookup)

  pub lookup-hit :
      (x k : String) (v : A) (d : List (String × A))
      → (k == x) ≡ true
      → lookup x ((k, v) ∷ d) ≡ some v
  unfolding lookup
  lookup-hit x k v d h = rw (h, lookup)

  set-skip :
      (key k : String) (v w : A) (d : List (String × A))
      → (k == key) ≡ false
      → set key v ((k, w) ∷ d) ≡ (k, w) ∷ set key v d
  unfolding set
  set-skip key k v w d h = rw (h, set)

  set-hit :
      (key k : String) (v w : A) (d : List (String × A))
      → (k == key) ≡ true
      → set key v ((k, w) ∷ d) ≡ (k, v) ∷ d
  unfolding set
  set-hit key k v w d h = rw (h, set)

  pub lookup-none :
      (key : String) (d : List (String × A)) → elem key (dict_keys d) ≡ false → lookup key d ≡ none
  unfolding lookup
  lookup-none key [] h = refl
  lookup-none key ((k, v) ∷ d) h = elim (Bool-cases (k == key)) [
    | inl e ↦ ground arith
    | inr e ↦ rw (e, lookup) (lookup-none key d (ground arith))
  ]

  pub lookup-some :
      (key : String) (d : List (String × A))
      → elem key (dict_keys d) ≡ true
      → (v : A) × (lookup key d ≡ some v)
  unfolding lookup
  lookup-some key [] h = absurd (false≢true h)
  lookup-some key ((k, v) ∷ d) h = elim (Bool-cases (k == key)) [
    | inl e ↦ (v, rw (e, lookup))
    | inr e ↦ (let r = lookup-some key d (ground arith) in (r.0, rw (e, lookup) r.1))
  ]

  pub elem-dict_keys :
      (key : String) (d : List (String × A)) (v : A)
      → lookup key d ≡ some v
      → elem key (dict_keys d) ≡ true
  elem-dict_keys key d v h = elim (Bool-cases (elem key (dict_keys d))) [
    | inl e ↦ e
    | inr e ↦ missing (sym (lookup-none key d e) ∙ h)
  ]
    where
      missing : {P : Type 0} → none ≡ some v → P
      missing q = cc q

  -- A new key goes to the end.
  pub set-fresh :
      (key : String) (v : A) (d : List (String × A))
      → elem key (dict_keys d) ≡ false
      → set key v d ≡ d ++ (key, v) ∷ []
  unfolding set
  set-fresh key v [] h = refl
  set-fresh key v ((k, w) ∷ d) h = elim (Bool-cases (k == key)) [
    | inl e ↦ ground arith
    | inr e ↦ rw (e, set) (rw (set-fresh key v d (ground arith)))
  ]

  pub elem-set :
      (x key : String) (v : A) (d : List (String × A))
      → elem x (dict_keys (set key v d)) ≡ (elem x (dict_keys d) || key == x)
  unfolding set
  elem-set x key v [] = ground arith
  elem-set x key v ((k, w) ∷ d) = elim (Bool-cases (k == key)) [
    | inl e ↦ rw (e, set) (ground (arith, eq_iff k key, eq_iff k x, eq_iff key x))
    | inr e ↦ rw (e, set) (rw (elem-set x key v d) (ground arith))
  ]

  pub NoDup-set :
      (key : String) (v : A) (d : List (String × A))
      → NoDup (dict_keys d)
      → NoDup (dict_keys (set key v d))
  unfolding set
  NoDup-set key v [] h = (refl, tt)
  NoDup-set key v ((k, w) ∷ d) h = elim (Bool-cases (k == key)) [
    | inl e ↦ rw (e, set) h
    | inr e ↦
        rw (e, set)
          (
            rw (elem-set k key v d) (ground (arith, h.0, eq_iff k key, eq_iff key k)),
            NoDup-set key v d h.1,
          )
  ]

  pub lookup-set :
      (x key : String) (v : A) (d : List (String × A))
      → lookup x (set key v d) ≡ elim (key == x) [ true ↦ some v | false ↦ lookup x d ]
  lookup-set x key v [] = unfold set in unfold lookup in refl
  lookup-set x key v ((k, w) ∷ d) = elim (Bool-cases (k == key)) [
    | inl e ↦ elim (Bool-cases (k == x)) [
      | inl c ↦
          ap (lookup x) (set-hit key k v w d e) ∙ lookup-hit x k v d c ∙ rw (same_too k key x e c)
      | inr c ↦
          ap (lookup x) (set-hit key k v w d e)
          ∙ lookup-skip x k v d c
          ∙ rw (other_too k key x e c) (sym (lookup-skip x k w d c))
    ]
    | inr e ↦ elim (Bool-cases (k == x)) [
      | inl c ↦
          ap (lookup x) (set-skip key k v w d e)
          ∙ lookup-hit x k w (set key v d) c
          ∙ rw (apart k key x e c) (sym (lookup-hit x k w d c))
      | inr c ↦
          ap (lookup x) (set-skip key k v w d e)
          ∙ lookup-skip x k w (set key v d) c
          ∙ lookup-set x key v d
          ∙ ap (λ o. elim (key == x) [ true ↦ some v | false ↦ o ]) (sym (lookup-skip x k w d c))
    ]
  ]
    where
      same_too : (k l y : String) → (k == l) ≡ true → (k == y) ≡ true → (l == y) ≡ true
      same_too k l y e c = ground (arith, eq_iff k l, eq_iff k y, eq_iff l y)

      other_too : (k l y : String) → (k == l) ≡ true → (k == y) ≡ false → (l == y) ≡ false
      other_too k l y e c = ground (arith, eq_iff k l, eq_iff k y, eq_iff l y)

      apart : (k l y : String) → (k == l) ≡ false → (k == y) ≡ true → (l == y) ≡ false
      apart k l y e c = ground (arith, eq_iff k l, eq_iff k y, eq_iff l y)

  -- A dict holds each of its pairs.
  pub lookup-pairs :
      (d : List (String × A)) → NoDup (dict_keys d) → All (λ p. lookup p.0 d ≡ some p.1) d
  lookup-pairs [] h = tt
  lookup-pairs ((k, v) ∷ d) h = (lookup-hit k k v d (eq_refl k), later d (lookup-pairs d h.1) h.0)
    where
      differ : (a b : String) (bs : List String) → elem a (b ∷ bs) ≡ false → (a == b) ≡ false
      differ a b bs e = ground (arith, eq_iff a b, eq_iff b a)

      later :
          (es : List (String × A))
          → All (λ p. lookup p.0 d ≡ some p.1) es
          → elem k (dict_keys es) ≡ false
          → All (λ p. lookup p.0 ((k, v) ∷ d) ≡ some p.1) es
      later [] a e = tt
      later ((j, w) ∷ es) a e =
          (lookup-skip j k v d (differ k j (dict_keys es) e) ∙ a.0, later es a.1 (ground arith))

  pub dict_keys-append : (d e : List (String × A)) → dict_keys (d ++ e) ≡ dict_keys d ++ dict_keys e
  dict_keys-append [] e = refl
  dict_keys-append ((k, v) ∷ d) e = ap (λ r. k ∷ r) (dict_keys-append d e)

  -- A key that comes later does not come before.
  pub NoDup-before :
      (d e : List (String × A)) (k : String) (v : A)
      → NoDup (dict_keys (d ++ (k, v) ∷ e))
      → elem k (dict_keys d) ≡ false
  NoDup-before [] e k v h = refl
  NoDup-before ((j, w) ∷ d) e k v h =
      differ j k (dict_keys d) (dict_keys e)
        (subst (λ ks. elem j ks ≡ false) (dict_keys-append d ((k, v) ∷ e)) h.0)
        (NoDup-before d e k v h.1)
    where
      differ :
          (a b : String) (xs ys : List String)
          → elem a (xs ++ b ∷ ys) ≡ false
          → elem b xs ≡ false
          → (a == b || elem b xs) ≡ false
      differ a b xs ys p q = ground (arith, p, q, elem-append a xs (b ∷ ys), eq_iff a b, eq_iff b a)
