-- ===== src/Release/Manifest/Vendored.antt =====
-- What `vendor` returns: the vendored ids of everything that moves.
use opcua_drafts.Prelude.{
  false≢true, String, Bool, true, false, not, ◌||◌, List, [], ◌∷◌, ◌++◌, ◌==◌, elem, NoDup,
  elem-append, NoDup-append_one, Result, ok, ◌≡◌, refl, sym, ◌∙◌, subst, ◌⊎◌, inl, inr, Bool-cases,
  arith, eq_refl, ◌↔◌, same, ok_inj,
}
use opcua_drafts.Release.Sorting.{sort, elem-sort}
use opcua_drafts.Release.Manifest.{
  Manifest, Spec, spec, keys, closure_relation, vendor_relation, neighbours, starts,
  relation_closure, add_new, vendor_all, vendor,
}
use opcua_drafts.Unseen.{Within}
use opcua_drafts.Release.Manifest.Walk.{Reach, here, there, Closed}
use opcua_drafts.Release.Manifest.Known.{KnownIds, spec_known, neighbours-Closed}
use opcua_drafts.Release.Manifest.Closure.{relation_closure_run, closure_lem}

-- What a moving specification vendors, itself excepted.
abbrev pub VendoredBy : Manifest → String → String → Type 0
VendoredBy m moving x =
    ((x == moving) ≡ false)
    × (s : Spec) × (spec m moving ≡ ok s)
    × (c : String) × (elem c s.vendors ≡ true)
    × Reach (neighbours m vendor_relation) c x

add_new-NoDup : (xs acc : List String) → NoDup acc → NoDup (add_new xs acc)
add_new-NoDup [] acc h = h
add_new-NoDup (x ∷ xs) acc h = elim (Bool-cases (elem x acc)) [
  | inl e ↦ rw (e, add_new) (add_new-NoDup xs acc h)
  | inr e ↦ rw (e, add_new) (add_new-NoDup xs (acc ++ x ∷ []) (NoDup-append_one acc x h e))
]

pub elem-add_new :
    (y : String) (xs acc : List String) → elem y (add_new xs acc) ≡ (elem y acc || elem y xs)
elem-add_new y [] acc = ground arith
elem-add_new y (x ∷ xs) acc = elim (Bool-cases (elem x acc)) [
  | inl e ↦
      rw (e, add_new)
        (rw (elem-add_new y xs acc) (elim (Bool-cases (x == y)) [
          | inl c ↦ rw (subst (λ z. elem z acc ≡ true) (same x y c) e)
          | inr c ↦ rw (c)
        ]))
  | inr e ↦
      rw (e, add_new)
        (rw (elem-add_new y xs (acc ++ x ∷ []), elem-append y acc (x ∷ [])) (ground arith))
]

starts-spec :
    (m : Manifest) (id : String) (s : Spec)
    → spec m id ≡ ok s
    → starts m vendor_relation false id ≡ ok (sort s.vendors)
starts-spec m id s h = rw h

not-true : (b : Bool) → (not b ≡ true) ↔ (b ≡ false)
not-true b = ground arith

relation_closure-vendor :
    (m : Manifest) (moving : String)
    → KnownIds m vendor_relation
    → elem moving (keys m) ≡ true
    → (ids : List String) × (relation_closure m vendor_relation false moving ≡ ok ids)
      × ((x : String) → (elem x ids ≡ true) ↔ VendoredBy m moving x)
relation_closure-vendor m moving h k =
    let found = spec_known m moving k in
    let run = relation_closure_run m vendor_relation false moving h k in
    let first =
      ok_inj (sort found.0.vendors) run.0 (sym (starts-spec m moving found.0 found.1) ∙ run.2) in
    (
      run.1,
      run.3,
      λ x. (
        (λ e.
            (let p = (run.5 x).0 e in
              let c = p.1.0 in
              (
                (not-true (x == moving)).0 p.0,
                found.0,
                found.1,
                c,
                sym (elem-sort c found.0.vendors)
                    ∙ subst (λ xs. elem c xs ≡ true) (sym first) p.1.1,
                p.1.2,
              ))),
        (λ v.
            (let c = v.3 in
              let sames = ok_inj v.1 found.0 (sym v.2 ∙ found.1) in
              (run.5 x).1 (
                (not-true (x == moving)).1 v.0,
                (
                  c,
                  subst (λ xs. elem c xs ≡ true) first
                      (elem-sort c found.0.vendors
                        ∙ subst (λ (s : Spec). elem c s.vendors ≡ true) sames v.4),
                  v.5,
                ),
              ))),
      ),
    )

vendor_all_lem :
    (m : Manifest)
    → KnownIds m vendor_relation
    → (more acc : List String) → Within more (keys m)
    → NoDup acc
    → (ids : List String) × (vendor_all m more acc ≡ ok ids)
      × NoDup ids
      × ((x : String)
          → (elem x ids ≡ true) ↔ (
              (elem x acc ≡ true)
              ⊎ ((moving : String) × (elem moving more ≡ true) × VendoredBy m moving x)))
vendor_all_lem m h [] acc k d =
    (acc, refl, d, λ x. ((λ e. inl e), λ b. elim b [ inl e ↦ e | inr e ↦ absurd (false≢true e.1) ]))
vendor_all_lem m h (z ∷ more) acc k d =
    let one = relation_closure-vendor m z h (k z (ground (arith, eq_refl z))) in
    let rest =
      vendor_all_lem m h more (add_new one.0 acc) (λ y e. k y (ground arith))
        (add_new-NoDup one.0 acc d) in
    (
      rest.0,
      rw (one.1, vendor_all) rest.1,
      rest.2,
      λ x. (
        (λ e. elim ((rest.3 x).0 e) [
          | inl a ↦ elim (Bool-cases (elem x acc)) [
            | inl b ↦ inl b
            | inr b ↦ inr (
              z,
              ground (arith, eq_refl z),
              (one.2 x).0 (ground (arith, elem-add_new x one.0 acc)),
            )
          ]
          | inr r ↦ inr (r.0, ground (arith, r.1), r.2)
        ]),
        (λ e. elim e [
          | inl a ↦ (rest.3 x).1 (inl (ground (arith, elem-add_new x one.0 acc)))
          | inr r ↦ elim (Bool-cases (z == r.0)) [
            | inl b ↦
                (let found = (one.2 x).1 (subst (λ y. VendoredBy m y x) (sym (same z r.0 b)) r.2) in
                  (rest.3 x).1 (inl (ground (arith, elem-add_new x one.0 acc, found))))
            | inr b ↦ (rest.3 x).1 (inr (r.0, ground (arith, r.1), r.2))
          ]
        ]),
      ),
    )

pub Reach-known :
    (next : String → Result (List String)) (known : List String)
    → Closed next known
    → (x y : String) → Reach next x y
    → elem x known ≡ true
    → elem y known ≡ true
Reach-known next known h x y here k = k
Reach-known next known h x z (there e r) k =
    let c = h x k in
    Reach-known next known h _ z r
      (c.2 _ (subst (λ ys. elem _ ys ≡ true) (ok_inj e.0 c.0 (sym e.1 ∙ c.1)) e.2))

-- For a known id and a manifest whose two relations name known ids, `vendor` returns a list without
-- duplicates of exactly the ids that something of the id's closure vendors: those other than it
-- that paths of the vendor relation lead to.
pub vendor_lem :
    (m : Manifest) (id : String)
    → KnownIds m closure_relation
    → KnownIds m vendor_relation
    → elem id (keys m) ≡ true
    → (ids : List String) × (vendor m id ≡ ok ids)
      × NoDup ids
      × ((x : String)
          → (elem x ids ≡ true) ↔ (
              (moving : String) × Reach (neighbours m closure_relation) id moving
              × VendoredBy m moving x))
unfolding vendor
vendor_lem m id h h2 k =
    let moving = closure_lem m id h k in
    let inside = λ (y : String) (e : elem y moving.0 ≡ true).
      Reach-known (neighbours m closure_relation) (keys m) (neighbours-Closed m closure_relation h)
        id y ((moving.3 y).0 e) k in
    let all = vendor_all_lem m h2 moving.0 [] inside tt in
    (
      all.0,
      rw (moving.1) all.1,
      all.2,
      λ x. (
        (λ e. elim ((all.3 x).0 e) [
          | inl a ↦ absurd (false≢true a)
          | inr r ↦ (r.0, (moving.3 r.0).0 r.1, r.2)
        ]),
        (λ r. (all.3 x).1 (inr (r.0, (moving.3 r.0).1 r.1, r.2))),
      ),
    )
