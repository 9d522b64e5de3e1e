-- ===== src/Release/Spec/Vendors.antt =====
-- release_spec.py: `vendor_specs` on manifests whose relations name known ids in their normal form.
use opcua_drafts.Prelude.{
  suc, String, Bool, true, ◌&&◌, ◌||◌, ◌==◌, List, [], ◌∷◌, ◌++◌, length, map, elem, elem-append,
  NoDup, Result, ok, ◌>>=◌, ◌≡◌, ◌↔◌, refl, sym, ◌∙◌, ap, subst, arith, eq_refl, Bool-cases, inl,
  inr, false≢true, same, ok_inj,
}
use opcua_drafts.Release.Manifest.{
  Manifest, Spec, spec, keys, closure_relation, vendor_relation, neighbours, closure, visit,
}
use opcua_drafts.Release.Manifest.Publishers.{norm}
use opcua_drafts.Unseen.{Within, unseen-length}
use opcua_drafts.Release.Manifest.Walk.{Edge, Reach, here, there, Closed, visit_all_lem, visit_lem}
use opcua_drafts.Release.Manifest.Known.{
  KnownIds, elem-filter, NoDup-filter, spec_known, neighbours-Closed,
}
use opcua_drafts.Release.Manifest.Closure.{closure_lem}
use opcua_drafts.Release.Manifest.Vendored.{Reach-known}
use opcua_drafts.Release.Spec.{vendor_next, moving_specs, vendor_calls, everything, vendor_specs}

-- The ids of the manifest are as `norm` leaves them.
abbrev pub Normal : Manifest → Type 0
Normal m = (x : String) → elem x (keys m) ≡ true → norm x ≡ x

head_eq : (x y : String) (xs ys : List String) → x ∷ xs ≡ y ∷ ys → x ≡ y
head_eq x y xs ys h = cc h

tail_eq : (x y : String) (xs ys : List String) → x ∷ xs ≡ y ∷ ys → xs ≡ ys
tail_eq x y xs ys h = cc h

-- The ids may be tested all at once.
pub normal_keys :
    (ks : List String) → map norm ks ≡ ks → (x : String) → elem x ks ≡ true → norm x ≡ x
normal_keys [] h x e = absurd (false≢true e)
normal_keys (k ∷ ks) h x e = elim (Bool-cases (k == x)) [
  | inl d ↦ subst (λ z. norm z ≡ z) (same k x d) (head_eq (norm k) k (map norm ks) ks h)
  | inr d ↦ normal_keys ks (tail_eq (norm k) k (map norm ks) ks h) x (ground (arith, e))
]

map-norm : (m : Manifest) → Normal m → (xs : List String) → Within xs (keys m) → map norm xs ≡ xs
map-norm m h [] k = refl
map-norm m h (x ∷ xs) k =
    rw (h x (k x (ground (arith, eq_refl x))))
      (ap (λ ys. x ∷ ys) (map-norm m h xs (λ y e. k y (ground arith))))

pub vendor_next-run :
    (m : Manifest)
    → Normal m
    → KnownIds m vendor_relation
    → (x : String) (s : Spec) → spec m x ≡ ok s
    → vendor_next m x ≡ ok s.vendors
vendor_next-run m n h x s e = rw (e) (ap ok (map-norm m n s.vendors (h x s e)))

vendor_next-Closed :
    (m : Manifest) → Normal m → KnownIds m vendor_relation → Closed (vendor_next m) (keys m)
vendor_next-Closed m n h x k =
    let found = spec_known m x k in
    (found.0.vendors, vendor_next-run m n h x found.0 found.1, h x found.0 found.1)

-- What `moving` vendors, directly or not.
abbrev pub Vendored : Manifest → String → String → Type 0
Vendored m moving x =
    (s : Spec) × (spec m moving ≡ ok s)
    × (c : String) × (elem c s.vendors ≡ true)
    × Reach (vendor_next m) c x

first : (a b : Bool) → a ≡ true → (a || b) ≡ true
first a b h = ground arith

second : (a b : Bool) → b ≡ true → (a || b) ≡ true
second a b h = ground arith

vendor_calls_lem :
    (m : Manifest)
    → Normal m
    → KnownIds m vendor_relation
    → (ids : List String) → Within ids (keys m)
    → (calls : List String) × (vendor_calls m ids ≡ ok calls)
      × Within calls (keys m)
      × ((c : String)
          → (elem c calls ≡ true) ↔ (
              (moving : String) × (elem moving ids ≡ true)
              × (s : Spec) × (spec m moving ≡ ok s)
              × (elem c s.vendors ≡ true)))
vendor_calls_lem m n h [] k = (
  [],
  refl,
  (λ c e. absurd (false≢true e)),
  λ c. ((λ e. absurd (false≢true e)), (λ p. absurd (false≢true p.1))),
)
vendor_calls_lem m n h (id ∷ ids) k =
    let found = spec_known m id (k id (ground (arith, eq_refl id))) in
    let vs = found.0.vendors in
    let rest = vendor_calls_lem m n h ids (λ y e. k y (ground arith)) in
    (
      vs ++ rest.0,
      rw (found.1, ◌>>=◌) (rw (rest.1, map-norm m n vs (h id found.0 found.1))),
      (λ c e. elim (Bool-cases (elem c vs)) [
        | inl d ↦ h id found.0 found.1 c d
        | inr d ↦ rest.2 c (ground (arith, elem-append c vs rest.0))
      ]),
      λ c. (
        (λ e. elim (Bool-cases (elem c vs)) [
          | inl d ↦ (id, ground (arith, eq_refl id), found.0, found.1, d)
          | inr d ↦
              (let r = (rest.3 c).0 (ground (arith, elem-append c vs rest.0)) in
                (r.0, ground (arith, r.1), r.2, r.3, r.4))
        ]),
        (λ p. elim (Bool-cases (id == p.0)) [
          | inl d ↦
              (let sames =
                  ok_inj p.2 found.0 (sym p.3 ∙ ap (spec m) (sym (same id p.0 d)) ∙ found.1) in
                elem-append c vs rest.0
                ∙ first (elem c vs) (elem c rest.0)
                    (subst (λ (s : Spec). elem c s.vendors ≡ true) sames p.4))
          | inr d ↦
              elem-append c vs rest.0
              ∙ second (elem c vs) (elem c rest.0)
                  ((rest.3 c).1 (p.0, ground (arith, p.1), p.2, p.3, p.4))
        ]),
      ),
    )

moving_specs_lem :
    (m : Manifest) (id : String) (ids : List String)
    → Normal m
    → Within ids (keys m)
    → closure m id ≡ ok ids
    → elem id ids ≡ true
    → moving_specs m id ≡ ok ids
unfolding moving_specs
moving_specs_lem m id ids n k e h =
    rw (e, ◌>>=◌) (rw (map-norm m n ids k) (rw (h) (ap ok (map-norm m n ids k))))

and_true : (b : Bool) → (b && true) ≡ b
and_true b = ground arith

seen-Reach :
    (next : String → Result (List String)) (seen : List String)
    → ((x y : String) → elem x seen ≡ true → Edge next x y → elem y seen ≡ true)
    → (x y : String) → Reach next x y
    → elem x seen ≡ true
    → elem y seen ≡ true
seen-Reach next seen h x y here k = k
seen-Reach next seen h x z (there e r) k = seen-Reach next seen h _ z r (h x _ k e)

-- For a known id and a manifest whose relations name known ids in their normal form, `vendor_specs`
-- returns a list without duplicates of exactly the ids that something of the id's closure vendors,
-- directly or not.
pub vendor_specs_lem :
    (m : Manifest) (id : String)
    → Normal m
    → KnownIds m closure_relation
    → KnownIds m vendor_relation
    → elem id (keys m) ≡ true
    → (ids : List String) × (vendor_specs m id ≡ ok ids)
      × NoDup ids
      × ((x : String)
          → (elem x ids ≡ true) ↔ (
              (moving : String) × Reach (neighbours m closure_relation) id moving
              × Vendored m moving x))
unfolding vendor_specs
vendor_specs_lem m id n h h2 k =
    let moving = closure_lem m id h k in
    let inside = λ (y : String) (e : elem y moving.0 ≡ true).
      Reach-known (neighbours m closure_relation) (keys m) (neighbours-Closed m closure_relation h)
        id y ((moving.3 y).0 e) k in
    let calls = vendor_calls_lem m n h2 moving.0 inside in
    let next = vendor_next m in
    let fuel = suc (length (keys m)) in
    let walk =
      visit_all_lem next everything (keys m) fuel (visit next everything fuel)
        (visit_lem next everything (keys m) (vendor_next-Closed m n h2) fuel) calls.0
        (record { seen = []; result = [] }) calls.2 (tt, refl)
        (omega (arith, unseen-length (keys m) [])) in
    let v = walk.0 in
    let seen_iff = (λ (x : String).
      ap (elem x) walk.2.tidy.1 ∙ elem-filter everything x v.seen ∙ and_true (elem x v.seen)) in
    (
      v.result,
      rw (moving_specs_lem m id moving.0 n inside moving.1 ((moving.3 id).1 here), ◌>>=◌)
          (rw (calls.1, ◌>>=◌) (rw (walk.1))),
      subst NoDup (sym walk.2.tidy.1) (NoDup-filter everything v.seen walk.2.tidy.0),
      λ x. (
        (λ e.
            (let c = walk.2.comes x (sym (seen_iff x) ∙ e) refl in
              let call = (calls.3 c.0).0 c.1 in
              (call.0, (moving.3 call.0).0 call.1, (call.2, call.3, c.0, call.4, c.2)))),
        (λ p.
            (let w = p.2 in
              seen_iff x
              ∙ seen-Reach next v.seen (λ a b d. walk.2.follows a b d refl) w.2 x w.4
                  (walk.2.enters w.2
                    ((calls.3 w.2).1 (p.0, (moving.3 p.0).1 p.1, w.0, w.1, w.3))))),
      ),
    )
