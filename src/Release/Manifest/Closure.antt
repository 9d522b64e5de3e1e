-- ===== src/Release/Manifest/Closure.antt =====
-- What `closure`, `vendor` and `dependents` return for a manifest whose relations name known ids.
use opcua_drafts.Prelude.{
  &&-left, &&-right, &&-intro, false≢true, suc, String, Bool, true, false, ◌&&◌, ◌||◌, List, [],
  ◌∷◌, length, ◌==◌, elem, NoDup, ok, ◌>>=◌, ◌≡◌, refl, sym, ◌∙◌, ap, subst, inl, inr, Bool-cases,
  arith, eq_refl, ◌↔◌, same, ok_inj,
}
use opcua_drafts.Release.Sorting.{elem-sort}
use opcua_drafts.Release.Manifest.{
  Manifest, Spec, spec, keys, spec_ids, Relation, closure_relation, neighbours, Visited, visit,
  kept, starts, relation_closure, closure, selects, depends_on, dependents,
}
use opcua_drafts.Unseen.{unseen-length, Within}
use opcua_drafts.Release.Manifest.Walk.{Edge, Reach, here, there, visit_all_lem, visit_lem}
use opcua_drafts.Release.Manifest.Known.{
  KnownIds, elem-filter, NoDup-filter, spec_known, known_spec, starts_known, neighbours-Closed,
}

-- `x` stands behind one of the ids that the walk starts with.
abbrev pub Behind : Manifest → Relation → List String → String → Type 0
Behind m relation first x = (c : String) × (elem c first ≡ true) × Reach (neighbours m relation) c x

Reach-seen :
    (m : Manifest) (relation : Relation) (v : Visited)
    → ((x y : String)
        → elem x v.seen ≡ true
        → Edge (neighbours m relation) x y
        → elem y v.seen ≡ true)
    → (x y : String) → Reach (neighbours m relation) x y
    → elem x v.seen ≡ true
    → elem y v.seen ≡ true
Reach-seen m relation v h x y here k = k
Reach-seen m relation v h x z (there e r) k = Reach-seen m relation v h _ z r (h x _ k e)

pub relation_closure_run :
    (m : Manifest) (relation : Relation) (include_self : Bool) (id : String)
    → KnownIds m relation
    → elem id (keys m) ≡ true
    → (first ids : List String) × (starts m relation include_self id ≡ ok first)
      × (relation_closure m relation include_self id ≡ ok ids)
      × NoDup ids
      × ((x : String)
          → (elem x ids ≡ true) ↔ ((kept include_self id x ≡ true) × Behind m relation first x))
unfolding relation_closure
relation_closure_run m relation include_self id h k =
    let found = spec_known m id k in
    let first = starts_known m relation include_self id h k in
    let next = neighbours m relation in
    let keep = kept include_self id in
    let closed = neighbours-Closed m relation h in
    let n = suc (length (keys m)) in
    let walk =
      visit_all_lem next keep (keys m) n (visit next keep n) (visit_lem next keep (keys m) closed n)
        first.0 (record { seen = []; result = [] }) first.2 (tt, refl)
        (omega (arith, unseen-length (keys m) [])) in
    let v = walk.0 in
    let ids = walk.2.tidy.1 in
    let seen_iff = (λ (x : String).
      subst (λ xs. elem x xs ≡ (elem x v.seen && keep x)) (sym ids) (elem-filter keep x v.seen)) in
    (
      first.0,
      v.result,
      first.1,
      rw (found.1, relation_closure) (rw (first.1) (rw (walk.1))),
      subst NoDup (sym ids) (NoDup-filter keep v.seen walk.2.tidy.0),
      λ x. (
        (λ e. (
          &&-right (elem x v.seen) (keep x) (sym (seen_iff x) ∙ e),
          walk.2.comes x (&&-left (elem x v.seen) (keep x) (sym (seen_iff x) ∙ e)) refl,
        )),
        (λ p.
            seen_iff x
            ∙ &&-intro
                (Reach-seen m relation v (λ a b d. walk.2.follows a b d refl) p.1.0 x p.1.2
                  (walk.2.enters p.1.0 p.1.1))
                p.0),
      ),
    )

-- For a known id and a manifest whose closure relation names known ids, `closure` returns a list
-- without duplicates of exactly the ids that paths along `neighbours` lead to from the id.
pub closure_lem :
    (m : Manifest) (id : String)
    → KnownIds m closure_relation
    → elem id (keys m) ≡ true
    → (ids : List String) × (closure m id ≡ ok ids)
      × NoDup ids
      × ((x : String) → (elem x ids ≡ true) ↔ Reach (neighbours m closure_relation) id x)
unfolding closure
closure_lem m id h k =
    let run = relation_closure_run m closure_relation true id h k in
    let first = ok_inj (id ∷ []) run.0 run.2 in
    (
      run.1,
      run.3,
      run.4,
      λ x. (
        (λ e.
            (let b = ((run.5 x).0 e).1 in
              subst (λ z. Reach (neighbours m closure_relation) z x)
                (sym
                  (same id b.0 (ground (arith, subst (λ xs. elem b.0 xs ≡ true) (sym first) b.1))))
                b.2)),
        (λ r.
            (run.5 x).1
              (refl, (id, subst (λ xs. elem id xs ≡ true) first (ground (arith, eq_refl id)), r))),
      ),
    )

-- What `dependents` asks of a specification.
abbrev pub Dependent : Manifest → String → String → Type 0
Dependent m id x =
    ((x == id) ≡ false)
    × (s : Spec) × (spec m x ≡ ok s)
    × (s.submitted ≡ true)
    × Reach (neighbours m closure_relation) x id

-- A Boolean that says what `dependents` asks.
selects_lem :
    (m : Manifest) (id x : String)
    → KnownIds m closure_relation
    → elem x (keys m) ≡ true
    → (b : Bool) × (selects m id x ≡ ok b) × ((b ≡ true) ↔ Dependent m id x)
selects_lem m id x h k = elim (Bool-cases (x == id)) [
  | inl e ↦ (
    false,
    rw (e, selects),
    ((λ b. absurd (false≢true b)), (λ d. absurd (false≢true (sym d.0 ∙ e)))),
  )
  | inr e ↦
      (let found = spec_known m x k in
        elim (Bool-cases (found.0.submitted)) [
          | inl c ↦
              (let all = closure_lem m x h k in
                (
                  elem id all.0,
                  rw (e, selects) (rw (found.1, ◌>>=◌) (rw (c) (rw (all.1)))),
                  ((λ b. (e, found.0, found.1, c, (all.3 id).0 b)), (λ d. (all.3 id).1 d.4)),
                ))
          | inr c ↦ (
            false,
            rw (e, selects) (rw (found.1, ◌>>=◌) (rw (c))),
            (
              (λ b. absurd (false≢true b)),
              (λ d. absurd (
                  false≢true (
                    sym c
                    ∙ ap (λ (s : Spec). s.submitted) (ok_inj found.0 d.1 (sym found.1 ∙ d.2))
                    ∙ d.3))),
            ),
          )
        ])
]

choice_iff {ℓ} :
    {P : Type ℓ} (b e f g : Bool)
    → ((e ≡ true) → ((b ≡ true) ↔ P))
    → ((f ≡ true) ↔ ((g ≡ true) × P))
    → ((b && e || f) ≡ true) ↔ (((e || g) ≡ true) × P)
choice_iff true true f g h r = ((λ k. (refl, (h refl).0 refl)), (λ k. refl))
choice_iff false true f g h r =
    ((λ k. (refl, (r.0 k).1)), (λ p. absurd (false≢true ((h refl).1 p.1))))
choice_iff true false f g h r = r
choice_iff false false f g h r = r

elem-choice :
    (b : Bool) (x y : String) (ids : List String)
    → elem y (elim b [ true ↦ x ∷ ids | false ↦ ids ]) ≡ (b && x == y || elem y ids)
elem-choice true x y ids = refl
elem-choice false x y ids = refl

depends_on_lem :
    (m : Manifest) (id : String)
    → KnownIds m closure_relation
    → (more : List String) → Within more (keys m)
    → (ids : List String) × (depends_on m id more ≡ ok ids)
      × ((x : String) → (elem x ids ≡ true) ↔ ((elem x more ≡ true) × Dependent m id x))
depends_on_lem m id h [] k =
    ([], refl, λ x. ((λ e. absurd (false≢true e)), (λ e. absurd (false≢true e.0))))
depends_on_lem m id h (x ∷ xs) k =
    let one = selects_lem m id x h (k x (ground (arith, eq_refl x))) in
    let rest = depends_on_lem m id h xs (λ y e. k y (ground arith)) in
    (
      elim (one.0) [ true ↦ x ∷ rest.0 | false ↦ rest.0 ],
      rw (one.1, depends_on) (rw (rest.1)),
      λ y.
          subst (λ z. (z ≡ true) ↔ ((elem y (x ∷ xs) ≡ true) × Dependent m id y))
            (sym (elem-choice one.0 x y rest.0))
            (choice_iff one.0 (x == y) (elem y rest.0) (elem y xs)
              (λ e. subst (λ z. (one.0 ≡ true) ↔ Dependent m id z) (same x y e) one.2) (rest.2 y)),
    )

-- For a known id and a manifest whose closure relation names known ids, `dependents` returns
-- exactly the known ids other than it that are submitted and whose paths along `neighbours` lead
-- to it.
pub dependents_lem :
    (m : Manifest) (id : String)
    → KnownIds m closure_relation
    → elem id (keys m) ≡ true
    → (ids : List String) × (dependents m id ≡ ok ids)
      × ((x : String) → (elem x ids ≡ true) ↔ Dependent m id x)
unfolding dependents
dependents_lem m id h k =
    let found = spec_known m id k in
    let all = depends_on_lem m id h (spec_ids m) (λ x e. sym (elem-sort x (keys m)) ∙ e) in
    (
      all.0,
      rw (found.1) all.1,
      λ x. (
        (λ e. ((all.2 x).0 e).1),
        (λ d. (all.2 x).1 (elem-sort x (keys m) ∙ known_spec m x d.1 d.2, d)),
      ),
    )
