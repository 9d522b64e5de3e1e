-- ===== src/Release/Manifest/Links.antt =====
-- What the lists that `visit` goes through hold: the declared ids and the other members of the group.
use opcua_drafts.Prelude.{
  String, Bool, true, false, not, ◌&&◌, ◌||◌, ◌==◌, Option, none, some, List, ◌++◌, elem,
  elem-append, Result, ok, err, ◌>>=◌, ◌≡◌, ◌⊎◌, ◌↔◌, refl, sym, ◌∙◌, ap, subst, arith, eq_refl,
  Bool-cases, inl, inr, false≢true, &&-left, &&-right, &&-intro, same, ok_inj,
}
use opcua_drafts.Release.Sorting.{sort, elem-sort}
use opcua_drafts.Release.Manifest.{
  Manifest, Spec, spec, keys, spec_ids, has_group, group_members, closure_relation, neighbours,
}
use opcua_drafts.Release.Manifest.Walk.{Edge}
use opcua_drafts.Release.Manifest.Known.{elem-filter, known_spec, members_none, members_some}

-- Another specification of the same release group.
abbrev pub Peer : Manifest → String → Option String → String → Type 0
Peer m x group y =
    (g : String) × (group ≡ some g)
    × ((g == "") ≡ false)
    × ((y == x) ≡ false)
    × (t : Spec) × (spec m y ≡ ok t)
    × (t.release_group ≡ some g)

in_group :
    (g : String) (o : Option String) → elim o [ none ↦ false | some k ↦ k == g ] ≡ true → o ≡ some g
in_group g none h = absurd (false≢true h)
in_group g (some k) h = ap some (same k g h)

has_group-found :
    (g : String) (r : Result Spec)
    → elim r [ err e ↦ false | ok s ↦ elim (s.release_group) [ none ↦ false | some k ↦ k == g ] ]
      ≡ true
    → (t : Spec) × (r ≡ ok t) × (t.release_group ≡ some g)
has_group-found g (err e) h = absurd (false≢true h)
has_group-found g (ok s) h = (s, refl, in_group g s.release_group h)

has_group_lem :
    (m : Manifest) (g y : String) (t : Spec)
    → spec m y ≡ ok t
    → t.release_group ≡ some g
    → has_group m g y ≡ true
has_group_lem m g y t h k =
    rw (h, has_group)
      (subst (λ o. elim o [ none ↦ false | some j ↦ j == g ] ≡ true) (sym k) (eq_refl g))

not-true : (b : Bool) → (not b ≡ true) ↔ (b ≡ false)
not-true b = ground arith

some_inj : (a b : String) → some a ≡ some b → a ≡ b
some_inj a b h = cc h

members_lem :
    (m : Manifest) (x : String) (group : Option String) (y : String)
    → (elem y (group_members m x group) ≡ true) ↔ Peer m x group y
members_lem m x none y = ((λ h. absurd (false≢true h)), (λ p. cc p.1))
members_lem m x (some g) y = elim (Bool-cases (g == "")) [
  | inl e ↦ (
    (λ h. absurd (false≢true (subst (λ xs. elem y xs ≡ true) (members_none m x g e) h))),
    (λ q. absurd (false≢true (sym q.2 ∙ subst (λ z. (z == "") ≡ true) (some_inj g q.0 q.1) e))),
  )
  | inr e ↦ (
    (λ h.
        (let inside =
            sym (elem-filter p y (spec_ids m))
            ∙ subst (λ xs. elem y xs ≡ true) (members_some m x g e) h in
          let both = &&-right (elem y (spec_ids m)) (p y) inside in
          let found =
            has_group-found g (spec m y) (&&-right (not (y == x)) (has_group m g y) both) in
          (
            g,
            refl,
            e,
            (not-true (y == x)).0 (&&-left (not (y == x)) (has_group m g y) both),
            found.0,
            found.1,
            found.2,
          ))),
    (λ q.
        subst (λ xs. elem y xs ≡ true) (sym (members_some m x g e))
          (elem-filter p y (spec_ids m)
            ∙ &&-intro (elem-sort y (keys m) ∙ known_spec m y q.4 q.5) (
                &&-intro ((not-true (y == x)).1 q.3)
                  (has_group_lem m g y q.4 q.5 (q.6 ∙ ap some (sym (some_inj g q.0 q.1))))))),
  )
]
  where
    p : String → Bool
    p current = not (current == x) && has_group m g current

-- For a known specification, `visit` of the closure goes on to exactly the ids that its closure list
-- names and the other known members of its release group, if it has one.
pub neighbours_lem :
    (m : Manifest) (x : String) (s : Spec)
    → spec m x ≡ ok s
    → (y : String)
    → Edge (neighbours m closure_relation) x y
      ↔ ((elem y s.closes_over ≡ true) ⊎ Peer m x s.release_group y)
neighbours_lem m x s h y = (
  (λ e. elim (Bool-cases (elem y group)) [
    | inl d ↦ inr ((members_lem m x s.release_group y).0 d)
    | inr d ↦
        (let inside = subst (λ xs. elem y xs ≡ true) (ok_inj e.0 all (sym e.1 ∙ run)) e.2 in
          inl (
            sym (elem-sort y s.closes_over)
            ∙ ground (arith, elem-append y group (sort s.closes_over), inside)))
  ]),
  (λ r. (all, run, elem-append y group (sort s.closes_over) ∙ either r)),
)
  where
    group : List String
    group = group_members m x s.release_group

    all : List String
    all = group ++ sort s.closes_over

    run : neighbours m closure_relation x ≡ ok all
    run = rw (h, ◌>>=◌)

    either :
        (elem y s.closes_over ≡ true) ⊎ Peer m x s.release_group y
        → (elem y group || elem y (sort s.closes_over)) ≡ true
    either (inl a) = ground (arith, elem-sort y s.closes_over, a)
    either (inr b) = ground (arith, (members_lem m x s.release_group y).1 b)
