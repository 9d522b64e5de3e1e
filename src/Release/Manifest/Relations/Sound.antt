-- ===== src/Release/Manifest/Relations/Sound.antt =====
-- manifest.py: what the messages of `_validate_relations` say of a release group.
use opcua_drafts.Prelude.{
  ◌≤◌, String, true, false, not, ◌&&◌, List, [], ◌∷◌, ◌++◌, length, ltb, ◌==◌, any, elem, All,
  lookup, ok, err, key_error, from_option, ◌≡◌, refl, sym, ◌∙◌, ap, subst, same, bind_ok, ok_inj,
  append-nil_left, append-nil_right, cons_none, Bool-cases, Option-cases, inl, inr, arith,
  false≢true,
}
use opcua_drafts.Release.Manifest.{Manifest, Spec, spec}
use opcua_drafts.Release.Manifest.Relations.{few_members, mixed_states, unsubmitted_members}
use opcua_drafts.Release.Manifest.Relations.Loops.{
  Groups, members_of, specs_of, unsubmitted, few, mixed, not_submitted, group_problems,
  groups_problems,
}

-- What holds of all specifications that are looked up.
pub specs_of-All :
    (P : Spec → Type 0) (m : Manifest) (ids : List String) (ss : List (String × Spec))
    → specs_of m ids ≡ ok ss
    → All (λ p. P p.1) ss
    → (x : String) (s : Spec) → elem x ids ≡ true
    → spec m x ≡ ok s
    → P s
specs_of-All P m [] ss h a x s k e = absurd (false≢true k)
specs_of-All P m (id ∷ ids) ss h a x s k e =
    let one = bind_ok (spec m id) _ ss h in
    let rest = bind_ok (specs_of m ids) _ ss one.2 in
    let all : P one.0 × All (λ p. P p.1) rest.0 =
      subst (All (λ p. P p.1)) (sym (ok_inj ((id, one.0) ∷ rest.0) ss rest.2)) a in
    elim (Bool-cases (id == x)) [
      | inl d ↦ subst P (ok_inj one.0 s (sym one.1 ∙ (ap (spec m) (same id x d) ∙ e))) all.0
      | inr d ↦ specs_of-All P m ids rest.0 rest.1 all.1 x s (ground arith) e
    ]

unsubmitted-none :
    (ss : List (String × Spec)) → unsubmitted ss ≡ [] → All (λ p. p.1.submitted ≡ true) ss
unsubmitted-none [] h = tt
unsubmitted-none ((id, s) ∷ ss) h = elim (Bool-cases (s.submitted)) [
  | inl e ↦ (e, unsubmitted-none ss (sym (rw (e, unsubmitted)) ∙ h))
  | inr e ↦ cons_none id (unsubmitted ss) (sym (rw (e, unsubmitted)) ∙ h)
]

none-released :
    (ss : List (String × Spec))
    → any (λ p. p.1.released) ss ≡ false
    → All (λ p. p.1.released ≡ false) ss
none-released [] h = tt
none-released ((id, s) ∷ ss) h = (ground arith, none-released ss (ground arith))

All-released :
    (ss : List (String × Spec))
    → any (λ p. not p.1.released) ss ≡ false
    → All (λ p. p.1.released ≡ true) ss
All-released [] h = tt
All-released ((id, s) ∷ ss) h = (ground arith, All-released ss (ground arith))

mixed-none :
    (g : String) (members : List String) (ss : List (String × Spec))
    → mixed g members ss ≡ []
    → (any (λ p. p.1.released) ss && any (λ p. not p.1.released) ss) ≡ false
mixed-none g members ss h =
    elim (Bool-cases (any (λ p. p.1.released) ss && any (λ p. not p.1.released) ss)) [
      | inl e ↦ cons_none (mixed_states g members) [] (sym (rw (e, mixed)) ∙ h)
      | inr e ↦ e
    ]

few-none : (g : String) (members : List String) → few g members ≡ [] → 2 ≤ length members
few-none g members h = elim (Bool-cases (ltb (length members) 2)) [
  | inl e ↦ cons_none (few_members g) [] (sym (rw (e, few)) ∙ h)
  | inr e ↦ ground arith
]

not_submitted-none : (g : String) (ids : List String) → not_submitted g ids ≡ [] → ids ≡ []
not_submitted-none g [] h = refl
not_submitted-none g (x ∷ xs) h = cons_none (unsubmitted_members g (x ∷ xs)) [] h

-- A group of at least two, all submitted and in one state.
pub record Sound (m : Manifest) (members : List String) : Type 0 where
  pub two : 2 ≤ length members
  pub all_submitted :
      (x : String) (s : Spec) → elem x members ≡ true → spec m x ≡ ok s → s.submitted ≡ true
  pub one_state :
      (x y : String) (s t : Spec)
      → elem x members ≡ true
      → spec m x ≡ ok s
      → elem y members ≡ true
      → spec m y ≡ ok t
      → s.released ≡ t.released

group_problems-Sound :
    (m : Manifest) (g : String) (members : List String)
    → group_problems m g members ≡ ok []
    → Sound m members
group_problems-Sound m g members h =
    let ss = bind_ok (specs_of m members) _ [] h in
    let quiet = ok_inj _ [] ss.2 in
    let later = append-nil_right (few g members) _ quiet in
    let states = mixed-none g members ss.0 (append-nil_left (mixed g members ss.0) _ later) in
    record {
      two = few-none g members (append-nil_left (few g members) _ quiet);
      all_submitted = λ x s k e.
          specs_of-All (λ t. t.submitted ≡ true) m members ss.0 ss.1
            (unsubmitted-none ss.0 (
              not_submitted-none g (unsubmitted ss.0)
                (append-nil_right (mixed g members ss.0) _ later)))
            x s k e;
      one_state = λ x y s t k e l f. elim (Bool-cases (any (λ p. p.1.released) ss.0)) [
        | inr d ↦
            specs_of-All (λ u. u.released ≡ false) m members ss.0 ss.1 (none-released ss.0 d) x s k
              e
            ∙ sym (
                specs_of-All (λ u. u.released ≡ false) m members ss.0 ss.1 (none-released ss.0 d) y
                  t l f)
        | inl d ↦
            (let all = All-released ss.0 (ground arith) in
              specs_of-All (λ u. u.released ≡ true) m members ss.0 ss.1 all x s k e
              ∙ sym (specs_of-All (λ u. u.released ≡ true) m members ss.0 ss.1 all y t l f))
      ];
    }

pub groups_problems-Sound :
    (m : Manifest) (gs : Groups) (names : List String)
    → groups_problems m gs names ≡ ok []
    → (g : String) → elem g names ≡ true
    → Sound m (members_of g gs)
groups_problems-Sound m gs [] h g k = absurd (false≢true k)
groups_problems-Sound m gs (name ∷ names) h g k =
    let members = bind_ok (from_option key_error (lookup name gs)) _ [] h in
    let here = bind_ok (group_problems m name members.0) _ [] members.2 in
    let rest = bind_ok (groups_problems m gs names) _ [] here.2 in
    let quiet = ok_inj (here.0 ++ rest.0) [] rest.2 in
    elim (Bool-cases (name == g)) [
      | inl d ↦
          subst (λ z. Sound m (members_of z gs)) (same name g d)
            (subst (Sound m) (found name members.0 members.1) (
              group_problems-Sound m name members.0
                (here.1 ∙ ap ok (append-nil_left here.0 rest.0 quiet))))
      | inr d ↦
          groups_problems-Sound m gs names (rest.1 ∙ ap ok (append-nil_right here.0 rest.0 quiet)) g
            (ground arith)
    ]
  where
    found :
        (x : String) (xs : List String)
        → from_option key_error (lookup x gs) ≡ ok xs
        → xs ≡ members_of x gs
    found x xs e = elim (Option-cases (lookup x gs)) [
      | inl d ↦ missing (sym (rw (d)) ∙ e)
      | inr (ys, d) ↦ ok_inj xs ys (sym e ∙ rw (d)) ∙ sym (rw (d, members_of))
    ]
      where
        missing : {P : Type 0} → err key_error ≡ ok xs → P
        missing q = cc q
