-- ===== src/Release/Manifest/Cycles/Visit.antt =====
-- manifest.py: what a `visit` of the cycle search does to the state, within the fuel.
use opcua_drafts.Prelude.{
  ℕ, zero, suc, ◌<◌, String, true, false, not, List, [], ◌∷◌, ◌++◌, ◌==◌, elem, filter,
  filter-absent, All, All-append_one, elem-append, Result, ok, ◌>>=◌, ◌≡◌, refl, sym, ◌∙◌, ap,
  subst, same, arith, inl, inr, Bool-cases, false≢true, eq_refl,
}
use opcua_drafts.Unseen.{unseen, unseen_note, Within, Within-append}
use opcua_drafts.Release.Manifest.{add_new}
use opcua_drafts.Release.Manifest.Walk.{Closed}
use opcua_drafts.Release.Manifest.Cycles.{
  Search, report, push, finish, visit_each, visit_cycles, init,
}
use opcua_drafts.Release.Manifest.Cycles.Paths.{
  Linked, IsCycle, Ranked, init-append, Linked-append, cut_from_lem, Ranked-append,
}

no_cons {ℓ} : {P : Type ℓ} (xs : List (List String)) (x : List String) → xs ++ x ∷ [] ≡ [] → P
no_cons [] x h = cc h
no_cons (y ∷ xs) x h = cc h

module _ (next : String → Result (List String)) where
  pub record Steady (v : Search) : Type 0 where
    pub stacked : v.stack ≡ v.visiting
    pub genuine : All (IsCycle next) v.cycles
    pub ranked : v.cycles ≡ [] → Ranked next v.visited

  -- What the visits of `cs` do between two states.
  pub record Explored (cs : List String) (v w : Search) : Type 0 where
    pub visiting_kept : w.visiting ≡ v.visiting
    pub steady : Steady w
    pub none_before : w.cycles ≡ [] → v.cycles ≡ []
    pub grows : Within v.visited w.visited
    pub enters : w.cycles ≡ [] → Within cs w.visited

  -- A call that visits any known id behind the stack within the fuel.
  abbrev pub Explores : List String → ℕ → (String → Search → Result Search) → Type 0
  Explores known n call =
      (c : String) (v : Search)
      → elem c known ≡ true
      → Steady v
      → Linked next (v.stack ++ c ∷ [])
      → unseen known v.visiting < n
      → (w : Search) × (call c v ≡ ok w) × Explored (c ∷ []) v w

  pub visit_each_lem :
      (known : List String) (n : ℕ) (call : String → Search → Result Search)
      → Explores known n call
      → (cs : List String) (v : Search) → Within cs known
      → Steady v
      → ((c : String) → elem c cs ≡ true → Linked next (v.stack ++ c ∷ []))
      → unseen known v.visiting < n
      → (w : Search) × (visit_each call cs v ≡ ok w) × Explored cs v w
  visit_each_lem known n call h [] v k s l f = (
    v,
    refl,
    record {
      visiting_kept = refl;
      steady = s;
      none_before = λ e. e;
      grows = λ x e. e;
      enters = λ q x e. absurd (false≢true e);
    },
  )
  visit_each_lem known n call h (c ∷ cs) v k s l f =
      let one = h c v (k c (first c cs)) s (l c (first c cs)) f in
      let w = one.0 in
      let stack_kept : w.stack ≡ v.stack =
        one.2.steady.stacked ∙ one.2.visiting_kept ∙ sym s.stacked in
      let rest =
        visit_each_lem known n call h cs w (λ x e. k x (later c cs x e)) one.2.steady
          (λ x e. subst (λ z. Linked next (z ++ x ∷ [])) (sym stack_kept) (l x (later c cs x e)))
          (subst (λ z. unseen known z < n) (sym one.2.visiting_kept) f) in
      (
        rest.0,
        rw (one.1, ◌>>=◌) rest.1,
        record {
          visiting_kept = rest.2.visiting_kept ∙ one.2.visiting_kept;
          steady = rest.2.steady;
          none_before = λ e. one.2.none_before (rest.2.none_before e);
          grows = λ x e. rest.2.grows x (one.2.grows x e);
          enters = λ q x e. elim (Bool-cases (c == x)) [
            | inl d ↦ rest.2.grows x (one.2.enters (rest.2.none_before q) x (ground arith))
            | inr d ↦ rest.2.enters q x (ground arith)
          ];
        },
      )
    where
      first : (y : String) (ys : List String) → elem y (y ∷ ys) ≡ true
      first y ys = ground (arith, eq_refl y)

      later :
          (y : String) (ys : List String) (x : String) → elem x ys ≡ true → elem x (y ∷ ys) ≡ true
      later y ys x e = ground arith

  report_lem :
      (c : String) (v : Search)
      → Steady v
      → Linked next (v.stack ++ c ∷ [])
      → elem c v.visiting ≡ true
      → (w : Search) × (report c v ≡ ok w) × Explored (c ∷ []) v w
  report_lem c v s l e =
      let cut = cut_from_lem next c v.stack (subst (λ z. elem c z ≡ true) (sym s.stacked) e) l in
      let cycle = cut.0 ++ c ∷ [] in
      (
        _,
        rw (cut.1, ◌>>=◌),
        record {
          visiting_kept = refl;
          steady = record {
            stacked = s.stacked;
            genuine = All-append_one (IsCycle next) v.cycles cycle s.genuine cut.2;
            ranked = λ q. no_cons v.cycles cycle q;
          };
          none_before = λ q. no_cons v.cycles cycle q;
          grows = λ x q. q;
          enters = λ q. no_cons v.cycles cycle q;
        },
      )

  visited-Explored :
      (c : String) (v : Search) → Steady v → elem c v.visited ≡ true → Explored (c ∷ []) v v
  visited-Explored c v s e = record {
    visiting_kept = refl;
    steady = s;
    none_before = λ q. q;
    grows = λ x q. q;
    enters = λ q x k. subst (λ y. elem y v.visited ≡ true) (same c x (ground arith)) e;
  }

  add-Ranked :
      (c : String) (ys xs : List String)
      → Ranked next xs
      → next c ≡ ok ys
      → Within ys xs
      → Ranked next (add_new (c ∷ []) xs)
  add-Ranked c ys xs r e inside = elim (Bool-cases (elem c xs)) [
    | inl d ↦ subst (Ranked next) (sym (rw (d, add_new))) r
    | inr d ↦ subst (Ranked next) (sym (rw (d, add_new))) (Ranked-append next xs ys c r d e inside)
  ]

  add-Within : (c : String) (xs : List String) → Within xs (add_new (c ∷ []) xs)
  add-Within c xs x h = elim (Bool-cases (elem c xs)) [
    | inl d ↦ rw (d, add_new) h
    | inr d ↦ rw (d, add_new) (Within-append xs (c ∷ []) x h)
  ]

  add-enters : (c : String) (xs : List String) → Within (c ∷ []) (add_new (c ∷ []) xs)
  add-enters c xs x h = elim (Bool-cases (elem c xs)) [
    | inl d ↦ rw (d, add_new) (subst (λ y. elem y xs ≡ true) (same c x (ground arith)) d)
    | inr d ↦ rw (d, add_new) (ground (arith, elem-append x xs (c ∷ [])))
  ]

  -- The state behind the loop over the successors of `c`.
  finish-Explored :
      (c : String) (ys : List String) (v w : Search)
      → Steady v
      → elem c v.visiting ≡ false
      → next c ≡ ok ys
      → Explored ys (push c v) w
      → Explored (c ∷ []) v (finish c w)
  finish-Explored c ys v w s e n a =
      let back : (finish c w).visiting ≡ v.visiting =
        ap (filter (λ x. not (c == x))) a.visiting_kept ∙ filter-absent c v.visiting e in
      record {
        visiting_kept = back;
        steady = record {
          stacked =
              ap init (a.steady.stacked ∙ a.visiting_kept) ∙ init-append v.visiting c ∙ sym back;
          genuine = a.steady.genuine;
          ranked = λ q. add-Ranked c ys w.visited (a.steady.ranked q) n (a.enters q);
        };
        none_before = a.none_before;
        grows = λ x q. add-Within c w.visited x (a.grows x q);
        enters = λ q. add-enters c w.visited;
      }

  push-Steady : (c : String) (v : Search) → Steady v → Steady (push c v)
  push-Steady c v s = record {
    stacked = ap (λ z. z ++ c ∷ []) s.stacked;
    genuine = s.genuine;
    ranked = s.ranked;
  }

  pub visit_cycles_lem :
      (known : List String) → Closed next known → (n : ℕ) → Explores known n (visit_cycles next n)
  unfolding visit_cycles
  visit_cycles_lem known h zero c v k s l f = absurd (omega (arith, f))
  visit_cycles_lem known h (suc n) c v k s l f = elim (Bool-cases (elem c v.visiting)) [
    | inl e ↦ (let r = report_lem c v s l e in (r.0, rw (e, visit_cycles) r.1, r.2))
    | inr e ↦ elim (Bool-cases (elem c v.visited)) [
      | inl d ↦ (v, rw (e, visit_cycles) (rw (d, visit_cycles)), visited-Explored c v s d)
      | inr d ↦
          (let next_c = h c k in
            let walk =
              visit_each_lem known n (visit_cycles next n) (visit_cycles_lem known h n) next_c.0
                (push c v) next_c.2 (push-Steady c v s)
                (λ y q. Linked-append next v.stack c y l (next_c.0, next_c.1, q))
                (omega (arith, f, unseen_note known v.visiting c k e)) in
            (
              finish c walk.0,
              rw (e, visit_cycles)
                  (rw (d, visit_cycles) (rw (next_c.1, ◌>>=◌) (rw (walk.1, ◌>>=◌)))),
              finish-Explored c next_c.0 v walk.0 s e next_c.1 walk.2,
            ))
    ]
  ]
