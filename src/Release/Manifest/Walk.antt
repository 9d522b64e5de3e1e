-- ===== src/Release/Manifest/Walk.antt =====
-- The walk of `_relation_closure` over any successor function: what `seen` and `result` hold after
-- it, and the fuel that it needs.
use opcua_drafts.Prelude.{
  ok_inj, same, false≢true, ℕ, zero, suc, ◌<◌, String, Bool, true, false, List, [], ◌∷◌, ◌++◌, ◌==◌,
  elem, NoDup, NoDup-append_one, Result, ok, ◌≡◌, refl, sym, ◌∙◌, ap, subst, inl, inr, Bool-cases,
  arith, eq_refl, filter,
}
use opcua_drafts.Release.Manifest.{Visited, note, visit_all, visit}
use opcua_drafts.Unseen.{unseen, unseen_mono, unseen_note, Within, Within-append, elem-note}

filter-note :
    (keep : String → Bool) (xs : List String) (x : String)
    → filter keep (xs ++ x ∷ [])
      ≡ elim (keep x) [ true ↦ filter keep xs ++ x ∷ [] | false ↦ filter keep xs ]
filter-note keep [] x = elim (Bool-cases (keep x)) [
  | inl e ↦ rw (e, filter)
  | inr e ↦ rw (e, filter)
]
filter-note keep (y ∷ ys) x = ground (arith, filter-note keep ys x)

first_elem :
    (c : String) (cs : List String) (x : String) → elem x (c ∷ []) ≡ true → elem x (c ∷ cs) ≡ true
first_elem c cs x h = ground arith

later_elem :
    (c : String) (cs : List String) (x : String) → elem x cs ≡ true → elem x (c ∷ cs) ≡ true
later_elem c cs x h = ground arith

module _ (next : String → Result (List String)) where
  abbrev pub Edge : String → String → Type 0
  Edge x y = (ys : List String) × (next x ≡ ok ys) × (elem y ys ≡ true)

  -- A path along the successor lists.
  pub data Reach : String → String → Type 0 where
    here : {x : String} → Reach x x
    there : {x y z : String} → Edge x y → Reach y z → Reach x z

  -- The known ids have known successors.
  abbrev pub Closed : List String → Type 0
  Closed known =
      (x : String) → elem x known ≡ true → (ys : List String) × (next x ≡ ok ys) × Within ys known

module _ (next : String → Result (List String)) (keep : String → Bool) where
  abbrev pub Tidy : Visited → Type 0
  Tidy v = NoDup v.seen × (v.result ≡ filter keep v.seen)

  -- What the visits of `cs` do between two states.
  pub record Walked (cs : List String) (v w : Visited) : Type 0 where
    pub grows : Within v.seen w.seen
    pub enters : Within cs w.seen
    pub follows :
        (x y : String)
        → elem x w.seen ≡ true
        → elem x v.seen ≡ false
        → Edge next x y
        → elem y w.seen ≡ true
    pub comes :
        (x : String)
        → elem x w.seen ≡ true
        → elem x v.seen ≡ false
        → (c : String) × (elem c cs ≡ true) × Reach next c x
    pub tidy : Tidy w

  -- A call that visits any known id within the fuel.
  abbrev pub Visits : List String → ℕ → (String → Visited → Result Visited) → Type 0
  Visits known n call =
      (c : String) (v : Visited)
      → elem c known ≡ true
      → Tidy v
      → unseen known v.seen < n
      → (w : Visited) × (call c v ≡ ok w) × Walked (c ∷ []) v w

  Walked-then :
      (c : String) (cs : List String) (v w u : Visited)
      → Walked (c ∷ []) v w
      → Walked cs w u
      → Walked (c ∷ cs) v u
  Walked-then c cs v w u a b = record {
    grows = λ x h. b.grows x (a.grows x h);
    enters = λ x h. elim (Bool-cases (c == x)) [
      | inl e ↦ b.grows x (a.enters x (ground arith))
      | inr e ↦ b.enters x (ground arith)
    ];
    follows = λ x y h k e. elim (Bool-cases (elem x w.seen)) [
      | inl d ↦ b.grows y (a.follows x y d k e)
      | inr d ↦ b.follows x y h d e
    ];
    comes = λ x h k. elim (Bool-cases (elem x w.seen)) [
      | inl d ↦ (let r = a.comes x d k in (r.0, first_elem c cs r.0 r.1, r.2))
      | inr d ↦ (let r = b.comes x h d in (r.0, later_elem c cs r.0 r.1, r.2))
    ];
    tidy = b.tidy;
  }

  pub visit_all_lem :
      (known : List String) (n : ℕ) (call : String → Visited → Result Visited)
      → Visits known n call
      → (cs : List String) (v : Visited) → Within cs known
      → Tidy v
      → unseen known v.seen < n
      → (w : Visited) × (visit_all next keep call cs v ≡ ok w) × Walked cs v w
  visit_all_lem known n call h [] v k t f = (
    v,
    refl,
    record {
      grows = λ x e. e;
      enters = λ x e. absurd (false≢true e);
      follows = λ x y e d. absurd (false≢true (sym d ∙ e));
      comes = λ x e d. absurd (false≢true (sym d ∙ e));
      tidy = t;
    },
  )
  visit_all_lem known n call h (c ∷ cs) v k t f =
      let one = h c v (k c (first_elem c cs c (ground (arith, eq_refl c)))) t f in
      let w = one.0 in
      let rest =
        visit_all_lem known n call h cs w (λ x e. k x (later_elem c cs x e)) one.2.tidy
          (omega (arith, f, unseen_mono known v.seen w.seen one.2.grows)) in
      (rest.0, rw (one.1) rest.1, Walked-then c cs v w rest.0 one.2 rest.2)

  note-Tidy :
      (c : String) (v : Visited) → elem c v.seen ≡ false → Tidy v → Tidy (note next keep c v)
  note-Tidy c v e t = (NoDup-append_one v.seen c t.0 e, noted)
    where
      noted : (note next keep c v).result ≡ filter keep (note next keep c v).seen
      noted = elim (Bool-cases (keep c)) [
        | inl d ↦ rw (filter-note keep v.seen c, d, t.1)
        | inr d ↦ rw (filter-note keep v.seen c, d, t.1)
      ]

  Walked-note :
      (c : String) (ys : List String) (v w : Visited)
      → elem c v.seen ≡ false
      → next c ≡ ok ys
      → Walked ys (note next keep c v) w
      → Walked (c ∷ []) v w
  Walked-note c ys v w e h a = record {
    grows = λ x k. a.grows x (Within-append v.seen (c ∷ []) x k);
    enters = λ x k. a.grows x (rw (elem-note x c v.seen) (ground arith));
    follows = λ x y k d edge. elim (Bool-cases (c == x)) [
      | inl b ↦ a.enters y (
          subst (λ zs. elem y zs ≡ true)
            (ok_inj edge.0 ys (sym edge.1 ∙ sym (ap next (same c x b)) ∙ h)) edge.2)
      | inr b ↦ a.follows x y k (rw (elem-note x c v.seen, d) b) edge
    ];
    comes = λ x k d. elim (Bool-cases (c == x)) [
      | inl b ↦ (c, ground (arith, eq_refl c), subst (Reach next c) (same c x b) here)
      | inr b ↦
          (let r = a.comes x k (rw (elem-note x c v.seen, d) b) in
            (c, ground (arith, eq_refl c), there (ys, h, r.1) r.2))
    ];
    tidy = a.tidy;
  }

  pub visit_lem :
      (known : List String) → Closed next known → (n : ℕ) → Visits known n (visit next keep n)
  unfolding visit
  visit_lem known h zero c v k t f = absurd (omega (arith, f))
  visit_lem known h (suc n) c v k t f = elim (Bool-cases (elem c v.seen)) [
    | inl e ↦ (
      v,
      rw (e, visit),
      record {
        grows = λ x d. d;
        enters = λ x d. subst (λ y. elem y v.seen ≡ true) (same c x (ground arith)) e;
        follows = λ x y d b. absurd (false≢true (sym b ∙ d));
        comes = λ x d b. absurd (false≢true (sym b ∙ d));
        tidy = t;
      },
    )
    | inr e ↦
        (let next_c = h c k in
          let walk =
            visit_all_lem known n (visit next keep n) (visit_lem known h n) next_c.0
              (note next keep c v) next_c.2 (note-Tidy c v e t)
              (omega (arith, f, unseen_note known v.seen c k e)) in
          (
            walk.0,
            rw (e, visit) (rw (next_c.1) walk.1),
            Walked-note c next_c.0 v walk.0 e next_c.1 walk.2,
          ))
  ]
