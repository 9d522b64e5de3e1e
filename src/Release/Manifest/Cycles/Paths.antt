-- ===== src/Release/Manifest/Cycles/Paths.antt =====
-- manifest.py: the stack of the cycle search as a path, and the order in which the ids are visited.
use opcua_drafts.Prelude.{
  ℕ, suc, ◌<◌, ◌≤◌, String, true, false, List, [], ◌∷◌, ◌++◌, length, ◌==◌, elem, elem-append,
  Result, ok, ◌≡◌, refl, sym, ◌∙◌, ap, subst, same, arith, inl, inr, Bool-cases, false≢true,
  eq_refl, ok_inj,
}
use opcua_drafts.Release.Manifest.Cycles.{cut_from, init}
use opcua_drafts.Release.Manifest.Walk.{Edge, Reach, here, there}

pub init-append : (xs : List String) (c : String) → init (xs ++ c ∷ []) ≡ xs
init-append [] c = refl
init-append (x ∷ []) c = refl
init-append (x ∷ y ∷ ys) c = ap (λ r. x ∷ r) (init-append (y ∷ ys) c)

-- The position of the first occurrence.
abbrev pub index_in : String → List String → ℕ
index_in x [] = 0
index_in x (y ∷ ys) = let rest = index_in x ys in elim (y == x) [ true ↦ 0 | false ↦ suc rest ]

index_in-append :
    (x : String) (xs ys : List String) → elem x xs ≡ true → index_in x (xs ++ ys) ≡ index_in x xs
index_in-append x [] ys h = absurd (false≢true h)
index_in-append x (z ∷ xs) ys h = elim (Bool-cases (z == x)) [
  | inl e ↦ rw (e, index_in)
  | inr e ↦ rw (e, index_in) (ap suc (index_in-append x xs ys (ground arith)))
]

index_in-length : (x : String) (xs : List String) → elem x xs ≡ true → index_in x xs < length xs
index_in-length x [] h = absurd (false≢true h)
index_in-length x (z ∷ xs) h = elim (Bool-cases (z == x)) [
  | inl e ↦ rw (e, index_in) (omega arith)
  | inr e ↦ rw (e, index_in) (omega (arith, index_in-length x xs (ground arith)))
]

index_in-last :
    (c : String) (xs : List String) → elem c xs ≡ false → index_in c (xs ++ c ∷ []) ≡ length xs
index_in-last c [] h = rw (eq_refl c, index_in)
index_in-last c (z ∷ xs) h = elim (Bool-cases (z == c)) [
  | inl e ↦ ground arith
  | inr e ↦ rw (e, index_in) (ap suc (index_in-last c xs (ground arith)))
]

module _ (next : String → Result (List String)) where
  -- Each id has an edge to the one behind it.
  abbrev pub Linked : List String → Type 0
  Linked [] = Unit
  Linked (x ∷ []) = Unit
  Linked (x ∷ y ∷ ys) = Edge next x y × Linked (y ∷ ys)

  -- A path that ends where it begins.
  abbrev pub IsCycle : List String → Type 0
  IsCycle c = (x : String) × (r : List String) × (c ≡ x ∷ (r ++ x ∷ [])) × Linked c

  -- The successors of what is in the list are in it, and stand before it.
  abbrev pub Ranked : List String → Type 0
  Ranked xs =
      (x y : String)
      → elem x xs ≡ true
      → Edge next x y
      → (elem y xs ≡ true) × (index_in y xs < index_in x xs)

  Linked-tail : (x : String) (xs : List String) → Linked (x ∷ xs) → Linked xs
  Linked-tail x [] h = tt
  Linked-tail x (y ∷ ys) h = h.1

  pub Linked-append :
      (xs : List String) (c d : String)
      → Linked (xs ++ c ∷ [])
      → Edge next c d
      → Linked ((xs ++ c ∷ []) ++ d ∷ [])
  Linked-append [] c d h e = (e, tt)
  Linked-append (x ∷ []) c d h e = (h.0, (e, tt))
  Linked-append (x ∷ y ∷ ys) c d h e = (h.0, Linked-append (y ∷ ys) c d h.1 e)

  -- What is cut from the stack of a path is a cycle.
  pub cut_from_lem :
      (c : String) (xs : List String)
      → elem c xs ≡ true
      → Linked (xs ++ c ∷ [])
      → (back : List String) × (cut_from c xs ≡ ok back) × IsCycle (back ++ c ∷ [])
  cut_from_lem c [] h l = absurd (false≢true h)
  cut_from_lem c (x ∷ xs) h l = elim (Bool-cases (x == c)) [
    | inl e ↦ (x ∷ xs, rw (e, cut_from), (c, xs, ap (λ z. z ∷ (xs ++ c ∷ [])) (same x c e), l))
    | inr e ↦
        (let r = cut_from_lem c xs (ground arith) (Linked-tail x (xs ++ c ∷ []) l) in
          (r.0, rw (e, cut_from) r.1, r.2))
  ]

  pub Ranked-append :
      (xs ys : List String) (c : String)
      → Ranked xs
      → elem c xs ≡ false
      → next c ≡ ok ys
      → ((y : String) → elem y ys ≡ true → elem y xs ≡ true)
      → Ranked (xs ++ c ∷ [])
  Ranked-append xs ys c r fresh e inside x y k edge = elim (Bool-cases (elem x xs)) [
    | inl d ↦
        (let old = r x y d edge in
          (
            rw (elem-append y xs (c ∷ []), old.0),
            rw (index_in-append y xs (c ∷ []) old.0, index_in-append x xs (c ∷ []) d) old.1,
          ))
    | inr d ↦
        (let is_c : c ≡ x = same c x (ground (arith, elem-append x xs (c ∷ []))) in
          let old : elem y xs ≡ true = inside y (
            subst (λ zs. elem y zs ≡ true) (ok_inj edge.0 ys (sym edge.1 ∙ ap next (sym is_c) ∙ e))
              edge.2) in
          (
            rw (elem-append y xs (c ∷ []), old),
            subst (λ z. index_in y (xs ++ c ∷ []) < index_in z (xs ++ c ∷ [])) is_c
                (omega (
                  arith,
                  index_in-append y xs (c ∷ []) old,
                  index_in-length y xs old,
                  index_in-last c xs fresh,
                )),
          ))
  ]

  -- Along a path, the position goes down.
  Reach-down :
      (xs : List String)
      → Ranked xs
      → (x y : String) → elem x xs ≡ true
      → Reach next x y
      → (elem y xs ≡ true) × (index_in y xs ≤ index_in x xs)
  Reach-down xs r x y k here = (k, omega arith)
  Reach-down xs r x y k (there {y = z} e p) =
      let step = r x z k e in
      let rest = Reach-down xs r z y step.0 p in (rest.0, omega (arith, step.1, rest.1))

  pub Ranked-no_cycle :
      (xs : List String) (x y : String)
      → Ranked xs
      → elem x xs ≡ true
      → Edge next x y
      → ¬ Reach next y x
  Ranked-no_cycle xs x y r k e p =
      let step = r x y k e in
      let rest = Reach-down xs r y x step.0 p in omega (arith, step.1, rest.1)
