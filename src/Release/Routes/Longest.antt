-- ===== src/Release/Routes/Longest.antt =====
-- review_routes.py: the order in which `Route.translate` tries its mappings.
use opcua_drafts.Prelude.{
  ℕ, ◌≤◌, String, Bool, true, false, none, some, List, [], ◌∷◌, leb, ok, ◌>>=◌, ◌≡◌, ◌⊎◌, refl, sym,
  ◌∙◌, ap, subst, Bool-cases, Option-cases, inl, inr, arith,
}
use opcua_drafts.Release.Routes.{
  relative_path, Mapping, source_of, translate, Route, insert_longest, longest_first,
  translate_first, identity_layout, route_translate,
}
use opcua_drafts.Text.{text_length}

abbrev pub In : Mapping → List Mapping → Type 0
In m [] = ⊥
In m (n ∷ ns) = (n ≡ m) ⊎ In m ns

-- The length of the source of a mapping.
abbrev pub reach : Bool → Mapping → ℕ
reach reverse m = text_length (source_of reverse m)

abbrev Descending : Bool → List Mapping → Type 0
Descending reverse [] = Unit
Descending reverse (m ∷ ms) =
    ((n : Mapping) → In n ms → reach reverse n ≤ reach reverse m) × Descending reverse ms

none_found {ℓ} : {P : Type ℓ} (x : String) → none ≡ some x → P
none_found x h = cc h

insert_here :
    (reverse : Bool) (m n : Mapping) (ns : List Mapping)
    → leb (reach reverse n) (reach reverse m) ≡ true
    → insert_longest reverse m (n ∷ ns) ≡ m ∷ n ∷ ns
insert_here reverse m n ns e = rw (e, insert_longest)

insert_later :
    (reverse : Bool) (m n : Mapping) (ns : List Mapping)
    → leb (reach reverse n) (reach reverse m) ≡ false
    → insert_longest reverse m (n ∷ ns) ≡ n ∷ insert_longest reverse m ns
insert_later reverse m n ns e = rw (e, insert_longest)

In-insert :
    (reverse : Bool) (m : Mapping) (ns : List Mapping) (x : Mapping)
    → In x (insert_longest reverse m ns)
    → (m ≡ x) ⊎ In x ns
In-insert reverse m [] x h = h
In-insert reverse m (n ∷ ns) x h = elim (Bool-cases (leb (reach reverse n) (reach reverse m))) [
  | inl e ↦ subst (λ l. In x l) (insert_here reverse m n ns e) h
  | inr e ↦ elim (subst (λ l. In x l) (insert_later reverse m n ns e) h) [
    | inl k ↦ inr (inl k)
    | inr k ↦ elim (In-insert reverse m ns x k) [ inl a ↦ inl a | inr a ↦ inr (inr a) ]
  ]
]

insert-In :
    (reverse : Bool) (m : Mapping) (ns : List Mapping) (x : Mapping)
    → (m ≡ x) ⊎ In x ns
    → In x (insert_longest reverse m ns)
insert-In reverse m [] x h = h
insert-In reverse m (n ∷ ns) x h = elim (Bool-cases (leb (reach reverse n) (reach reverse m))) [
  | inl e ↦ subst (λ l. In x l) (sym (insert_here reverse m n ns e)) h
  | inr e ↦
      subst (λ l. In x l) (sym (insert_later reverse m n ns e))
        (elim h [
          | inl k ↦ inr (insert-In reverse m ns x (inl k))
          | inr k ↦ elim k [ inl a ↦ inl a | inr a ↦ inr (insert-In reverse m ns x (inr a)) ]
        ])
]

insert-Descending :
    (reverse : Bool) (m : Mapping) (ns : List Mapping)
    → Descending reverse ns
    → Descending reverse (insert_longest reverse m ns)
insert-Descending reverse m [] d = ((λ n h. absurd h), tt)
insert-Descending reverse m (n ∷ ns) d =
    elim (Bool-cases (leb (reach reverse n) (reach reverse m))) [
      | inl e ↦ subst (Descending reverse) (sym (insert_here reverse m n ns e)) (
        (λ x h. elim h [
          | inl k ↦ subst (λ y. reach reverse y ≤ reach reverse m) k (ground (arith, e))
          | inr k ↦ ground (arith, e, d.0 x k)
        ]),
        d,
      )
      | inr e ↦ subst (Descending reverse) (sym (insert_later reverse m n ns e)) (
        (λ x h. elim (In-insert reverse m ns x h) [
          | inl k ↦ subst (λ y. reach reverse y ≤ reach reverse n) k (ground (arith, e))
          | inr k ↦ d.0 x k
        ]),
        insert-Descending reverse m ns d.1,
      )
    ]

longest_first-Descending :
    (reverse : Bool) (ms : List Mapping) → Descending reverse (longest_first reverse ms)
longest_first-Descending reverse [] = tt
longest_first-Descending reverse (m ∷ ms) =
    insert-Descending reverse m (longest_first reverse ms) (longest_first-Descending reverse ms)

longest_first-In :
    (reverse : Bool) (ms : List Mapping) (x : Mapping) → In x (longest_first reverse ms) → In x ms
longest_first-In reverse [] x h = h
longest_first-In reverse (m ∷ ms) x h = elim (In-insert reverse m (longest_first reverse ms) x h) [
  | inl k ↦ inl k
  | inr k ↦ inr (longest_first-In reverse ms x k)
]

In-longest_first :
    (reverse : Bool) (ms : List Mapping) (x : Mapping) → In x ms → In x (longest_first reverse ms)
In-longest_first reverse [] x h = h
In-longest_first reverse (m ∷ ms) x h =
    insert-In reverse m (longest_first reverse ms) x
      (elim h [ inl k ↦ inl k | inr k ↦ inr (In-longest_first reverse ms x k) ])

-- `m` is the longest of the mappings that know the path, and `target` what it makes of it.
abbrev pub Longest : List Mapping → Bool → String → Mapping → String → Type 0
Longest ms reverse path m target =
    In m ms
    × (translate m reverse path ≡ some target)
    × ((n : Mapping) (t : String)
        → In n ms
        → translate n reverse path ≡ some t
        → reach reverse n ≤ reach reverse m)

translate_first_lem :
    (ms : List Mapping) (reverse : Bool) (path : String)
    → Descending reverse ms
    → (n : Mapping) (t : String) → In n ms
    → translate n reverse path ≡ some t
    → (m : Mapping) × (target : String) × Longest ms reverse path m target
      × (translate_first ms reverse path ≡ relative_path target)
translate_first_lem [] reverse path d n t h k = absurd h
translate_first_lem (m ∷ ms) reverse path d n t h k =
    elim (Option-cases (translate m reverse path)) [
      | inr e ↦ (
        m,
        e.0,
        (
          inl refl,
          e.1,
          λ x u i j. (elim i [
            | inl a ↦ subst (λ y. reach reverse y ≤ reach reverse m) a (omega arith)
            | inr a ↦ d.0 x a
          ]),
        ),
        rw (e.1, translate_first),
      )
      | inl e ↦ elim h [
        | inl a ↦ none_found t (sym e ∙ ap (λ (y : Mapping). translate y reverse path) a ∙ k)
        | inr a ↦
            (let rest = translate_first_lem ms reverse path d.1 n t a k in
              (
                rest.0,
                rest.1,
                (
                  inr rest.2.0,
                  rest.2.1,
                  λ x u i j. (elim i [
                    | inl b ↦
                        none_found u (sym e ∙ ap (λ (y : Mapping). translate y reverse path) b ∙ j)
                    | inr b ↦ rest.2.2 x u b j
                  ]),
                ),
                rw (e, translate_first) rest.3,
              ))
      ]
    ]

routed :
    (r : Route) (reverse : Bool) (value path : String)
    → relative_path value ≡ ok path
    → identity_layout r ≡ false
    → route_translate r reverse value
      ≡ translate_first (longest_first reverse r.mappings) reverse path
unfolding route_translate
routed r reverse value path h i = rw (h, ◌>>=◌) (rw i)

-- For a route without the identity layout and a path that `relative_path` accepts and one of its
-- mappings knows, in either direction, `translate` returns what `relative_path` makes of the
-- target of a mapping whose source is a longest one among those that know the path.
pub route_translate_lem :
    (r : Route) (reverse : Bool) (value path : String)
    → relative_path value ≡ ok path
    → identity_layout r ≡ false
    → (n : Mapping) (t : String) → In n r.mappings
    → translate n reverse path ≡ some t
    → (m : Mapping) × (target : String) × Longest r.mappings reverse path m target
      × (route_translate r reverse value ≡ relative_path target)
route_translate_lem r reverse value path h i n t k e =
    let ms = r.mappings in
    let found =
      translate_first_lem (longest_first reverse ms) reverse path
        (longest_first-Descending reverse ms) n t (In-longest_first reverse ms n k) e in
    (
      found.0,
      found.1,
      (
        longest_first-In reverse ms found.0 found.2.0,
        found.2.1,
        λ x u j l. found.2.2 x u (In-longest_first reverse ms x j) l,
      ),
      routed r reverse value path h i ∙ found.3,
    )
