-- ===== src/Release/Manifest/Overlaps/Owners.antt =====
-- manifest.py: what holds of the owners of `_validate_overlaps` if it returns no message.
use opcua_drafts.Prelude.{
  String, true, ◌==◌, none, some, List, [], ◌∷◌, ◌++◌, elem, lookup, lookup-none, lookup-set, set,
  ok, ◌>>=◌, bind_ok, ok_inj, ◌≡◌, ◌⊎◌, inl, inr, refl, sym, ◌∙◌, ap, subst, arith, Bool-cases,
  Option-cases, false≢true, same, cons_none, append-nil_left, append-nil_right, eq_refl, eq_iff,
}
use opcua_drafts.Release.Sorting.{elem-sort}
use opcua_drafts.Release.Manifest.{Manifest, keys, spec_ids, closure}
use opcua_drafts.Release.Manifest.Overlaps.{
  Overlap, moved_by_both, Owners, overlap, own_file, own_files, own_file_set, own_all,
  validate_overlaps,
}

-- The closure of one of two specifications holds the other.
abbrev pub Related : Manifest → String → String → Type 0
Related m a b =
    ((xs : List String) × (closure m a ≡ ok xs) × (elem b xs ≡ true))
    ⊎ ((ys : List String) × (closure m b ≡ ok ys) × (elem a ys ≡ true))

-- How a step changes the owners: it keeps those that there are, and `P` holds of a new one.
pub record Step (P : String → String → Type 0) (v w : Owners) : Type 0 where
  pub keeps : (f o : String) → lookup f v ≡ some o → lookup f w ≡ some o
  pub comes : (f o : String) → lookup f w ≡ some o → (lookup f v ≡ some o) ⊎ P f o

Step-none : (P : String → String → Type 0) (v : Owners) → Step P v v
Step-none P v = record { keeps = λ f o h. h; comes = λ f o h. inl h }

Step-then :
    (P Q : String → String → Type 0) (u v w : Owners)
    → Step P u v
    → Step Q v w
    → ((f o : String) → P f o → Q f o)
    → Step Q u w
Step-then P Q u v w s t sub = record {
  keeps = λ f o h. t.keeps f o (s.keeps f o h);
  comes = λ f o h. elim (t.comes f o h) [
    | inr q ↦ inr q
    | inl k ↦ elim (s.comes f o k) [ inl j ↦ inl j | inr p ↦ inr (sub f o p) ]
  ];
}

-- The file has an owner, which is the id or related to it.
abbrev pub Owned : Manifest → Owners → String → String → Type 0
Owned m w f id = (o : String) × (lookup f w ≡ some o) × ((o ≡ id) ⊎ Related m o id)

overlap-none :
    (m : Manifest) (f o id : String) (xs ys : List String)
    → closure m o ≡ ok xs
    → closure m id ≡ ok ys
    → overlap f o id xs ys ≡ []
    → Related m o id
overlap-none m f o id xs ys a b h = elim (Bool-cases (elem id xs)) [
  | inl e ↦ inl (xs, a, e)
  | inr e ↦ elim (Bool-cases (elem o ys)) [
    | inl d ↦ inr (ys, b, d)
    | inr d ↦ cons_none (moved_by_both f o id) [] (sym (rw (e, overlap) (rw (d))) ∙ h)
  ]
]

-- The step of one file.
abbrev pub Here : String → String → String → String → Type 0
Here file id f o = (f ≡ file) × (o ≡ id)

own_file_lem :
    (m : Manifest) (id file : String) (v : Owners) (r : Owners × List Overlap)
    → own_file m id file v ≡ ok r
    → r.1 ≡ []
    → Step (Here file id) v r.0 × Owned m r.0 file id
own_file_lem m id file v r h quiet = elim (Option-cases (lookup file v)) [
  | inl e ↦
      subst (λ w. Step (Here file id) v w × Owned m w file id)
        (ap (λ q. q.0) (ok_inj (set file id v, []) r (sym (rw (e, own_file)) ∙ h)))
        (fresh e, (id, lookup-set file file id v ∙ rw (eq_refl file), inl refl))
  | inr (o, e) ↦
      (let one =
          bind_ok (closure m o) (λ xs. closure m id >>= λ ys. ok (v, overlap file o id xs ys)) r
            (sym (rw (e, own_file) refl) ∙ h) in
        let two = bind_ok (closure m id) _ r one.2 in
        let same_pair = ok_inj (v, overlap file o id one.0 two.0) r two.2 in
        subst (λ w. Step (Here file id) v w × Owned m w file id) (ap (λ q. q.0) same_pair)
          (
            Step-none (Here file id) v,
            (
              o,
              e,
              inr (
                  overlap-none m file o id one.0 two.0 one.1 two.1
                    (ap (λ q. q.1) same_pair ∙ quiet)),
            ),
          ))
]
  where
    fresh : lookup file v ≡ none → Step (Here file id) v (set file id v)
    fresh e = record {
      keeps = λ f o k. elim (Bool-cases (file == f)) [
        | inl d ↦ missing f o (ap (λ z. lookup z v) (sym (same file f d)) ∙ e) k
        | inr d ↦ lookup-set f file id v ∙ rw (d) k
      ];
      comes = λ f o k. elim (Bool-cases (file == f)) [
        | inl d ↦ inr (sym (same file f d), it o (sym (lookup-set f file id v ∙ rw (d) refl) ∙ k))
        | inr d ↦ inl (sym (lookup-set f file id v ∙ rw (d) refl) ∙ k)
      ];
    }
      where
        missing : {P : Type 0} (f o : String) → lookup f v ≡ none → lookup f v ≡ some o → P
        missing f o a b = cc (a, b)

        it : (o : String) → some id ≡ some o → o ≡ id
        it o q = cc q

-- What the steps of the files of one specification add.
abbrev pub Among : List String → String → String → String → Type 0
Among files id f o = (elem f files ≡ true) × (o ≡ id)

Owned-keeps :
    (m : Manifest) (P : String → String → Type 0) (v w : Owners) (f id : String)
    → Step P v w
    → Owned m v f id
    → Owned m w f id
Owned-keeps m P v w f id s (o, e, r) = (o, s.keeps f o e, r)

own_files_lem :
    (m : Manifest) (id : String) (files : List String) (v : Owners) (r : Owners × List Overlap)
    → own_files m id files v ≡ ok r
    → r.1 ≡ []
    → Step (Among files id) v r.0 × ((f : String) → elem f files ≡ true → Owned m r.0 f id)
own_files_lem m id [] v r h quiet = (
  subst (Step (Among [] id) v) (ap (λ q. q.0) (ok_inj (v, []) r h)) (Step-none (Among [] id) v),
  λ f k. absurd (false≢true k),
)
own_files_lem m id (file ∷ files) v r h quiet =
    let one = bind_ok (own_file m id file v) _ r h in
    let rest = bind_ok (own_files m id files one.0.0) _ r one.2 in
    let pair = ok_inj (rest.0.0, one.0.1 ++ rest.0.1) r rest.2 in
    let none_yet = ap (λ q. q.1) pair ∙ quiet in
    let first = own_file_lem m id file v one.0 one.1 (append-nil_left one.0.1 rest.0.1 none_yet) in
    let later =
      own_files_lem m id files one.0.0 rest.0 rest.1 (append-nil_right one.0.1 rest.0.1 none_yet) in
    let both : Step (Among (file ∷ files) id) v rest.0.0
        × ((f : String) → elem f (file ∷ files) ≡ true → Owned m rest.0.0 f id) =
      (
        Step-then (Here file id) (Among (file ∷ files) id) v one.0.0 rest.0.0 first.0
            (record {
              keeps = later.0.keeps;
              comes = λ f o k. elim (later.0.comes f o k) [
                | inl j ↦ inl j
                | inr p ↦ inr (behind f p.0, p.1)
              ];
            })
            (λ f o p. (front f p.0, p.1)),
        λ f k. elim (Bool-cases (file == f)) [
          | inl d ↦
              Owned-keeps m (Among files id) one.0.0 rest.0.0 f id later.0
                (subst (λ z. Owned m one.0.0 z id) (same file f d) first.1)
          | inr d ↦ later.1 f (ground arith)
        ],
      ) in
    subst
      (λ w.
        Step (Among (file ∷ files) id) v w
        × ((f : String) → elem f (file ∷ files) ≡ true → Owned m w f id))
      (ap (λ q. q.0) pair) both
  where
    behind : (f : String) → elem f files ≡ true → elem f (file ∷ files) ≡ true
    behind f k = ground arith

    front : (f : String) → f ≡ file → elem f (file ∷ files) ≡ true
    front f k = ground (arith, eq_iff file f, k)

module _ (walk_files : String → List String) where
  -- The specification moves the file.
  abbrev pub Moves : Manifest → String → String → Type 0
  Moves m id f =
      (files : List String) × (own_file_set walk_files m id ≡ ok files) × (elem f files ≡ true)

  abbrev MovedBy : Manifest → List String → String → String → Type 0
  MovedBy m ids f o = (elem o ids ≡ true) × Moves m o f

  own_all_lem :
      (m : Manifest) (ids : List String) (v : Owners) (r : Owners × List Overlap)
      → own_all walk_files m ids v ≡ ok r
      → r.1 ≡ []
      → Step (MovedBy m ids) v r.0
        × ((id f : String) → elem id ids ≡ true → Moves m id f → Owned m r.0 f id)
  own_all_lem m [] v r h quiet = (
    subst (Step (MovedBy m []) v) (ap (λ q. q.0) (ok_inj (v, []) r h)) (Step-none (MovedBy m []) v),
    λ id f k. absurd (false≢true k),
  )
  own_all_lem m (id ∷ ids) v r h quiet =
      let files = bind_ok (own_file_set walk_files m id) _ r h in
      let one = bind_ok (own_files m id files.0 v) _ r files.2 in
      let rest = bind_ok (own_all walk_files m ids one.0.0) _ r one.2 in
      let pair = ok_inj (rest.0.0, one.0.1 ++ rest.0.1) r rest.2 in
      let none_yet = ap (λ q. q.1) pair ∙ quiet in
      let first =
        own_files_lem m id files.0 v one.0 one.1 (append-nil_left one.0.1 rest.0.1 none_yet) in
      let later =
        own_all_lem m ids one.0.0 rest.0 rest.1 (append-nil_right one.0.1 rest.0.1 none_yet) in
      let both : Step (MovedBy m (id ∷ ids)) v rest.0.0
          × ((j f : String) → elem j (id ∷ ids) ≡ true → Moves m j f → Owned m rest.0.0 f j) =
        (
          Step-then (Among files.0 id) (MovedBy m (id ∷ ids)) v one.0.0 rest.0.0 first.0
              (record {
                keeps = later.0.keeps;
                comes = λ f o k. elim (later.0.comes f o k) [
                  | inl j ↦ inl j
                  | inr p ↦ inr (behind o p.0, p.1)
                ];
              })
              (λ f o p.
                subst (λ z. MovedBy m (id ∷ ids) f z) (sym p.1)
                  (front id, (files.0, files.1, p.0))),
          λ j f k moved. elim (Bool-cases (id == j)) [
            | inl d ↦ Owned-keeps m (MovedBy m ids) one.0.0 rest.0.0 f j later.0 (
                subst (λ z. Owned m one.0.0 f z) (same id j d)
                  (first.1 f
                    (of_id f files.0 files.1 (subst (λ z. Moves m z f) (sym (same id j d)) moved))))
            | inr d ↦ later.1 j f (ground arith) moved
          ],
        ) in
      subst
        (λ w.
          Step (MovedBy m (id ∷ ids)) v w
          × ((j f : String) → elem j (id ∷ ids) ≡ true → Moves m j f → Owned m w f j))
        (ap (λ q. q.0) pair) both
    where
      behind : (o : String) → elem o ids ≡ true → elem o (id ∷ ids) ≡ true
      behind o k = ground arith

      front : (x : String) → elem x (x ∷ ids) ≡ true
      front x = ground (arith, eq_refl x)

      of_id :
          (f : String) (files : List String)
          → own_file_set walk_files m id ≡ ok files
          → Moves m id f
          → elem f files ≡ true
      of_id f files e (more, k, l) =
          subst (λ xs. elem f xs ≡ true) (ok_inj more files (sym k ∙ e)) l

  -- Every file has one owner, which moves it, and who else moves the file is related to the owner.
  abbrev pub Exclusive : Manifest → Owners → Type 0
  Exclusive m owners =
      ((f o : String) → lookup f owners ≡ some o → (elem o (keys m) ≡ true) × Moves m o f)
      × ((id f : String)
          → elem id (keys m) ≡ true
          → Moves m id f
          → (o : String) × (lookup f owners ≡ some o) × ((o ≡ id) ⊎ Related m o id))

  -- If _validate_overlaps returns no message, there is a dict of owners in which every file that a
  -- specification moves has an owner; the owner moves the file, and each other specification that
  -- moves it has the owner in its closure or is in the closure of the owner.
  pub validate_overlaps-Exclusive :
      (m : Manifest)
      → validate_overlaps walk_files m ≡ ok []
      → (owners : Owners) × Exclusive m owners
  validate_overlaps-Exclusive m h =
      let found = bind_ok (own_all walk_files m (spec_ids m) []) _ [] h in
      let all = own_all_lem m (spec_ids m) [] found.0 found.1 (ok_inj found.0.1 [] found.2) in
      (
        found.0.0,
        (
          λ f o k. elim (all.0.comes f o k) [
            | inl j ↦ nothing f o (sym (lookup-none f [] refl) ∙ j)
            | inr p ↦ (sym (elem-sort o (keys m)) ∙ p.0, p.1)
          ],
          λ id f k moved. all.1 id f (elem-sort id (keys m) ∙ k) moved,
        ),
      )
    where
      nothing : {P : Type 0} (f o : String) → none ≡ some o → P
      nothing f o q = cc q
