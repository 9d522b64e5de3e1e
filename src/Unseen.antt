-- ===== src/Unseen.antt =====
-- How many of the known ids a search that notes what it has seen has left, which bounds its depth.
use opcua_drafts.Prelude.{
  false≢true, ℕ, suc, ◌<◌, ◌≤◌, String, true, false, ◌||◌, List, [], ◌∷◌, ◌++◌, length, ◌==◌, elem,
  elem-append, ◌≡◌, inl, inr, Bool-cases, arith, eq_iff,
}

abbrev pub unseen : List String → List String → ℕ
unseen [] seen = 0
unseen (k ∷ ks) seen = elim (elem k seen) [ true ↦ unseen ks seen | false ↦ suc (unseen ks seen) ]

pub unseen-length : (known seen : List String) → unseen known seen ≤ length known
unseen-length [] seen = ground arith
unseen-length (k ∷ ks) seen = elim (Bool-cases (elem k seen)) [
  | inl e ↦ rw (e, unseen) (omega (arith, unseen-length ks seen))
  | inr e ↦ rw (e, unseen) (omega (arith, unseen-length ks seen))
]

abbrev pub Within : List String → List String → Type 0
Within xs ys = (x : String) → elem x xs ≡ true → elem x ys ≡ true

pub unseen_mono : (known xs ys : List String) → Within xs ys → unseen known ys ≤ unseen known xs
unseen_mono [] xs ys h = ground arith
unseen_mono (k ∷ ks) xs ys h = elim (Bool-cases (elem k xs)) [
  | inl e ↦ rw (e, unseen) (rw (h k e, unseen) (unseen_mono ks xs ys h))
  | inr e ↦
      rw (e, unseen)
        (elim (Bool-cases (elem k ys)) [
          | inl d ↦ rw (d, unseen) (omega (arith, unseen_mono ks xs ys h))
          | inr d ↦ rw (d, unseen) (omega (arith, unseen_mono ks xs ys h))
        ])
]

pub Within-append : (xs ys : List String) → Within xs (xs ++ ys)
Within-append xs ys x h = ground (arith, elem-append x xs ys)

-- Membership of the longer list.
pub elem-note :
    (k x : String) (seen : List String) → elem k (seen ++ x ∷ []) ≡ (elem k seen || x == k)
elem-note k x seen = ground (arith, elem-append k seen (x ∷ []))

pub unseen_note :
    (known seen : List String) (x : String)
    → elem x known ≡ true
    → elem x seen ≡ false
    → unseen known (seen ++ x ∷ []) < unseen known seen
unseen_note [] seen x h e = absurd (false≢true h)
unseen_note (k ∷ ks) seen x h e = elim (Bool-cases (elem k seen)) [
  | inl d ↦
      rw (d, unseen)
        (rw (Within-append seen (x ∷ []) k d, unseen)
          (unseen_note ks seen x (ground (arith, eq_iff k x)) e))
  | inr d ↦
      rw (d, unseen)
        (elim (Bool-cases (x == k)) [
          | inl c ↦
              rw (elem-note k x seen, d, c, unseen)
                (omega (arith, unseen_mono ks seen (seen ++ x ∷ []) (Within-append seen (x ∷ []))))
          | inr c ↦
              rw (elem-note k x seen, d, c, unseen)
                (omega (arith, unseen_note ks seen x (ground (arith, eq_iff k x, eq_iff x k)) e))
        ])
]
