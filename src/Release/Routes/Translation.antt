-- ===== src/Release/Routes/Translation.antt =====
-- review_routes.py: both directions of `Mapping.translate`.
use opcua_drafts.Prelude.{
  ◌+◌, String, code, Bool, true, false, Option, none, some, eqb, ◌==◌, ◌≡◌, ◌⊎◌, refl, sym, ◌∙◌, ap,
  subst, Bool-cases, inl, inr, arith, eq_iff, eq_refl, str_ne,
}
use text.Mathlib.TextEquality.{Char-path}
use opcua_drafts.Text.{append, remove_prefix, remove_prefix-append, append_assoc}
use opcua_drafts.Release.Routes.{Mapping, source_of, target_of, translate_inside, translate}
use opcua_drafts.Text.{text_length}

abbrev pub other : Bool → Bool
other true = false
other false = true

same : (x y : String) → (x == y) ≡ true → x ≡ y
same x y h = ground (arith, eq_iff x y)

some_inj : (x y : String) → some y ≡ some x → x ≡ y
some_inj x y h = cc h

none_some {ℓ} : {P : Type ℓ} (x : String) → none ≡ some x → P
none_some x h = cc h

-- A text that has a prefix is that prefix and the rest.
remove_prefix-some : (p s r : String) → remove_prefix p s ≡ some r → append p r ≡ s
unfolding remove_prefix
remove_prefix-some String.[] s r h = some_inj r s h
remove_prefix-some (String.◌∷◌ c p) String.[] r h = cc h
remove_prefix-some (String.◌∷◌ c p) (String.◌∷◌ d s) r h =
    elim (Bool-cases (eqb (code c) (code d))) [
      | inl e ↦
          (let rest = remove_prefix-some p s r (sym (rw (e, remove_prefix)) ∙ h) in
            subst (λ x. String.◌∷◌ c (append p r) ≡ String.◌∷◌ x s) (Char-path c d (ground arith))
              (ap (λ t. String.◌∷◌ c t) rest))
      | inr e ↦ none_some r (sym (rw (e, remove_prefix)) ∙ h)
    ]

text_length-append : (s t : String) → text_length (append s t) ≡ text_length s + text_length t
text_length-append String.[] t = omega arith
text_length-append (String.◌∷◌ c s) t = omega (arith, text_length-append s t)

-- Something in between makes a text longer.
longer : (s t : String) → (append s (append "/" t) == s) ≡ false
longer s t =
    str_ne (append s (append "/" t)) s
      (λ e. omega (arith, text_length-append s (append "/" t), ap text_length e))

-- The two ways in which a Boolean choice yields a value.
chosen :
    (b d : Bool) (t u : String) (o : Option String)
    → elim b [ true ↦ some t | false ↦ elim d [ true ↦ o | false ↦ none ] ] ≡ some u
    → ((b ≡ true) × (u ≡ t)) ⊎ ((d ≡ true) × (o ≡ some u))
chosen true d t u o h = inl (refl, some_inj u t h)
chosen false true t u o h = inr (refl, h)
chosen false false t u o h = none_some u h

mapped :
    (o : Option String) (f : String → String) (u : String)
    → elim o [ none ↦ none | some r ↦ some (f r) ] ≡ some u
    → (r : String) × (o ≡ some r) × (u ≡ f r)
mapped none f u h = none_some u h
mapped (some r) f u h = (r, refl, some_inj u (f r) h)

translate_lem :
    (m : Mapping) (reverse : Bool) (path target : String)
    → translate m reverse path ≡ some target
    → ((path ≡ source_of reverse m) × (target ≡ target_of reverse m))
      ⊎ ((m.directory ≡ true)
          × (rest : String) × (path ≡ append (source_of reverse m) (append "/" rest))
          × (target ≡ append (target_of reverse m) (append "/" rest)))
unfolding translate
translate_lem m reverse path target h =
    elim (chosen (path == source_of reverse m) m.directory (target_of reverse m) target
      (translate_inside (source_of reverse m) (target_of reverse m) path) h) [
        | inl e ↦ inl (same path (source_of reverse m) e.0, e.1)
        | inr e ↦
            (let r =
                mapped (remove_prefix (append (source_of reverse m) "/") path)
                  (λ rest. append (target_of reverse m) (append "/" rest)) target e.1 in
              inr (
                e.0,
                r.0,
                sym (remove_prefix-some (append (source_of reverse m) "/") path r.0 r.1)
                    ∙ append_assoc (source_of reverse m) "/" r.0,
                r.2,
              ))
      ]

translate_whole :
    (m : Mapping) (reverse : Bool)
    → translate m reverse (source_of reverse m) ≡ some (target_of reverse m)
unfolding translate
translate_whole m reverse = rw (eq_refl (source_of reverse m), translate)

past :
    (b d : Bool) (t : String) (o : Option String)
    → b ≡ false
    → d ≡ true
    → elim b [ true ↦ some t | false ↦ elim d [ true ↦ o | false ↦ none ] ] ≡ o
past b d t o h k = rw (h, k)

translate-append :
    (m : Mapping) (reverse : Bool) (rest : String)
    → m.directory ≡ true
    → translate m reverse (append (source_of reverse m) (append "/" rest))
      ≡ some (append (target_of reverse m) (append "/" rest))
unfolding translate
translate-append m reverse rest d =
    past (append (source_of reverse m) (append "/" rest) == source_of reverse m) m.directory
      (target_of reverse m) _ (longer (source_of reverse m) rest) d
    ∙ rw (inside, translate_inside)
  where
    inside :
        remove_prefix
          (append (source_of reverse m) "/")
          (append (source_of reverse m) (append "/" rest))
        ≡ some rest
    inside =
        subst (λ p. remove_prefix (append (source_of reverse m) "/") p ≡ some rest)
          (append_assoc (source_of reverse m) "/" rest)
          (remove_prefix-append (append (source_of reverse m) "/") rest)

-- What a mapping translates, it translates back the other way.
pub translate-translate :
    (m : Mapping) (reverse : Bool) (path target : String)
    → translate m reverse path ≡ some target
    → translate m (other reverse) target ≡ some path
translate-translate m true path target h = elim (translate_lem m true path target h) [
  | inl e ↦
      subst (λ t. translate m false t ≡ some path) (sym e.1)
        (subst (λ p. translate m false (target_of true m) ≡ some p) (sym e.0)
          (translate_whole m false))
  | inr e ↦
      subst (λ t. translate m false t ≡ some path) (sym e.3)
        (subst (λ p. translate m false (append (target_of true m) (append "/" e.1)) ≡ some p)
          (sym e.2) (translate-append m false e.1 e.0))
]
translate-translate m false path target h = elim (translate_lem m false path target h) [
  | inl e ↦
      subst (λ t. translate m true t ≡ some path) (sym e.1)
        (subst (λ p. translate m true (target_of false m) ≡ some p) (sym e.0)
          (translate_whole m true))
  | inr e ↦
      subst (λ t. translate m true t ≡ some path) (sym e.3)
        (subst (λ p. translate m true (append (target_of false m) (append "/" e.1)) ≡ some p)
          (sym e.2) (translate-append m true e.1 e.0))
]
