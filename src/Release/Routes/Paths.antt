-- ===== src/Release/Routes/Paths.antt =====
-- review_routes.py: where the paths that `relative_path` accepts lead.
use opcua_drafts.Prelude.{
  String, code, Bool, true, false, List, [], ◌∷◌, any, eqb, ◌==◌, ok, err, value_error,
  if◌then◌else◌, ◌≡◌, refl, sym, ◌∙◌, ap, subst, Bool-cases, inl, inr, arith, eq_iff,
}
use opcua_drafts.Text.{is_empty}
use opcua_drafts.Release.Routes.{forward_slashes, split_slashes, unsafe_part, unsafe, relative_path}

-- What a part of a path does to a directory, which is given by its parts, the last part first: ""
-- and "." stay, ".." goes up.
abbrev pub enter : String → List String → List String
enter part at =
    if part == ""
    then at
    else if part == "."
    then at
    else if part == ".."
    then elim at [ [] ↦ [] | p ∷ ps ↦ ps ]
    else part ∷ at

abbrev pub walk_parts : List String → List String → List String
walk_parts [] at = at
walk_parts (part ∷ parts) at = walk_parts parts (enter part at)

-- Every part goes down.
abbrev pub descend : List String → List String → List String
descend [] at = at
descend (part ∷ parts) at = descend parts (part ∷ at)

str_false : (s t : String) → (t == s) ≡ false → (s == t) ≡ false
str_false s t h = ground (arith, eq_iff s t, eq_iff t s)

enter_lem :
    (part : String) (at : List String) → unsafe_part part ≡ false → enter part at ≡ part ∷ at
enter_lem part at h = rw (
  str_false part "" (ground arith),
  str_false part "." (ground arith),
  str_false part ".." (ground arith),
)

walk_parts-descend :
    (parts at : List String)
    → any unsafe_part parts ≡ false
    → walk_parts parts at ≡ descend parts at
walk_parts-descend [] at h = refl
walk_parts-descend (part ∷ parts) at h =
    rw (enter_lem part at (ground arith)) (walk_parts-descend parts (part ∷ at) (ground arith))

forward_slashes-twice : (s : String) → forward_slashes (forward_slashes s) ≡ forward_slashes s
forward_slashes-twice String.[] = refl
forward_slashes-twice (String.◌∷◌ c s) = elim (Bool-cases (eqb (code c) b'\\')) [
  | inl e ↦ rw (e, forward_slashes) (ap (λ t. String.◌∷◌ "/" t) (forward_slashes-twice s))
  | inr e ↦
      rw (e, forward_slashes)
        (rw (e, forward_slashes) (ap (λ t. String.◌∷◌ c t) (forward_slashes-twice s)))
]

forward_slashes-full : (s : String) → is_empty s ≡ false → is_empty (forward_slashes s) ≡ false
forward_slashes-full String.[] h = h
forward_slashes-full (String.◌∷◌ c s) h = elim (Bool-cases (eqb (code c) b'\\')) [
  | inl e ↦ rw (e, forward_slashes)
  | inr e ↦ rw (e, forward_slashes)
]

guarded :
    (a b : Bool) (p q : String)
    → (if a then err value_error else if b then err value_error else ok p) ≡ ok q
    → (a ≡ false) × (b ≡ false) × (p ≡ q)
guarded true b p q h = cc h
guarded false true p q h = cc h
guarded false false p q h = (refl, refl, cc h)

relative_path-steps :
    (value path : String)
    → relative_path value ≡ ok path
    → (is_empty value ≡ false)
      × (unsafe (forward_slashes value) ≡ false)
      × (forward_slashes value ≡ path)
unfolding relative_path
relative_path-steps value path h =
    guarded (is_empty value) (unsafe (forward_slashes value)) (forward_slashes value) path h

-- `relative_path` returns only paths whose parts all go down from the directory that they are joined
-- to, and which it accepts as they are.
pub relative_path-inside :
    (value path : String)
    → relative_path value ≡ ok path
    → ((at : List String) → walk_parts (split_slashes path) at ≡ descend (split_slashes path) at)
      × (relative_path path ≡ ok path)
unfolding relative_path
relative_path-inside value path h =
    let s = relative_path-steps value path h in
    let safe = subst (λ p. unsafe p ≡ false) s.2 s.1 in
    let whole = subst (λ p. is_empty p ≡ false) s.2 (forward_slashes-full value s.0) in
    let still = ap forward_slashes (sym s.2) ∙ forward_slashes-twice value ∙ s.2 in
    (
      (λ at. walk_parts-descend (split_slashes path) at (ground (arith, safe))),
      rw (whole, still, safe),
    )
