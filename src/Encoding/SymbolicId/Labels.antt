-- ===== src/Encoding/SymbolicId/Labels.antt =====
-- symbolic_id.py: the alphabet and the start of what `normalize_label` returns.
use opcua_drafts.Prelude.{
  String, Char, code, Bool, true, false, ◌&&◌, eqb, ◌≡◌, refl, arith, Bool-cases, inl, inr, &&-left,
  &&-right, &&-intro,
}
use opcua_drafts.Text.{is_empty}
use opcua_drafts.Encoding.SymbolicId.{
  is_word, is_edge, is_allowed, sub_runs, squeeze, lstrip, rstrip, normalize_label, every,
}

-- Empty, or beginning with a word character.
abbrev pub starts_with_word : String → Bool
starts_with_word String.[] = true
starts_with_word (String.◌∷◌ c s) = is_word c

-- A text of the alphabet that starts with a word character, if it is not empty.
abbrev pub IsLabel : String → Type 0
IsLabel s = (every is_allowed s ≡ true) × (starts_with_word s ≡ true)

dash : is_allowed "-" ≡ true
unfolding is_edge is_word
dash = refl

sub_runs-every : (inside : Bool) (s : String) → every is_allowed (sub_runs inside s) ≡ true
sub_runs-every inside String.[] = refl
sub_runs-every inside (String.◌∷◌ c s) = elim (Bool-cases (is_allowed c)) [
  | inl e ↦ rw (e, sub_runs) (rw (e) (sub_runs-every false s))
  | inr e ↦
      rw (e, sub_runs)
        (elim (Bool-cases inside) [
          | inl d ↦ rw (d) (sub_runs-every true s)
          | inr d ↦ rw (d) (&&-intro dash (sub_runs-every true s))
        ])
]

squeezed :
    (p : Char → Bool) (d c : Char) (inside : Bool) (s : String)
    → p c ≡ true
    → every p (squeeze d true s) ≡ true
    → every p (elim inside [ true ↦ squeeze d true s | false ↦ String.◌∷◌ c (squeeze d true s) ])
      ≡ true
squeezed p d c true s first rest = rest
squeezed p d c false s first rest = &&-intro first rest

squeeze-every :
    (p : Char → Bool) (d : Char) (inside : Bool) (s : String)
    → every p s ≡ true
    → every p (squeeze d inside s) ≡ true
squeeze-every p d inside String.[] h = refl
squeeze-every p d inside (String.◌∷◌ c s) h =
    let first = &&-left (p c) (every p s) h in
    let rest = &&-right (p c) (every p s) h in
    elim (Bool-cases (eqb (code c) (code d))) [
      | inl e ↦ rw (e, squeeze) (squeezed p d c inside s first (squeeze-every p d true s rest))
      | inr e ↦ rw (e, squeeze) (&&-intro first (squeeze-every p d false s rest))
    ]

lstrip-every : (p : Char → Bool) (s : String) → every p s ≡ true → every p (lstrip s) ≡ true
lstrip-every p String.[] h = refl
lstrip-every p (String.◌∷◌ c s) h = elim (Bool-cases (is_edge c)) [
  | inl e ↦ rw (e, lstrip) (lstrip-every p s (&&-right (p c) (every p s) h))
  | inr e ↦ rw (e, lstrip) h
]

lstrip-starts : (s : String) → every is_allowed s ≡ true → starts_with_word (lstrip s) ≡ true
lstrip-starts String.[] h = refl
lstrip-starts (String.◌∷◌ c s) h = elim (Bool-cases (is_edge c)) [
  | inl e ↦ rw (e, lstrip) (lstrip-starts s (&&-right (is_allowed c) (every is_allowed s) h))
  | inr e ↦ rw (e, lstrip) (ground (arith, &&-left (is_allowed c) (every is_allowed s) h))
]

pub rstrip-every : (p : Char → Bool) (s : String) → every p s ≡ true → every p (rstrip s) ≡ true
rstrip-every p String.[] h = refl
rstrip-every p (String.◌∷◌ c s) h = elim (Bool-cases (is_edge c && is_empty (rstrip s))) [
  | inl e ↦ rw (e, rstrip)
  | inr e ↦
      rw (e, rstrip)
        (&&-intro (&&-left (p c) (every p s) h) (rstrip-every p s (&&-right (p c) (every p s) h)))
]

pub word-edge : (c : Char) → is_word c ≡ true → is_edge c ≡ false
unfolding is_word is_edge
word-edge c h = ground arith

-- A word character at the start stays.
pub rstrip_first :
    (c : Char) (s : String) → is_word c ≡ true → rstrip (String.◌∷◌ c s) ≡ String.◌∷◌ c (rstrip s)
rstrip_first c s h = rw (word-edge c h, rstrip)

pub rstrip-starts : (s : String) → starts_with_word s ≡ true → starts_with_word (rstrip s) ≡ true
rstrip-starts String.[] h = refl
rstrip-starts (String.◌∷◌ c s) h = rw (rstrip_first c s h) h

pub normalize_label-IsLabel : (label : String) → IsLabel (normalize_label label)
unfolding normalize_label
normalize_label-IsLabel label =
    let all =
      squeeze-every is_allowed "." false _
        (squeeze-every is_allowed "-" false _ (sub_runs-every false label)) in
    (
      rstrip-every is_allowed _ (lstrip-every is_allowed _ all),
      rstrip-starts _ (lstrip-starts _ all),
    )
