-- ===== src/Text.antt =====
-- Python's operations on texts that the tools share, over the native `String` as a list of
-- characters.
pub mod Decimal
pub mod Hex
pub mod Uuid
pub mod Strip
pub mod Lines
use Prim.Native.String.{String, [], ◌∷◌}
use Prim.Native.Char.{Char, code}
use opcua_drafts.Prelude.{
  ℕ, suc, Bool, true, false, Option, none, some, ◌≡◌, refl, ap, eqb, arith, eqb_refl,
}

-- not s
abbrev pub is_empty : String → Bool
is_empty [] = true
is_empty (c ∷ s) = false

-- s + t
abbrev pub append : String → String → String
append [] t = t
append (c ∷ s) t = c ∷ append s t

pub append_assoc : (s t u : String) → append (append s t) u ≡ append s (append t u)
append_assoc [] t u = refl
append_assoc (c ∷ s) t u = ap (λ r. c ∷ r) (append_assoc s t u)

-- s[len(p):] where s.startswith(p)
unfoldable pub remove_prefix : String → String → Option String
remove_prefix [] s = some s
remove_prefix (c ∷ p) [] = none
remove_prefix (c ∷ p) (d ∷ s) =
    let rest = remove_prefix p s in elim (eqb (code c) (code d)) [ true ↦ rest | false ↦ none ]

pub remove_prefix-append : (p s : String) → remove_prefix p (append p s) ≡ some s
unfolding remove_prefix
remove_prefix-append [] s = refl
remove_prefix-append (c ∷ p) s = rw (eqb_refl (code c), remove_prefix) (remove_prefix-append p s)

-- s[:i] and s[i + 1:] for i = s.index(c)
unfoldable pub split_at : Char → String → Option (String × String)
split_at c [] = none
split_at c (d ∷ s) =
    let rest = split_at c s in
    elim (eqb (code d) (code c)) [
      | true ↦ some ([], s)
      | false ↦ elim rest [ none ↦ none | some r ↦ some (d ∷ r.0, r.1) ]
    ]

-- The character does not stand in the text.
abbrev pub Lacks : Char → String → Type 0
Lacks c [] = Unit
Lacks c (d ∷ s) = (eqb (code d) (code c) ≡ false) × Lacks c s

pub split_at-append :
    (c : Char) (s t : String) → Lacks c s → split_at c (append s (c ∷ t)) ≡ some (s, t)
unfolding split_at
split_at-append c [] t h = rw (eqb_refl (code c), split_at)
split_at-append c (d ∷ s) t h = rw (h.0, split_at) (rw (split_at-append c s t h.1))

-- len(s)
abbrev pub text_length : String → ℕ
text_length [] = 0
text_length (c ∷ s) = suc (text_length s)
