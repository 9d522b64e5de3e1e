-- ===== src/Encoding/SymbolicId/Parts.antt =====
-- symbolic_id.py: cutting, stripping and joining labels of the identifier's alphabet.
use opcua_drafts.Prelude.{
  ℕ, zero, suc, ◌+◌, ◌≤◌, String, Char, Bool, true, false, ◌&&◌, List, [], ◌∷◌, length, map, ◌≡◌,
  refl, sym, ap, arith, Bool-cases, inl, inr, &&-left, &&-right, &&-intro, All, false≢true,
}
use opcua_drafts.Text.{is_empty, append}
use opcua_drafts.Encoding.SymbolicId.{
  len, is_word, is_edge, is_allowed, rstrip, normalize_label, non_empty, join, cut, every, pop,
  pop_labels, too_long,
}
use opcua_drafts.Encoding.SymbolicId.Labels.{
  IsLabel, rstrip-every, rstrip-starts, rstrip_first, normalize_label-IsLabel,
}

abbrev pub IsPart : String → Type 0
IsPart s = IsLabel s × (is_empty s ≡ false)

pub every-append :
    (p : Char → Bool) (s t : String)
    → every p s ≡ true
    → every p t ≡ true
    → every p (append s t) ≡ true
every-append p String.[] t h k = k
every-append p (String.◌∷◌ c s) t h k =
    &&-intro (&&-left (p c) (every p s) h) (every-append p s t (&&-right (p c) (every p s) h) k)

pub every-weaken :
    (p q : Char → Bool)
    → ((c : Char) → p c ≡ true → q c ≡ true)
    → (s : String) → every p s ≡ true
    → every q s ≡ true
every-weaken p q w String.[] h = refl
every-weaken p q w (String.◌∷◌ c s) h =
    &&-intro (w c (&&-left (p c) (every p s) h))
      (every-weaken p q w s (&&-right (p c) (every p s) h))

pub every-cut : (p : Char → Bool) (n : ℕ) (s : String) → every p s ≡ true → every p (cut n s) ≡ true
every-cut p zero s h = refl
every-cut p (suc n) String.[] h = refl
every-cut p (suc n) (String.◌∷◌ c s) h =
    &&-intro (&&-left (p c) (every p s) h) (every-cut p n s (&&-right (p c) (every p s) h))

pub len-cut : (n : ℕ) (s : String) → len (cut n s) ≤ n
len-cut zero s = omega arith
len-cut (suc n) String.[] = omega arith
len-cut (suc n) (String.◌∷◌ c s) = omega (arith, len-cut n s)

pub len-rstrip : (s : String) → len (rstrip s) ≤ len s
len-rstrip String.[] = omega arith
len-rstrip (String.◌∷◌ c s) = elim (Bool-cases (is_edge c && is_empty (rstrip s))) [
  | inl e ↦ rw (e, rstrip) (omega arith)
  | inr e ↦ rw (e, rstrip) (omega (arith, len-rstrip s))
]

pub len-append : (s t : String) → len (append s t) ≡ len s + len t
len-append String.[] t = omega arith
len-append (String.◌∷◌ c s) t = omega (arith, len-append s t)

pub append-IsPart : (s t : String) → IsPart s → every is_allowed t ≡ true → IsPart (append s t)
append-IsPart String.[] t h k = absurd (false≢true (sym h.1))
append-IsPart (String.◌∷◌ c s) t h k =
    ((every-append is_allowed (String.◌∷◌ c s) t h.0.0 k, h.0.1), refl)

pub cut-IsPart : (n : ℕ) (s : String) → IsPart s → IsPart (cut (suc n) s)
cut-IsPart n String.[] h = absurd (false≢true (sym h.1))
cut-IsPart n (String.◌∷◌ c s) h =
    ((every-cut is_allowed (suc n) (String.◌∷◌ c s) h.0.0, h.0.1), refl)

pub rstrip-IsPart : (s : String) → IsPart s → IsPart (rstrip s)
rstrip-IsPart String.[] h = absurd (false≢true (sym h.1))
rstrip-IsPart (String.◌∷◌ c s) h = (
  (rstrip-every is_allowed (String.◌∷◌ c s) h.0.0, rstrip-starts (String.◌∷◌ c s) h.0.1),
  ap is_empty (rstrip_first c s h.0.1),
)

pub dot : is_allowed "." ≡ true
unfolding is_word is_edge
dot = refl

pub join-IsPart :
    (s : String) (ss : List String) → IsPart s → All IsPart ss → IsPart (join (s ∷ ss))
join-IsPart s [] h k = h
join-IsPart s (t ∷ ts) h k =
    append-IsPart s (String.◌∷◌ "." (join (t ∷ ts))) h (&&-intro dot (join-IsPart t ts k.0 k.1).0.0)

pub non_empty-All : (parts : List String) → All IsPart (non_empty (map normalize_label parts))
non_empty-All [] = tt
non_empty-All (s ∷ ss) = elim (Bool-cases (is_empty (normalize_label s))) [
  | inl e ↦ rw (e, non_empty) (non_empty-All ss)
  | inr e ↦ rw (e, non_empty) (((normalize_label-IsLabel s, e), non_empty-All ss))
]

length-pop : (s : String) (ss : List String) → suc (length (pop (s ∷ ss))) ≡ length (s ∷ ss)
length-pop s [] = refl
length-pop s (t ∷ ts) = ap suc (length-pop t ts)

-- With as much fuel as there are labels, the loop of `pop` ends by its condition.
pub pop_labels-too_long :
    (n : ℕ) (ls : List String) → length ls ≤ n → too_long (pop_labels n ls) ≡ false
pop_labels-too_long zero [] h = refl
pop_labels-too_long zero (s ∷ ss) h = absurd (omega (arith, h))
pop_labels-too_long (suc n) [] h = refl
pop_labels-too_long (suc n) (s ∷ ss) h = elim (Bool-cases (too_long (s ∷ ss))) [
  | inl e ↦
      rw (e, pop_labels) (pop_labels-too_long n (pop (s ∷ ss)) (omega (arith, h, length-pop s ss)))
  | inr e ↦ rw (e, pop_labels) e
]
