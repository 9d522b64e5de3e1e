-- ===== src/Encoding/SymbolicId/Validity.antt =====
-- symbolic_id.py: `symbolic_id` against the pattern and the length of xRegistry ids.
use opcua_drafts.Prelude.{
  ℕ, zero, suc, ◌≤◌, ◌<◌, String, Char, code, Bool, true, false, ◌&&◌, ◌||◌, List, [], ◌∷◌, length,
  map, leb, ltb, ◌≡◌, refl, sym, arith, Bool-cases, inl, inr, &&-right, &&-intro, All, false≢true,
}
use opcua_drafts.Text.{is_empty}
use opcua_drafts.Encoding.SymbolicId.{
  len, is_word, is_edge, is_allowed, rstrip, normalize_label, non_empty, join, cut, every, pop,
  pop_labels, too_long, trimmed, or_underscore, head, disambiguated, symbolic_id, is_id_char, is_id,
  is_valid_xregistry_id,
}
use opcua_drafts.Encoding.SymbolicId.Labels.{IsLabel}
use opcua_drafts.Encoding.SymbolicId.Parts.{
  IsPart, every-weaken, len-cut, len-rstrip, len-append, append-IsPart, cut-IsPart, rstrip-IsPart,
  dot, join-IsPart, non_empty-All,
}

-- [0-9a-f]
unfoldable pub is_hex : Char → Bool
is_hex c = leb b'0' (code c) && leb (code c) b'9' || leb b'a' (code c) && leb (code c) b'f'

pop-All : (ls : List String) → All IsPart ls → All IsPart (pop ls)
pop-All [] h = tt
pop-All (s ∷ []) h = tt
pop-All (s ∷ t ∷ ts) h = (h.0, pop-All (t ∷ ts) h.1)

pop_labels-All : (n : ℕ) (ls : List String) → All IsPart ls → All IsPart (pop_labels n ls)
pop_labels-All zero ls h = h
pop_labels-All (suc n) ls h = elim (Bool-cases (too_long ls)) [
  | inl e ↦ rw (e, pop_labels) (pop_labels-All n (pop ls) (pop-All ls h))
  | inr e ↦ rw (e, pop_labels) h
]

join-IsLabel : (ls : List String) → All IsPart ls → IsLabel (join ls)
join-IsLabel [] h = (refl, refl)
join-IsLabel (s ∷ ss) h = (join-IsPart s ss h.0 h.1).0

full : (s : String) (n : ℕ) → n < len s → is_empty s ≡ false
full String.[] n h = absurd (omega (arith, h))
full (String.◌∷◌ c s) n h = refl

trimmed-candidate :
    (s : String)
    → IsLabel s
    → IsLabel (elim (ltb 119 (len s)) [ true ↦ rstrip (cut 119 s) | false ↦ s ])
      × (len (elim (ltb 119 (len s)) [ true ↦ rstrip (cut 119 s) | false ↦ s ]) ≤ 119)
trimmed-candidate s h = elim (Bool-cases (ltb 119 (len s))) [
  | inl e ↦ rw (e) (
    (rstrip-IsPart (cut 119 s) (cut-IsPart 118 s (h, full s 119 (ground (arith, e))))).0,
    omega (arith, len-rstrip (cut 119 s), len-cut 119 s),
  )
  | inr e ↦ rw (e) (h, ground (arith, e))
]

or_underscore-IsPart : (s : String) → IsLabel s → IsPart (or_underscore s)
unfolding is_word is_edge
or_underscore-IsPart String.[] h = ((refl, refl), refl)
or_underscore-IsPart (String.◌∷◌ c s) h = (h, refl)

len-or_underscore : (s : String) (n : ℕ) → len s ≤ suc n → len (or_underscore s) ≤ suc n
len-or_underscore String.[] n h = omega arith
len-or_underscore (String.◌∷◌ c s) n h = h

shortened : (c : String) → IsPart c → IsPart (head c) × (len (head c) ≤ 119)
shortened c h = elim (Bool-cases (leb (len c) 119)) [
  | inl e ↦ rw (e, head) (h, ground (arith, e))
  | inr e ↦ rw (e, head) (cut-IsPart 118 c h, len-cut 119 c)
]

hex-allowed : (c : Char) → is_hex c ≡ true → is_allowed c ≡ true
unfolding is_hex is_word
hex-allowed c h = ground arith

disambiguated-IsPart :
    (digest c : String)
    → len digest ≡ 8
    → every is_hex digest ≡ true
    → IsPart c
    → IsPart (disambiguated digest c) × (len (disambiguated digest c) ≤ 128)
disambiguated-IsPart digest c l h k =
    let short = shortened c k in
    let start = head c in
    (
      append-IsPart (rstrip start) (String.◌∷◌ "." digest) (rstrip-IsPart start short.0)
          (&&-intro dot (every-weaken is_hex is_allowed hex-allowed digest h)),
      omega
          (arith, len-append (rstrip start) (String.◌∷◌ "." digest), len-rstrip start, short.1, l),
    )

id_char : (c : Char) → is_allowed c ≡ true → is_id_char c ≡ true
unfolding is_id_char
id_char c h = ground arith

is_id-of : (s : String) → IsPart s → len s ≤ 128 → is_id s ≡ true
unfolding is_id
is_id-of String.[] h k = absurd (false≢true (sym h.1))
is_id-of (String.◌∷◌ c s) h k =
    &&-intro
      (&&-intro h.0.1 (
        every-weaken is_allowed is_id_char id_char s
          (&&-right (is_allowed c) (every is_allowed s) h.0.0)))
      (ground (arith, k))

chosen-IsPart :
    (b : Bool) (digest c : String)
    → len digest ≡ 8
    → every is_hex digest ≡ true
    → IsPart c
    → len c ≤ 128
    → IsPart (elim b [ true ↦ disambiguated digest c | false ↦ c ])
      × (len (elim b [ true ↦ disambiguated digest c | false ↦ c ]) ≤ 128)
chosen-IsPart true digest c l h k m = disambiguated-IsPart digest c l h k
chosen-IsPart false digest c l h k m = (k, m)

candidate-IsPart :
    (ls : List String)
    → All IsPart ls
    → IsPart
        (or_underscore (elim (ltb 128 (len (join ls))) [ true ↦ trimmed ls | false ↦ join ls ]))
      × (len
            (or_underscore (elim (ltb 128 (len (join ls))) [ true ↦ trimmed ls | false ↦ join ls ]))
          ≤ 128)
candidate-IsPart ls h = elim (Bool-cases (ltb 128 (len (join ls)))) [
  | inl e ↦
      (let t =
          trimmed-candidate (join (pop_labels (length ls) ls))
            (join-IsLabel (pop_labels (length ls) ls) (pop_labels-All (length ls) ls h)) in
        rw (e) (
          or_underscore-IsPart (trimmed ls) t.0,
          len-or_underscore (trimmed ls) 127 (omega (arith, t.1)),
        ))
  | inr e ↦ rw (e) (
    or_underscore-IsPart (join ls) (join-IsLabel ls h),
    len-or_underscore (join ls) 127 (ground (arith, e)),
  )
]

-- For any labels of an identity and any ids of siblings, `symbolic_id` makes a text that the pattern
-- of xRegistry ids matches up to its end, that has at most 128 characters and that
-- `is_valid_xregistry_id` accepts, if the disambiguator has 8 hexadecimal digits.
pub symbolic_id-valid :
    (lower : String → String) (digest : String) (parts existing : List String)
    → len digest ≡ 8
    → every is_hex digest ≡ true
    → (is_id (symbolic_id lower digest parts existing) ≡ true)
      × (len (symbolic_id lower digest parts existing) ≤ 128)
      × (is_valid_xregistry_id (symbolic_id lower digest parts existing) ≡ true)
unfolding is_valid_xregistry_id symbolic_id
symbolic_id-valid lower digest parts existing l h =
    let made = candidate-IsPart (non_empty (map normalize_label parts)) (non_empty-All parts) in
    let done = chosen-IsPart _ digest _ l h made.0 made.1 in
    let id = is_id-of _ done.0 done.1 in (id, done.1, ground (arith, id))
