-- ===== src/Word/DocModel/Keys.antt =====
-- opcdocx/docmodel.py: `source_key` as an address.
use opcua_drafts.Prelude.{
  Bool, eqb, subst, code, ℕ, String, false, none, some, ◌≡◌, refl, sym, ◌∙◌, ap, pos, ok,
  false≢true, Option-cases, inl, inr,
}
use opcua_drafts.Text.{append, split_at, Lacks, split_at-append}
use opcua_drafts.Text.Decimal.{to_text, parse_int, parse_int-to_text, to_text-Lacks_separator}
use opcua_drafts.Word.DocModel.{Src, Block, body_kind, joined, source_key}

-- The place of a block in the document.
pub data Address : Type 0 where
  in_markdown : String → String → ℕ → Address
  at_position : String → ℕ → String → Address

pub address : Block → String → ℕ → Address
address here region index = elim (here.src) [
  | some src ↦ in_markdown src.f src.s src.b
  | none ↦ at_position region index (body_kind here.body)
]

-- The unit separator stands in no text of the block's address.
abbrev pub Plain : Block → String → Type 0
Plain here region = elim (here.src) [
  | some src ↦ Lacks "\u{1f}" src.f × Lacks "\u{1f}" src.s
  | none ↦ Lacks "\u{1f}" region
]

some_inj {ℓ} : {A : Type ℓ} {x y : A} → some x ≡ some y → x ≡ y
some_inj h = cc h

-- What stands before and behind the first separator.
cut_both :
    (a b s t : String)
    → Lacks "\u{1f}" a
    → Lacks "\u{1f}" b
    → append a (append "\u{1f}" s) ≡ append b (append "\u{1f}" t)
    → (a ≡ b) × (s ≡ t)
cut_both a b s t h k e =
    let both : (a, s) ≡ (b, t) = some_inj (
      sym (split_at-append "\u{1f}" a s h)
      ∙ ap (split_at "\u{1f}") e
      ∙ split_at-append "\u{1f}" b t k) in
    (ap (λ p. p.0) both, ap (λ p. p.1) both)

ok_same {ℓ} : {A : Type ℓ} {x y : A} → ok x ≡ ok y → x ≡ y
ok_same h = cc h

pos_same : {x y : ℕ} → pos x ≡ pos y → x ≡ y
pos_same h = cc h

to_text-same : (n k : ℕ) → to_text (pos n) ≡ to_text (pos k) → n ≡ k
to_text-same n k e =
    pos_same
      (ok_same (sym (parse_int-to_text (pos n)) ∙ ap parse_int e ∙ parse_int-to_text (pos k)))

in_markdown_key :
    (a b : Src)
    → Lacks "\u{1f}" a.f × Lacks "\u{1f}" a.s
    → Lacks "\u{1f}" b.f × Lacks "\u{1f}" b.s
    → joined "md" a.f a.s (to_text (pos a.b)) ≡ joined "md" b.f b.s (to_text (pos b.b))
    → in_markdown a.f a.s a.b ≡ in_markdown b.f b.s b.b
in_markdown_key a b h k e =
    let one = cut_both "md" "md" _ _ (refl, (refl, tt)) (refl, (refl, tt)) e in
    let two = cut_both a.f b.f _ _ h.0 k.0 one.1 in
    let three = cut_both a.s b.s _ _ h.1 k.1 two.1 in
    cc (two.0, three.0, to_text-same a.b b.b three.1)

position_key :
    (r q : String) (i j : ℕ) (c d : String)
    → Lacks "\u{1f}" r
    → Lacks "\u{1f}" q
    → joined "gen" r (to_text (pos i)) c ≡ joined "gen" q (to_text (pos j)) d
    → at_position r i c ≡ at_position q j d
position_key r q i j c d h k e =
    let one = cut_both "gen" "gen" _ _ (refl, (refl, (refl, tt))) (refl, (refl, (refl, tt))) e in
    let two = cut_both r q _ _ h k one.1 in
    let three =
      cut_both (to_text (pos i)) (to_text (pos j)) _ _ (to_text-Lacks_separator i)
        (to_text-Lacks_separator j) two.1 in
    cc (two.0, to_text-same i j three.0, three.1)

starts_with_m : String → Bool
starts_with_m String.[] = false
starts_with_m (String.◌∷◌ c s) = eqb (code c) b'm'

not_both {ℓ} :
    {P : Type ℓ} (b c d : String) (q r s : String) → joined "md" b c d ≡ joined "gen" q r s → P
unfolding starts_with_m
not_both b c d q r s e = absurd (false≢true (sym (ap starts_with_m e)))

-- Two blocks whose address holds no unit separator have the same source key only if they have the
-- same address: the same file, section and ordinal, or the same region, index and kind.
pub source_key-address :
    (here there : Block) (region other : String) (index at : ℕ)
    → Plain here region
    → Plain there other
    → source_key here region index ≡ source_key there other at
    → address here region index ≡ address there other at
unfolding source_key address
source_key-address here there region other index at h k e = elim (Option-cases (here.src)) [
  | inl a ↦ elim (Option-cases (there.src)) [
    | inl b ↦
        rw (a, b)
          (position_key region other index at (body_kind here.body) (body_kind there.body)
            (subst
              (λ o. elim o [
                | some src ↦ Lacks "\u{1f}" src.f × Lacks "\u{1f}" src.s
                | none ↦ Lacks "\u{1f}" region
              ])
              a h)
            (subst
              (λ o. elim o [
                | some src ↦ Lacks "\u{1f}" src.f × Lacks "\u{1f}" src.s
                | none ↦ Lacks "\u{1f}" other
              ])
              b k)
            (rw (a, b) at e))
    | inr (src, b) ↦
        not_both src.f src.s (to_text (pos src.b)) region (to_text (pos index))
          (body_kind here.body) (sym (rw (a, b) at e))
  ]
  | inr (src, a) ↦ elim (Option-cases (there.src)) [
    | inl b ↦
        not_both src.f src.s (to_text (pos src.b)) other (to_text (pos at)) (body_kind there.body)
          (rw (a, b) at e)
    | inr (tgt, b) ↦
        rw (a, b)
          (in_markdown_key src tgt
            (subst
              (λ o. elim o [
                | some x ↦ Lacks "\u{1f}" x.f × Lacks "\u{1f}" x.s
                | none ↦ Lacks "\u{1f}" region
              ])
              a h)
            (subst
              (λ o. elim o [
                | some x ↦ Lacks "\u{1f}" x.f × Lacks "\u{1f}" x.s
                | none ↦ Lacks "\u{1f}" other
              ])
              b k)
            (rw (a, b) at e))
  ]
]

pub address-src :
    (here : Block) (region : String) (index : ℕ) (src : Src)
    → here.src ≡ some src
    → address here region index ≡ in_markdown src.f src.s src.b
unfolding address
address-src here region index src e = rw (e)

pub Plain-src :
    (here : Block) (region : String) (src : Src)
    → here.src ≡ some src
    → Lacks "\u{1f}" src.f × Lacks "\u{1f}" src.s
    → Plain here region
Plain-src here region src e h =
    subst
      (λ o. elim o [
        | some x ↦ Lacks "\u{1f}" x.f × Lacks "\u{1f}" x.s
        | none ↦ Lacks "\u{1f}" region
      ])
      (sym e) h

pub same_ordinal : (f s g t : String) (n k : ℕ) → in_markdown f s n ≡ in_markdown g t k → n ≡ k
same_ordinal f s g t n k h = cc h
