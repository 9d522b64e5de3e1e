-- ===== src/Word/Markdown/Sections/Laid.antt =====
-- opcdocx/md_parse.py: how the sections of a document lie in its lines.
use opcua_drafts.Prelude.{
  ℕ, ◌+◌, String, Bool, true, false, not, Option, none, some, List, [], ◌∷◌, ◌++◌, length, elem,
  dict_keys, dict_keys-append, set, ◌≡◌, ◌⊎◌, inl, inr, refl, sym, ◌∙◌, ap, subst, append_assoc,
  arith, ◌==◌, Bool-cases, eq_refl,
}
use opcua_drafts.Word.Markdown.{heading, fence}
use opcua_drafts.Word.Markdown.Sections.{
  Section, fence_after, in_fence, preamble_section, titled_section, with_line,
}

-- A line that opens no section, behind lines that leave a fence open or not.
abbrev pub Inner : String → Bool → Type 0
Inner line open_fence = (heading line ≡ none) ⊎ (open_fence ≡ true)

-- The headings among the lines stand in fences.
abbrev pub Quiet : Bool → List String → Type 0
Quiet open_fence [] = Unit
Quiet open_fence (ln ∷ lines) =
    Inner ln open_fence
    × Quiet (elim (fence ln) [ none ↦ open_fence | some lang ↦ not open_fence ]) lines

pub Quiet-append :
    (open_fence : Bool) (lines : List String) (line : String)
    → Quiet open_fence lines
    → Inner line (fence_after open_fence lines)
    → Quiet open_fence (lines ++ line ∷ [])
Quiet-append open_fence [] line h k = (k, tt)
Quiet-append open_fence (ln ∷ lines) line h k = (
  h.0,
  Quiet-append (elim (fence ln) [ none ↦ open_fence | some lang ↦ not open_fence ]) lines line h.1
      k,
)

-- The sections that cover the lines of a document, the last of which is the current one: the
-- preamble, and then for each heading outside a fence the lines up to the next one.
pub data Laid (source : Option String)
    : List (String × Section) → List String → Section → Type 0 where
  preamble :
      (lines : List String)
      → Quiet false lines
      → Laid source
          (("__preamble__", preamble_section source lines) ∷ [])
          lines
          (preamble_section source lines)
  titled :
      (ss : List (String × Section)) (before : List String) (prior : Section) (line : String)
      (level : ℕ) (title : String) (lines : List String)
      → Laid source ss before prior
      → in_fence prior.lines ≡ false
      → heading line ≡ some (level, title)
      → elem title (dict_keys ss) ≡ false
      → Quiet false lines
      → Laid source
          (ss ++ (title, titled_section source level title (length before + 2) lines) ∷ [])
          (before ++ line ∷ lines)
          (titled_section source level title (length before + 2) lines)

set-last :
    (k : String) (v w : Section) (d : List (String × Section))
    → elem k (dict_keys d) ≡ false
    → set k v (d ++ (k, w) ∷ []) ≡ d ++ (k, v) ∷ []
unfolding set
set-last k v w [] h = rw (eq_refl k, set)
set-last k v w ((j, x) ∷ d) h = elim (Bool-cases (j == k)) [
  | inl e ↦ ground arith
  | inr e ↦ rw (e, set) (ap (λ r. (j, x) ∷ r) (set-last k v w d (ground arith)))
]

-- One more line of the current section.
pub Laid-with_line :
    (source : Option String) (ss : List (String × Section)) (done : List String) (current : Section)
    (line : String)
    → Laid source ss done current
    → Inner line (in_fence current.lines)
    → Laid source
        (set current.key (with_line current line) ss)
        (done ++ line ∷ [])
        (with_line current line)
      × (dict_keys (set current.key (with_line current line) ss) ≡ dict_keys ss)
unfolding set
Laid-with_line source ss done current line (preamble lines q) k =
    (preamble (lines ++ line ∷ []) (Quiet-append false lines line q k), refl)
Laid-with_line source ss done current line
      (titled ss1 before prior head level title lines h f e fresh q) k =
    let now = titled_section source level title (length before + 2) in
    let same_place = set-last title (now (lines ++ line ∷ [])) (now lines) ss1 fresh in
    (
      subst (λ d. Laid source d ((before ++ head ∷ lines) ++ line ∷ []) (now (lines ++ line ∷ [])))
          (sym same_place)
          (subst
            (λ ls.
              Laid source (ss1 ++ (title, now (lines ++ line ∷ [])) ∷ []) ls
                (now (lines ++ line ∷ [])))
            (sym (append_assoc before (head ∷ lines) (line ∷ [])))
            (titled ss1 before prior head level title (lines ++ line ∷ []) h f e fresh
              (Quiet-append false lines line q k))),
      ap dict_keys same_place
          ∙ dict_keys-append ss1 ((title, now (lines ++ line ∷ [])) ∷ [])
          ∙ sym (dict_keys-append ss1 ((title, now lines) ∷ [])),
    )
