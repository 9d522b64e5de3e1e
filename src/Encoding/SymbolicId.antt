-- ===== src/Encoding/SymbolicId.antt =====
-- opcua_enc/symbolic_id.py: the identifier made of the labels of a source identity. `split_identity`,
-- which finds the labels with urllib, and the digest of `disambiguator` are parameters.
pub mod Labels
pub mod Parts
pub mod Validity
pub mod Tests
use opcua_drafts.Prelude.{
  ℕ, zero, suc, String, Char, code, Bool, true, false, not, ◌&&◌, ◌||◌, List, [], ◌∷◌, length, map,
  elem, leb, ltb, eqb, if◌then◌else◌,
}
use opcua_drafts.Text.{is_empty, append}

abbrev pub len : String → ℕ
len String.[] = 0
len (String.◌∷◌ c s) = suc (len s)

-- [A-Za-z0-9_]
unfoldable pub is_word : Char → Bool
is_word c =
    leb b'A' (code c) && leb (code c) b'Z'
    || leb b'a' (code c) && leb (code c) b'z'
    || leb b'0' (code c) && leb (code c) b'9'
    || eqb (code c) b'_'

-- The characters that `strip("-.")` removes.
unfoldable pub is_edge : Char → Bool
is_edge c = eqb (code c) b'-' || eqb (code c) b'.'

-- [A-Za-z0-9_.-], the complement of `_ALLOWED`
abbrev pub is_allowed : Char → Bool
is_allowed c = is_word c || is_edge c

-- _ALLOWED.sub("-", label); the Boolean says whether a run has begun.
abbrev pub sub_runs : Bool → String → String
sub_runs inside String.[] = ""
sub_runs inside (String.◌∷◌ c s) = elim (is_allowed c) [
  | true ↦ String.◌∷◌ c (sub_runs false s)
  | false ↦ elim inside [ true ↦ sub_runs true s | false ↦ String.◌∷◌ "-" (sub_runs true s) ]
]

-- re.sub of two or more of a character by one
abbrev pub squeeze : Char → Bool → String → String
squeeze d inside String.[] = ""
squeeze d inside (String.◌∷◌ c s) = elim (eqb (code c) (code d)) [
  | true ↦ elim inside [ true ↦ squeeze d true s | false ↦ String.◌∷◌ c (squeeze d true s) ]
  | false ↦ String.◌∷◌ c (squeeze d false s)
]

abbrev pub lstrip : String → String
lstrip String.[] = ""
lstrip (String.◌∷◌ c s) = elim (is_edge c) [ true ↦ lstrip s | false ↦ String.◌∷◌ c s ]

-- rstrip("-.")
abbrev pub rstrip : String → String
rstrip String.[] = ""
rstrip (String.◌∷◌ c s) =
    let rest = rstrip s in
    elim (is_edge c && is_empty rest) [ true ↦ "" | false ↦ String.◌∷◌ c rest ]

-- `normalize_label`
unfoldable pub normalize_label : String → String
normalize_label label =
    rstrip (lstrip (squeeze "." false (squeeze "-" false (sub_runs false label))))

abbrev pub non_empty : List String → List String
non_empty [] = []
non_empty (s ∷ ss) = elim (is_empty s) [ true ↦ non_empty ss | false ↦ s ∷ non_empty ss ]

-- ".".join(labels)
abbrev pub join : List String → String
join [] = ""
join (s ∷ []) = s
join (s ∷ t ∷ ts) = append s (String.◌∷◌ "." (join (t ∷ ts)))

-- labels.pop()
abbrev pub pop : List String → List String
pop [] = []
pop (s ∷ []) = []
pop (s ∷ t ∷ ts) = s ∷ pop (t ∷ ts)

abbrev pub too_long : List String → Bool
too_long labels = ltb 1 (length labels) && ltb 119 (len (join labels))

-- while len(labels) > 1 and len(".".join(labels)) > _TRIMMED_LEN
abbrev pub pop_labels : ℕ → List String → List String
pop_labels zero labels = labels
pop_labels (suc n) labels = elim (too_long labels) [
  | true ↦ pop_labels n (pop labels)
  | false ↦ labels
]

-- s[:n]
abbrev pub cut : ℕ → String → String
cut zero s = ""
cut (suc n) String.[] = ""
cut (suc n) (String.◌∷◌ c s) = String.◌∷◌ c (cut n s)

-- The branch of an over-long candidate.
abbrev pub trimmed : List String → String
trimmed labels =
    let candidate = join (pop_labels (length labels) labels) in
    elim (ltb 119 (len candidate)) [ true ↦ rstrip (cut 119 candidate) | false ↦ candidate ]

abbrev pub or_underscore : String → String
or_underscore s = elim (is_empty s) [ true ↦ "_" | false ↦ s ]

-- The part of the candidate that leaves room for the disambiguator.
abbrev pub head : String → String
head candidate = elim (leb (len candidate) 119) [ true ↦ candidate | false ↦ cut 119 candidate ]

-- The candidate with the disambiguator of the identity.
abbrev pub disambiguated : String → String → String
disambiguated digest candidate = append (rstrip (head candidate)) (String.◌∷◌ "." digest)

-- `symbolic_id`, for the labels of the identity and its disambiguator; `lower` is str.lower.
unfoldable pub symbolic_id : (String → String) → String → List String → List String → String
symbolic_id lower digest parts existing =
    let labels = non_empty (map normalize_label parts) in
    let truncated = ltb 128 (len (join labels)) in
    let candidate =
      or_underscore (elim truncated [ true ↦ trimmed labels | false ↦ join labels ]) in
    elim (truncated || elem (lower candidate) (map lower existing)) [
      | true ↦ disambiguated digest candidate
      | false ↦ candidate
    ]

-- [A-Za-z0-9\-._~:@]
unfoldable pub is_id_char : Char → Bool
is_id_char c = is_allowed c || eqb (code c) b'~' || eqb (code c) b':' || eqb (code c) b'@'

abbrev pub every : (Char → Bool) → String → Bool
every p String.[] = true
every p (String.◌∷◌ c s) = p c && every p s

-- XREGISTRY_ID_RE up to the end of the text
unfoldable pub is_id : String → Bool
is_id String.[] = false
is_id (String.◌∷◌ c s) = is_word c && every is_id_char s && leb (len s) 127

-- The text before a newline at its end, where `$` matches as well.
abbrev pub before_newline : String → String
before_newline String.[] = ""
before_newline (String.◌∷◌ c s) =
    let rest = before_newline s in
    elim (is_empty s && eqb (code c) 10) [ true ↦ "" | false ↦ String.◌∷◌ c rest ]

-- `is_valid_xregistry_id`
unfoldable pub is_valid_xregistry_id : String → Bool
is_valid_xregistry_id value = is_id value || is_id (before_newline value)
