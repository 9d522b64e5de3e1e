-- ===== src/Text/Decimal.antt =====
-- Python's `str(n)` and `int(text)`. A text that is not an optional minus sign and ASCII digits is
-- `outside` the model: `int` takes some of them (white space, underscores) and refuses others.
use Prim.Native.String.{String, [], ◌∷◌}
use Prim.Native.Char.{Char, code}
use opcua_drafts.Text.{Lacks}
use opcua_drafts.Prelude.{
  ℕ, zero, suc, ◌+◌, ◌*◌, ◌-◌, ◌/◌, ◌%◌, ◌<◌, ℤ, pos, negsuc, Bool, true, false, ◌&&◌, ◌≡◌, refl,
  Result, ok, err, outside, ◌>>=◌, leb, eqb, arith, if◌then◌else◌, Bool-cases, inl, inr, ap, ◌∙◌,
}

abbrev zero_char : Char
zero_char = "0"

char_of : String → ℕ → Char
char_of [] n = zero_char
char_of (c ∷ s) zero = c
char_of (c ∷ s) (suc n) = char_of s n

pub digit : ℕ → Char
unfolding char_of
digit n = char_of "0123456789" n

emit : ℕ → ℕ → String → String
emit zero n acc = acc
emit (suc f) n acc =
    let rest = emit f (n / 10) (digit (n % 10) ∷ acc) in
    elim (eqb (n / 10) 0) [ true ↦ digit n ∷ acc | false ↦ rest ]

-- str(n)
unfoldable pub to_decimal : ℕ → String
unfolding emit digit
to_decimal n = emit (suc n) n []

unfoldable pub to_text : ℤ → String
to_text (pos n) = to_decimal n
to_text (negsuc n) = "-" ∷ to_decimal (suc n)

scan : ℕ → String → Result ℕ
scan n [] = ok n
scan n (c ∷ s) =
    let rest = scan (n * 10 + (code c - b'0')) s in
    if leb b'0' (code c) && leb (code c) b'9' then rest else err outside

-- int(text), for digits
unfoldable pub parse_digits : String → Result ℕ
unfolding scan
parse_digits [] = err outside
parse_digits (c ∷ s) = scan 0 (c ∷ s)

-- int(text)
unfoldable pub parse_int : String → Result ℤ
parse_int [] = err outside
parse_int (c ∷ s) =
    if eqb (code c) b'-'
    then (do n ← parse_digits s; ok (if eqb n 0 then pos 0 else negsuc (n - 1)))
    else do n ← parse_digits (c ∷ s); ok (pos n)

tests :
    (to_text (negsuc 41) ≡ "-42")
    × (parse_int "-42" ≡ ok (negsuc 41))
    × (parse_int "0" ≡ ok (pos 0))
unfolding to_text to_decimal parse_int parse_digits
tests = (refl, refl, refl)

all_codes : ℕ → Bool
all_codes zero = true
all_codes (suc n) = eqb (code (digit n)) (b'0' + n) && all_codes n

all_codes_table : all_codes 10 ≡ true
unfolding all_codes digit
all_codes_table = refl

all_codes_sound : (n m : ℕ) → all_codes n ≡ true → m < n → code (digit m) ≡ b'0' + m
unfolding all_codes
all_codes_sound zero m h lt = elim lt [ ]
all_codes_sound (suc n) m h lt = ground (arith, all_codes_sound n m)

pub code-digit : (m : ℕ) → m < 10 → code (digit m) ≡ b'0' + m
code-digit m h = all_codes_sound 10 m all_codes_table h

scan-digit : (m n : ℕ) (s : String) → m < 10 → scan n (digit m ∷ s) ≡ scan (n * 10 + m) s
unfolding scan
scan-digit m n s h = ground (arith, code-digit m h)

scan-emit : (f n : ℕ) (s : String) → n < f → scan 0 (emit f n s) ≡ scan n s
unfolding emit
scan-emit zero n s h = elim h [ ]
scan-emit (suc f) n s h = elim (Bool-cases (eqb (n / 10) 0)) [
  | inl e ↦ rw (e, emit) (scan-digit n 0 s (ground arith) ∙ ap (λ k. scan k s) (omega arith))
  | inr e ↦
      rw (e, emit)
        (scan-emit f (n / 10) (digit (n % 10) ∷ s) (ground arith)
          ∙ scan-digit (n % 10) (n / 10) s (omega arith)
          ∙ ap (λ k. scan k s) (omega arith))
]

-- What is written begins with a digit.
emit-head :
    (f n : ℕ) (s : String) → n < f → (d : ℕ) × (r : String) × (d < 10) × (emit f n s ≡ digit d ∷ r)
unfolding emit
emit-head zero n s h = elim h [ ]
emit-head (suc f) n s h = elim (Bool-cases (eqb (n / 10) 0)) [
  | inl e ↦ (n, s, ground arith, rw (e, emit))
  | inr e ↦ rw (e, emit) (emit-head f (n / 10) (digit (n % 10) ∷ s) (ground arith))
]

pub to_decimal-head : (n : ℕ) → (d : ℕ) × (r : String) × (d < 10) × (to_decimal n ≡ digit d ∷ r)
unfolding to_decimal
to_decimal-head n = emit-head (suc n) n [] (omega arith)

parse_digits-eq-scan : (s : String) (c : Char) (r : String) → s ≡ c ∷ r → parse_digits s ≡ scan 0 s
unfolding parse_digits
parse_digits-eq-scan s c r e = rw e

pub parse_digits-to_decimal : (n : ℕ) → parse_digits (to_decimal n) ≡ ok n
unfolding to_decimal scan
parse_digits-to_decimal n =
    let (d, r, small, e) = emit-head (suc n) n [] (omega arith) in
    parse_digits-eq-scan (emit (suc n) n []) (digit d) r e ∙ scan-emit (suc n) n [] (omega arith)

-- A digit is no minus sign.
digit-ne-minus : (d : ℕ) → d < 10 → eqb (code (digit d)) b'-' ≡ false
digit-ne-minus d h = ground (arith, code-digit d h)

parse_int-digits :
    (s : String) (d : ℕ) (r : String) (n : ℕ)
    → s ≡ digit d ∷ r
    → d < 10
    → parse_digits s ≡ ok n
    → parse_int s ≡ ok (pos n)
unfolding parse_int
parse_int-digits s d r n e small h = rw e (rw (digit-ne-minus d small) (rw (← e) (rw h)))

-- Every integer is read back from its text.
pub parse_int-to_text : (z : ℤ) → parse_int (to_text z) ≡ ok z
unfolding to_text
parse_int-to_text (pos n) =
    let (d, r, small, e) = to_decimal-head n in
    parse_int-digits (to_decimal n) d r n e small (parse_digits-to_decimal n)
parse_int-to_text (negsuc n) =
    unfold parse_int in rw (parse_digits-to_decimal (suc n)) (ground arith)

-- The digits are not the character.
abbrev NoDigit : Char → Type 0
NoDigit x = (d : ℕ) → d < 10 → eqb (code (digit d)) (code x) ≡ false

semicolon-NoDigit : NoDigit ";"
semicolon-NoDigit d h = ground (arith, code-digit d h)

separator-NoDigit : NoDigit "\u{1f}"
separator-NoDigit d h = ground (arith, code-digit d h)

emit-Lacks :
    (x : Char) → NoDigit x → (f n : ℕ) (s : String) → n < f → Lacks x s → Lacks x (emit f n s)
unfolding emit
emit-Lacks x k zero n s h l = elim h [ ]
emit-Lacks x k (suc f) n s h l = elim (Bool-cases (eqb (n / 10) 0)) [
  | inl e ↦ rw (e, emit) (k n (ground arith), l)
  | inr e ↦
      rw (e, emit)
        (emit-Lacks x k f (n / 10) (digit (n % 10) ∷ s) (ground arith)
          (k (n % 10) (omega arith), l))
]

-- No semicolon stands in the text of an integer.
pub to_text-Lacks : (z : ℤ) → Lacks ";" (to_text z)
unfolding to_text to_decimal
to_text-Lacks (pos n) = emit-Lacks ";" semicolon-NoDigit (suc n) n [] (omega arith) tt
to_text-Lacks (negsuc n) =
    (refl, emit-Lacks ";" semicolon-NoDigit (suc (suc n)) (suc n) [] (omega arith) tt)

-- No unit separator stands in the text of a number.
pub to_text-Lacks_separator : (n : ℕ) → Lacks "\u{1f}" (to_text (pos n))
unfolding to_text to_decimal
to_text-Lacks_separator n = emit-Lacks "\u{1f}" separator-NoDigit (suc n) n [] (omega arith) tt
