-- ===== src/Base64/RoundTrip.antt =====
-- Decoding what the encoder wrote.
use opcua_drafts.Prelude.{
  ℕ, zero, suc, ◌+◌, ◌*◌, ◌/◌, ◌%◌, ◌<◌, Bool, true, false, ◌&&◌, Option, none, some, List, [], ◌∷◌,
  ◌≡◌, refl, ok, arith, eqb, All,
}
use opcua_drafts.Base64.{pad, digit, value, char_at, index_of, group, b64encode, b64decode}

abbrev pub IsByte : ℕ → Type 0
IsByte b = b < 256

abbrev found : Option ℕ → ℕ → Bool
found none n = false
found (some m) n = eqb m n

all_digits : ℕ → Bool
all_digits zero = true
all_digits (suc n) = found (value (digit n)) n && all_digits n

all_digits_table : all_digits 64 ≡ true
unfolding all_digits char_at index_of
all_digits_table = refl

all_digits_sound : (n m : ℕ) → all_digits n ≡ true → m < n → value (digit m) ≡ some m
unfolding all_digits
all_digits_sound zero m h lt = elim lt [ ]
all_digits_sound (suc n) m h lt = ground (arith, all_digits_sound n m)

value-digit : (m : ℕ) → m < 64 → value (digit m) ≡ some m
value-digit m h = all_digits_sound 64 m all_digits_table h

value-pad : value pad ≡ none
unfolding index_of
value-pad = refl

bytes_eq :
    {a a' b b' c c' : ℕ} {r : List ℕ}
    → a ≡ a'
    → b ≡ b'
    → c ≡ c'
    → ok (a ∷ b ∷ c ∷ r) ≡ ok (a' ∷ b' ∷ c' ∷ r)
bytes_eq p q r = cc

-- Decoding the base64 text of any bytes gives the bytes back.
pub b64decode-b64encode : (bs : List ℕ) → All IsByte bs → b64decode (b64encode bs) ≡ ok bs
unfolding b64encode b64decode group
b64decode-b64encode [] h = refl
b64decode-b64encode (a ∷ []) h =
    rw (value-digit (a / 4) (omega arith), value-digit (a % 4 * 16) (omega arith), value-pad)
      (ground arith)
b64decode-b64encode (a ∷ b ∷ []) h =
    rw
      (
        value-digit (a / 4) (omega arith),
        value-digit (a % 4 * 16 + b / 16) (omega arith),
        value-digit (b % 16 * 4) (omega arith),
        value-pad,
      )
      (ground arith)
b64decode-b64encode (a ∷ b ∷ c ∷ r) h =
    rw
      (
        value-digit (a / 4) (omega arith),
        value-digit (a % 4 * 16 + b / 16) (omega arith),
        value-digit (b % 16 * 4 + c / 64) (omega arith),
        value-digit (c % 64) (omega arith),
        b64decode-b64encode r h.1.1.1,
      )
      (bytes_eq (omega arith) (omega arith) (omega arith))
