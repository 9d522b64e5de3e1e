-- ===== src/Text/Hex.antt =====
-- Python's `bytes.hex()` and the reading of hexadecimal digits, and the text of a UUID.
use Prim.Native.String.{String, [], ◌∷◌}
use Prim.Native.Char.{Char, code}
use opcua_drafts.Prelude.{
  ℕ, zero, suc, ◌+◌, ◌*◌, ◌-◌, ◌/◌, ◌%◌, ◌<◌, Bool, true, false, ◌&&◌, Option, none, some, List,
  ◌≡◌, refl, Result, ok, err, outside, ◌>>=◌, leb, eqb, arith, if◌then◌else◌, All,
}
use opcua_drafts.Base64.RoundTrip.{IsByte}
use opcua_drafts.Text.{Lacks}

char_of : String → ℕ → Char
char_of [] n = "0"
char_of (c ∷ s) zero = c
char_of (c ∷ s) (suc n) = char_of s n

pub hex_digit : ℕ → Char
unfolding char_of
hex_digit n = char_of "0123456789abcdef" n

-- int(c, 16)
pub hex_value : Char → Option ℕ
hex_value c =
    if leb b'0' (code c) && leb (code c) b'9'
    then some (code c - b'0')
    else if leb b'a' (code c) && leb (code c) b'f'
    then some (code c - b'a' + 10)
    else if leb b'A' (code c) && leb (code c) b'F'
    then some (code c - b'A' + 10)
    else none

-- bs.hex()
unfoldable pub hex : List ℕ → String
hex List.[] = []
hex (List.◌∷◌ b bs) = hex_digit (b / 16) ∷ hex_digit (b % 16) ∷ hex bs

-- The bytes that an even number of hexadecimal digits spells.
unfoldable pub unhex : String → Result (List ℕ)
unhex [] = ok List.[]
unhex (c ∷ []) = err outside
unhex (c ∷ d ∷ s) =
    let rest = unhex s in
    elim (hex_value c) [
      | none ↦ err outside
      | some x ↦ elim (hex_value d) [
        | none ↦ err outside
        | some y ↦ rest >>= λ bs. ok (List.◌∷◌ (x * 16 + y) bs)
      ]
    ]

abbrev found : Option ℕ → ℕ → Bool
found none n = false
found (some m) n = eqb m n

all_digits : ℕ → Bool
all_digits zero = true
all_digits (suc n) = found (hex_value (hex_digit n)) n && all_digits n

all_digits_table : all_digits 16 ≡ true
unfolding all_digits hex_value hex_digit
all_digits_table = refl

all_digits_sound : (n m : ℕ) → all_digits n ≡ true → m < n → hex_value (hex_digit m) ≡ some m
unfolding all_digits
all_digits_sound zero m h lt = elim lt [ ]
all_digits_sound (suc n) m h lt = ground (arith, all_digits_sound n m)

hex_value-hex_digit : (m : ℕ) → m < 16 → hex_value (hex_digit m) ≡ some m
hex_value-hex_digit m h = all_digits_sound 16 m all_digits_table h

cons_eq : {a b : ℕ} {s : List ℕ} → a ≡ b → ok (List.◌∷◌ a s) ≡ ok (List.◌∷◌ b s)
cons_eq p = cc

-- Reading the hexadecimal digits of bytes gives the bytes.
pub unhex-hex : (bs : List ℕ) → All IsByte bs → unhex (hex bs) ≡ ok bs
unfolding hex unhex
unhex-hex List.[] h = refl
unhex-hex (List.◌∷◌ b bs) h =
    rw (hex_value-hex_digit (b / 16) (omega arith), unhex)
      (rw (hex_value-hex_digit (b % 16) (omega arith), unhex)
        (rw (unhex-hex bs h.1) (cons_eq (omega arith))))

char_of-ne-dash : (s : String) (n : ℕ) → Lacks "-" s → eqb (code (char_of s n)) b'-' ≡ false
unfolding char_of
char_of-ne-dash [] n h = refl
char_of-ne-dash (c ∷ s) zero h = h.0
char_of-ne-dash (c ∷ s) (suc n) h = char_of-ne-dash s n h.1

pub hex_digit-ne-dash : (n : ℕ) → eqb (code (hex_digit n)) b'-' ≡ false
unfolding hex_digit
hex_digit-ne-dash n = char_of-ne-dash "0123456789abcdef" n (
  refl,
  (
    refl,
    (
      refl,
      (
        refl,
        (
          refl,
          (
            refl,
            (refl, (refl, (refl, (refl, (refl, (refl, (refl, (refl, (refl, (refl, tt)))))))))),
          ),
        ),
      ),
    ),
  ),
)
