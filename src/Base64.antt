-- ===== src/Base64.antt =====
-- The part of Python's `base64` module that the codecs call: `b64encode(data).decode("ascii")` and
-- `b64decode(text.encode("ascii"))`. The decoder follows RFC 4648; a text that is not the
-- encoding of some bytes with canonical padding is `outside` the model, since Python skips
-- characters that are not in the alphabet.
pub mod RoundTrip
use opcua_drafts.Prelude.{
  ℕ, zero, suc, ◌+◌, ◌*◌, ◌/◌, ◌%◌, String, Char, code, Option, none, some, List, [], ◌∷◌, ◌≡◌,
  refl, eqb, if◌then◌else◌, true, false, Result, ok, err, outside, ◌>>=◌, from_option,
}

abbrev pub alphabet : String
alphabet = "ABCDEFGHIJKLMNOPQRSTUVWXYZabcdefghijklmnopqrstuvwxyz0123456789+/"

abbrev pub pad : Char
pad = "="

-- alphabet[n], with the padding character past the end
pub char_at : String → ℕ → Char
char_at String.[] n = pad
char_at (String.◌∷◌ c s) zero = c
char_at (String.◌∷◌ c s) (suc n) = char_at s n

-- alphabet.index(c)
pub index_of : String → Char → Option ℕ
index_of String.[] d = none
index_of (String.◌∷◌ c s) d =
    let rest = index_of s d in
    elim (eqb (code c) (code d)) [
      | true ↦ some zero
      | false ↦ elim rest [ none ↦ none | some n ↦ some (suc n) ]
    ]

abbrev pub digit : ℕ → Char
digit n = char_at alphabet n

abbrev pub value : Char → Option ℕ
value c = index_of alphabet c

unfoldable pub b64encode : List ℕ → String
b64encode [] = String.[]
b64encode (a ∷ []) =
    String.◌∷◌ (digit (a / 4))
      (String.◌∷◌ (digit (a % 4 * 16)) (String.◌∷◌ pad (String.◌∷◌ pad String.[])))
b64encode (a ∷ b ∷ []) = String.◌∷◌ (digit (a / 4)) (
    String.◌∷◌ (digit (a % 4 * 16 + b / 16))
      (String.◌∷◌ (digit (b % 16 * 4)) (String.◌∷◌ pad String.[])))
b64encode (a ∷ b ∷ c ∷ r) = String.◌∷◌ (digit (a / 4)) (
    String.◌∷◌ (digit (a % 4 * 16 + b / 16))
      (String.◌∷◌ (digit (b % 16 * 4 + c / 64)) (String.◌∷◌ (digit (c % 64)) (b64encode r))))

-- One group of four characters, before the bytes of the groups behind it.
pub group : Char → Char → Char → Char → Result (List ℕ) → Result (List ℕ)
group p q r s rest = do
  x ← from_option outside (value p)
  y ← from_option outside (value q)
  elim (value r) [
    | none ↦ ok ((x * 4 + y / 16) ∷ [])
    | some z ↦ elim (value s) [
      | none ↦ ok ((x * 4 + y / 16) ∷ (y % 16 * 16 + z / 4) ∷ [])
      | some w ↦ do
        tail ← rest
        ok ((x * 4 + y / 16) ∷ (y % 16 * 16 + z / 4) ∷ (z % 4 * 64 + w) ∷ tail)
    ]
  ]

unfoldable pub b64decode : String → Result (List ℕ)
unfolding group
b64decode String.[] = ok []
b64decode (String.◌∷◌ p (String.◌∷◌ q (String.◌∷◌ r (String.◌∷◌ s rest)))) =
    group p q r s (b64decode rest)
b64decode _ = err outside

hello : b64encode (104 ∷ 101 ∷ 108 ∷ 108 ∷ 111 ∷ []) ≡ "aGVsbG8="
unfolding b64encode char_at
hello = refl

hello_back : b64decode "aGVsbG8=" ≡ ok (104 ∷ 101 ∷ 108 ∷ 108 ∷ 111 ∷ [])
unfolding b64decode index_of
hello_back = refl
