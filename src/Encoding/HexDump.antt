-- ===== src/Encoding/HexDump.antt =====
-- opcua_enc/hexdump.py: the check that the rows of a byte layout tile the payload.
pub mod Tiling
pub mod Tests
use opcua_drafts.Prelude.{
  ℕ, suc, ◌+◌, ◌-◌, ℤ, pos, negsuc, int_eq, int_add, String, Bool, true, false, List, [], ◌∷◌, ◌++◌,
  length, take, drop, eqb, Result, ok, err, value_error, if◌then◌else◌,
}

-- `Field`
pub record Row : Type 0 where
  pub offset : ℤ
  pub length_of : ℤ
  pub label : String

-- A bound of a slice; a negative one counts from the end.
abbrev pub bound : ℕ → ℤ → ℕ
bound size (pos n) = n
bound size (negsuc n) = size - suc n

-- payload[low:high]
abbrev pub slice : List ℕ → ℤ → ℤ → List ℕ
slice payload low high =
    take (bound (length payload) high - bound (length payload) low)
      (drop (bound (length payload) low) payload)

-- The chunk of a row in `hex_table`.
abbrev pub chunk : List ℕ → Row → List ℕ
chunk payload f = slice payload f.offset (int_add f.offset f.length_of)

abbrev pub chunks : List ℕ → List Row → List ℕ
chunks payload [] = []
chunks payload (f ∷ fs) = chunk payload f ++ chunks payload fs

-- The loop of `assert_contiguous` from a position on, and the test after it.
unfoldable pub contiguous : ℕ → List Row → ℕ → Result (Unit {0})
contiguous at [] total = if eqb at total then ok tt else err value_error
contiguous at (f ∷ fs) total = elim (int_eq f.offset (pos at)) [
  | false ↦ err value_error
  | true ↦ elim (f.length_of) [ negsuc n ↦ err value_error | pos n ↦ contiguous (at + n) fs total ]
]

-- `assert_contiguous`
unfoldable pub assert_contiguous : List Row → ℕ → Result (Unit {0})
assert_contiguous fields total = contiguous 0 fields total
