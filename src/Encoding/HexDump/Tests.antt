-- ===== src/Encoding/HexDump/Tests.antt =====
-- A layout of three bytes, and the witness of the theorem.
use opcua_drafts.Prelude.{ℕ, pos, List, [], ◌∷◌, err, value_error, ◌≡◌, refl}
use opcua_drafts.Encoding.HexDump.{Row, chunks, contiguous, assert_contiguous}
use opcua_drafts.Encoding.HexDump.Tiling.{Exact, assert_contiguous_lem}

abbrev row_of : ℕ → ℕ → Row
row_of o n = record { offset = pos o; length_of = pos n; label = "field" }

abbrev layout : List Row
layout = row_of 0 2 ∷ row_of 2 1 ∷ []

gap_refused : assert_contiguous (row_of 0 1 ∷ row_of 2 1 ∷ []) 3 ≡ err value_error
unfolding assert_contiguous contiguous
gap_refused = refl

assert_contiguous_lem_example :
    (chunks (7 ∷ 8 ∷ 9 ∷ []) layout ≡ 7 ∷ 8 ∷ 9 ∷ []) × Exact (7 ∷ 8 ∷ 9 ∷ []) layout
unfolding assert_contiguous contiguous
assert_contiguous_lem_example = assert_contiguous_lem (7 ∷ 8 ∷ 9 ∷ []) layout tt refl
