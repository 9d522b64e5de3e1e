-- ===== src/Encoding/HexDump/Tiling.antt =====
-- hexdump.py: `assert_contiguous` against the chunks of `hex_table`.
use opcua_drafts.Prelude.{
  ℕ, zero, suc, ◌+◌, ◌-◌, ◌≤◌, ℤ, pos, negsuc, int_eq, int_eq_iff, Bool, true, false, List, [], ◌∷◌,
  length, take, drop, eqb, Result, ok, err, value_error, if◌then◌else◌, All, ◌≡◌, refl, sym, ◌∙◌,
  ap, subst, arith, take-append-drop,
}
use opcua_drafts.Encoding.HexDump.{Row, chunk, chunks, contiguous, assert_contiguous}

drop-all : (xs : List ℕ) → drop (length xs) xs ≡ []
drop-all [] = refl
drop-all (x ∷ xs) = drop-all xs

zero_add : (b : ℕ) → 0 + b ≡ b
zero_add b = omega arith

suc_add : (a b : ℕ) → suc a + b ≡ suc (a + b)
suc_add a b = omega arith

drop-nil : (n : ℕ) → drop {A = ℕ} n [] ≡ []
drop-nil zero = refl
drop-nil (suc n) = refl

drop-drop : (a b : ℕ) (xs : List ℕ) → drop (a + b) xs ≡ drop b (drop a xs)
drop-drop zero b xs = ap (λ k. drop k xs) (zero_add b)
drop-drop (suc a) b [] = drop-nil (suc a + b) ∙ sym (drop-nil b)
drop-drop (suc a) b (x ∷ xs) = ap (λ k. drop k (x ∷ xs)) (suc_add a b) ∙ drop-drop a b xs

length-take : (n : ℕ) (xs : List ℕ) → n ≤ length xs → length (take n xs) ≡ n
length-take zero xs h = refl
length-take (suc n) [] h = omega (arith, h)
length-take (suc n) (x ∷ xs) h = omega (arith, length-take n xs (omega (arith, h)))

length-drop : (n : ℕ) (xs : List ℕ) → length (drop n xs) ≡ length xs - n
length-drop zero xs = omega arith
length-drop (suc n) [] = omega arith
length-drop (suc n) (x ∷ xs) = omega (arith, length-drop n xs)

tiles :
    (b : Bool) (l : ℤ) (g : ℕ → Result (Unit {0})) (u : Unit {0})
    → elim b [
      | false ↦ err value_error
      | true ↦ elim l [ negsuc n ↦ err value_error | pos n ↦ g n ]
    ]
      ≡ ok u
    → (n : ℕ) × (b ≡ true) × (l ≡ pos n) × (g n ≡ ok u)
tiles false l g u h = cc h
tiles true (pos n) g u h = (n, refl, refl, h)
tiles true (negsuc n) g u h = cc h

ends : (b : Bool) (u : Unit {0}) → (if b then ok tt else err value_error) ≡ ok u → b ≡ true
ends true u h = refl
ends false u h = cc h

at_end : (a b : ℕ) → eqb a b ≡ true → a ≡ b
at_end a b h = ground arith

-- The chunk of a row with natural bounds.
chunk-at :
    (payload : List ℕ) (f : Row) (at n : ℕ)
    → f.offset ≡ pos at
    → f.length_of ≡ pos n
    → chunk payload f ≡ take n (drop at payload)
chunk-at payload f at n h k = rw (h, k) (ap (λ j. take j (drop at payload)) (omega arith))

-- A run of the loop that succeeds stays within the total.
contiguous-total :
    (at : ℕ) (fs : List Row) (total : ℕ) (u : Unit {0}) → contiguous at fs total ≡ ok u → at ≤ total
unfolding contiguous
contiguous-total at [] total u h = ground (arith, ends (eqb at total) u h)
contiguous-total at (f ∷ fs) total u h =
    let s = tiles (int_eq f.offset (pos at)) f.length_of (λ n. contiguous (at + n) fs total) u h in
    omega (arith, contiguous-total (at + s.0) fs total u s.3)

-- Each row has as many bytes as it says.
abbrev pub Exact : List ℕ → List Row → Type 0
Exact payload fs = All (λ (f : Row). pos (length (chunk payload f)) ≡ f.length_of) fs

contiguous_lem :
    (payload : List ℕ) (at : ℕ) (fs : List Row) (u : Unit {0})
    → contiguous at fs (length payload) ≡ ok u
    → (chunks payload fs ≡ drop at payload) × Exact payload fs
unfolding contiguous
contiguous_lem payload at [] u h = (
  sym (drop-all payload)
      ∙ ap (λ k. drop k payload)
          (sym (at_end at (length payload) (ends (eqb at (length payload)) u h))),
  tt,
)
contiguous_lem payload at (f ∷ fs) u h =
    let s =
      tiles (int_eq f.offset (pos at)) f.length_of (λ n. contiguous (at + n) fs (length payload)) u
        h in
    let n = s.0 in
    let rest = contiguous_lem payload (at + n) fs u s.3 in
    let one = chunk-at payload f at n ((int_eq_iff f.offset (pos at)).0 s.1) s.2 in
    let room = contiguous-total (at + n) fs (length payload) u s.3 in
    (
      rw (one, rest.0, drop-drop at n payload) (take-append-drop n (drop at payload)),
      (
        subst (λ l. pos (length (chunk payload f)) ≡ l) (sym s.2)
            (ap pos (
              ap length one
              ∙ length-take n (drop at payload) (omega (arith, room, length-drop at payload)))),
        rest.1,
      ),
    )

-- If `assert_contiguous` accepts the rows for a payload, the chunks that `hex_table` shows are the
-- payload in order, and each has as many bytes as its row says.
pub assert_contiguous_lem :
    (payload : List ℕ) (fields : List Row) (u : Unit {0})
    → assert_contiguous fields (length payload) ≡ ok u
    → (chunks payload fields ≡ payload) × Exact payload fields
unfolding assert_contiguous
assert_contiguous_lem payload fields u h = contiguous_lem payload 0 fields u h
