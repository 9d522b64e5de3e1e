-- ===== src/Text/Uuid.antt =====
-- Python's `str(uuid.UUID(bytes=bs))` and `uuid.UUID(text).bytes`.
use Prim.Native.String.{String, [], ◌∷◌}
use Prim.Native.Char.{code}
use opcua_drafts.Prelude.{
  ℕ, true, false, List, ◌≡◌, refl, Result, ok, err, value_error, ◌>>=◌, eqb, arith, if◌then◌else◌,
  All, length, take, drop, ◌++◌, take-append-drop, ap, ◌∙◌,
}
use opcua_drafts.Base64.RoundTrip.{IsByte}
use opcua_drafts.Text.{append}
use opcua_drafts.Text.Hex.{hex, unhex, hex_digit, hex_digit-ne-dash, unhex-hex}

-- The form 8-4-4-4-12.
unfoldable pub uuid_text : List ℕ → String
uuid_text bs =
    let r = drop 4 bs in
    let s = drop 2 r in
    let t = drop 2 s in
    append (hex (take 4 bs)) (
      "-"
      ∷ append (hex (take 2 r))
          ("-" ∷ append (hex (take 2 s)) ("-" ∷ append (hex (take 2 t)) ("-" ∷ hex (drop 2 t)))))

-- text.replace("-", "")
without_dashes : String → String
without_dashes [] = []
without_dashes (c ∷ s) =
    let rest = without_dashes s in elim (eqb (code c) b'-') [ true ↦ rest | false ↦ c ∷ rest ]

-- The prefixes and braces that `UUID` also accepts are outside the model.
unfoldable pub uuid_bytes : String → Result (List ℕ)
unfolding without_dashes
uuid_bytes s = do
  bs ← unhex (without_dashes s)
  if eqb (length bs) 16 then ok bs else err value_error

without_dashes-append :
    (s t : String) → without_dashes (append s t) ≡ append (without_dashes s) (without_dashes t)
unfolding without_dashes
without_dashes-append [] t = refl
without_dashes-append (c ∷ s) t = ground (arith, without_dashes-append s t)

hex_cons_dash :
    (n : ℕ) (s : String) → without_dashes (hex_digit n ∷ s) ≡ hex_digit n ∷ without_dashes s
unfolding without_dashes
hex_cons_dash n s = rw (hex_digit-ne-dash n, without_dashes)

without_dashes-hex : (bs : List ℕ) → without_dashes (hex bs) ≡ hex bs
unfolding hex
without_dashes-hex List.[] = unfold without_dashes in refl
without_dashes-hex (List.◌∷◌ b bs) = rw (hex_cons_dash, hex_cons_dash, without_dashes-hex bs)

without_dashes-part :
    (bs : List ℕ) (s : String)
    → without_dashes (append (hex bs) ("-" ∷ s)) ≡ append (hex bs) (without_dashes s)
without_dashes-part bs s =
    without_dashes-append (hex bs) ("-" ∷ s)
    ∙ rw (without_dashes-hex bs) (unfold without_dashes in refl)

hex-append : (bs cs : List ℕ) → append (hex bs) (hex cs) ≡ hex (bs ++ cs)
unfolding hex
hex-append List.[] cs = refl
hex-append (List.◌∷◌ b bs) cs = rw (hex-append bs cs)

without_dashes-uuid_text : (bs : List ℕ) → without_dashes (uuid_text bs) ≡ hex bs
unfolding uuid_text
without_dashes-uuid_text bs =
    simp (without_dashes-part, without_dashes-hex, hex-append, take-append-drop)

uuid_bytes-of_hex :
    (s : String) (bs : List ℕ)
    → without_dashes s ≡ hex bs
    → length bs ≡ 16
    → unhex (hex bs) ≡ ok bs
    → uuid_bytes s ≡ ok bs
unfolding uuid_bytes
uuid_bytes-of_hex s bs e l h = cc (ap unhex e)

-- A UUID is read back from its text, whatever its 16 bytes.
pub uuid_bytes-uuid_text :
    (bs : List ℕ) → length bs ≡ 16 → All IsByte bs → uuid_bytes (uuid_text bs) ≡ ok bs
uuid_bytes-uuid_text bs l h =
    uuid_bytes-of_hex (uuid_text bs) bs (without_dashes-uuid_text bs ∙ refl) l (unhex-hex bs h)
