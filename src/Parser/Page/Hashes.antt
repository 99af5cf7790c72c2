-- ===== src/Parser/Page/Hashes.antt =====
-- What sha256NewSum hashes: the parts cannot be confused.
use real_estate_robot.Base.{String, ◌≡◌, ◌≢◌, refl, sym, List, [], ◌∷◌, ◌++◌, map, All, arith}
use real_estate_robot.Base.Values.{Bytes}
use real_estate_robot.Parser.Page.{Reading, joined}

abbrev pub IsNulFree : Bytes → Type 0
IsNulFree bytes = All (λ c. c ≢ 0) bytes

cut :
    (xs ys us bs : Bytes)
    → IsNulFree xs
    → IsNulFree ys
    → xs ++ 0 ∷ us ≡ ys ++ 0 ∷ bs
    → (xs ≡ ys) × (us ≡ bs)
cut [] [] us bs hx hy e = (refl, ground arith)
cut [] (y ∷ ys) us bs hx hy e = absurd (ground arith)
cut (x ∷ xs) [] us bs hx hy e = absurd (ground arith)
cut (x ∷ xs) (y ∷ ys) us bs hx hy e =
    let (p, q) = cut xs ys us bs hx.1 hy.1 (ground arith) in (ground arith, q)

append_not_nil : (xs ys : Bytes) → xs ++ 0 ∷ ys ≢ []
append_not_nil [] ys e = ground arith
append_not_nil (x ∷ xs) ys e = ground arith

module _ (reading : Reading) where
  -- For texts without NUL bytes, the hashed bytes determine the bytes of each part: "ab" and "c"
  -- never meet "a" and "bc".
  pub joined-injective :
      (ps qs : List String)
      → All (λ p. IsNulFree (reading.bytes_of p)) ps
      → All (λ q. IsNulFree (reading.bytes_of q)) qs
      → joined reading ps ≡ joined reading qs
      → map reading.bytes_of ps ≡ map reading.bytes_of qs
  unfolding joined
  joined-injective [] [] hp hq e = refl
  joined-injective [] (q ∷ qs) hp hq e = absurd (append_not_nil (reading.bytes_of q) _ (sym e))
  joined-injective (p ∷ ps) [] hp hq e = absurd (append_not_nil (reading.bytes_of p) _ e)
  joined-injective (p ∷ ps) (q ∷ qs) hp hq e =
      let (same, rest) = cut (reading.bytes_of p) (reading.bytes_of q) _ _ hp.0 hq.0 e in
      ground (arith, same, joined-injective ps qs hp.1 hq.1 rest)
