-- ===== src/Parser/State/Literals.antt =====
-- The literal that the walk finds: it ends at the first quote that no backslash escapes.
use real_estate_robot.Base.{
  ℕ, zero, suc, ◌+◌, ◌-◌, ◌≡◌, ◌==◌, ==_iff, Bool-cases, inl, inr, ◌≢◌, refl, sym, subst, ◌∙◌, ap,
  true, false, none, some, [], ◌∷◌, ◌++◌, take, drop, length, arith, append_assoc, length-append,
}
use real_estate_robot.Base.Values.{Bytes, Result, wrap}
use real_estate_robot.Runtime.Env.{rewrap}
use real_estate_robot.Parser.State.{
  quote, backslash, marker, index, index_byte, walk, slice, extract_prerendered_state,
}

-- The inside of a literal: no quote but behind a backslash, and no backslash at the end that
-- escapes nothing.
pub data IsBody : Bytes → Type 0 where
  empty : IsBody []
  plain : {c : ℕ} {rest : Bytes} → c ≢ quote → c ≢ backslash → IsBody rest → IsBody (c ∷ rest)
  escaped : {c : ℕ} {rest : Bytes} → IsBody rest → IsBody (backslash ∷ c ∷ rest)

walk-IsBody :
    (i : ℕ) (body after : Bytes)
    → IsBody body
    → walk false i (body ++ quote ∷ after) ≡ some (i + length body)
unfolding walk
walk-IsBody i [] after empty = ap some (omega arith)
walk-IsBody i (c ∷ rest) after (plain q b h) = ground (arith, walk-IsBody (suc i) rest after h)
walk-IsBody i (c ∷ d ∷ rest) after (escaped h) =
    walk-IsBody (suc (suc i)) rest after h ∙ ap some (omega arith)

-- What the walk over the bytes from index i finds: the first quote behind a well-formed inside.
pub data Found (i : ℕ) (bytes : Bytes) (j : ℕ) : Type 0 where
  found :
      (body after : Bytes)
      → bytes ≡ body ++ quote ∷ after
      → IsBody body
      → j ≡ i + length body
      → Found i bytes j

Found-plain :
    (i : ℕ) (c : ℕ) (rest : Bytes) (j : ℕ)
    → c ≢ quote
    → c ≢ backslash
    → Found (suc i) rest j
    → Found i (c ∷ rest) j
Found-plain i c rest j q b (found body after e h at_end) =
    found (c ∷ body) after (ap (λ t. c ∷ t) e) (plain q b h) (omega arith)

Found-escaped :
    (i : ℕ) (c : ℕ) (rest : Bytes) (j : ℕ)
    → Found (suc (suc i)) rest j
    → Found i (backslash ∷ c ∷ rest) j
Found-escaped i c rest j (found body after e h at_end) =
    found (backslash ∷ c ∷ body) after (ap (λ t. backslash ∷ c ∷ t) e) (escaped h) (omega arith)

Found-first :
    (i : ℕ) (c : ℕ) (rest : Bytes) (j : ℕ)
    → walk false i (c ∷ rest) ≡ some j
    → (walk false (suc i) rest ≡ some j → Found (suc i) rest j)
    → (walk true (suc i) rest ≡ some j → Found i (backslash ∷ rest) j)
    → Found i (c ∷ rest) j
unfolding walk
Found-first i c rest j e next behind = elim (Bool-cases (c == quote)) [
  | inl closing ↦
      found [] rest (ap (λ t. t ∷ rest) (ground (arith, ==_iff c quote))) empty (ground arith)
  | inr inside ↦ elim (Bool-cases (c == backslash)) [
    | inr other ↦
        Found-plain i c rest j (λ x. ground (arith, ==_iff c quote))
          (λ x. ground (arith, ==_iff c backslash)) (next (ground arith))
    | inl escape ↦
        let same : backslash ≡ c = ground (arith, ==_iff c backslash) in
        subst (λ t. Found i (t ∷ rest) j) same (behind (ground arith))
  ]
]

-- Where the walk over the bytes behind an opening quote ends, the bytes up to there are a
-- well-formed inside, and a quote follows them: no other quote could have closed the literal.
pub walk-Found : (i : ℕ) (bytes : Bytes) (j : ℕ) → walk false i bytes ≡ some j → Found i bytes j
unfolding walk
walk-Found i [] j e = absurd (ground arith)
walk-Found i (c ∷ []) j e =
    Found-first i c [] j e (λ h. absurd (ground arith)) (λ h. absurd (ground arith))
walk-Found i (c ∷ d ∷ more) j e =
    Found-first i c (d ∷ more) j e (walk-Found (suc i) (d ∷ more) j)
      (λ h. Found-escaped i d more j (walk-Found (suc (suc i)) more j h))

index_byte-append :
    (c : ℕ) (xs ys : Bytes)
    → index_byte c xs ≡ none
    → index_byte c (xs ++ c ∷ ys) ≡ some (length xs)
unfolding index_byte
index_byte-append c [] ys h = ground arith
index_byte-append c (x ∷ xs) ys h = ground (arith, index_byte-append c xs ys)

drop-append : (n : ℕ) (xs ys : Bytes) → n ≡ length xs → drop n (xs ++ ys) ≡ ys
drop-append n [] ys e = rw e refl
drop-append zero (x ∷ xs) ys e = absurd (omega arith)
drop-append (suc n) (x ∷ xs) ys e = drop-append n xs ys (omega arith)

take-append : (n : ℕ) (xs ys : Bytes) → n ≡ length xs → take n (xs ++ ys) ≡ xs
take-append n [] ys e = rw e refl
take-append zero (x ∷ xs) ys e = absurd (omega arith)
take-append (suc n) (x ∷ xs) ys e = ap (λ t. x ∷ t) (take-append n xs ys (omega arith))

module _ (before gap body after : Bytes) where
  abbrev pub page : Bytes
  page = before ++ (gap ++ quote ∷ (body ++ quote ∷ after))

  abbrev pub literal : Bytes
  literal = quote ∷ (body ++ quote ∷ [])

  abbrev opening : ℕ
  opening = length before + length gap

  page-opened : page ≡ (before ++ gap) ++ quote ∷ (body ++ quote ∷ after)
  page-opened = sym (append_assoc before gap _)

  page-inside : page ≡ ((before ++ gap) ++ quote ∷ []) ++ (body ++ quote ∷ after)
  page-inside = page-opened ∙ sym (append_assoc (before ++ gap) (quote ∷ []) _)

  literal-after : quote ∷ (body ++ quote ∷ after) ≡ literal ++ after
  literal-after = ap (λ t. quote ∷ t) (sym (append_assoc body (quote ∷ []) after))

  inside : drop (opening + 1) page ≡ body ++ quote ∷ after
  inside =
      ap (drop (opening + 1)) page-inside
      ∙ drop-append (opening + 1) ((before ++ gap) ++ quote ∷ []) _
          (omega (arith, length-append (before ++ gap) (quote ∷ []), length-append before gap))

  slice-literal : slice opening (opening + 1 + length body + 1) page ≡ literal
  slice-literal =
      ap (λ t. take (opening + 1 + length body + 1 - opening) t)
        (ap (drop opening) page-opened
          ∙ drop-append opening (before ++ gap) _ (omega (arith, length-append before gap))
          ∙ literal-after)
      ∙ take-append _ literal after (omega (arith, length-append body (quote ∷ [])))

  -- Where the marker first stands behind `before`, no quote stands in `gap`, which follows, and a
  -- literal with a well-formed inside comes next, the state is what that literal decodes to: the
  -- walk ends at the literal's own closing quote, whatever is escaped inside and whatever follows.
  pub extract-literal :
      (decode_string : Bytes → Result Bytes)
      → index marker page ≡ some (length before)
      → index_byte quote gap ≡ none
      → IsBody body
      → extract_prerendered_state decode_string page
        ≡ rewrap (wrap "decode state string literal") (decode_string literal)
  unfolding extract_prerendered_state
  extract-literal decode_string marked clear h =
      let e2 : index_byte quote (drop (length before) page) ≡ some (length gap) =
        (ap (index_byte quote) (drop-append (length before) before _ refl)
          ∙ index_byte-append quote gap _ clear) in
      let e4 : walk false (opening + 1) (drop (opening + 1) page)
          ≡ some (opening + 1 + length body) =
        (ap (walk false (opening + 1)) inside ∙ walk-IsBody (opening + 1) body after h) in
      ground (arith, e2, e4, slice-literal)
