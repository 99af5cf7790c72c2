-- ===== src/Parser/State.antt =====
-- extractPrerenderedState of internal/parser/parser.go: the walk over the page's bytes to the
-- literal that holds the state.
pub mod Literals
use real_estate_robot.Base.{
  ℕ, zero, suc, ◌+◌, ◌-◌, ◌==◌, Bool, true, false, ◌&&◌, Option, none, some, List, [], ◌∷◌, take,
  drop, if◌then◌else◌,
}
use real_estate_robot.Base.Values.{Bytes, Error, Result, ok, err, message, wrap}

abbrev pub quote : ℕ
quote = 34

abbrev pub backslash : ℕ
backslash = 92

-- `__PRERENDERED_STATE__`
abbrev pub marker : Bytes
marker =
    95 ∷ 95 ∷ 80 ∷ 82 ∷ 69 ∷ 82 ∷ 69 ∷ 78 ∷ 68 ∷ 69 ∷ 82 ∷ 69 ∷ 68 ∷ 95 ∷ 83 ∷ 84 ∷ 65 ∷ 84 ∷ 69
    ∷ 95 ∷ 95 ∷ []

unfoldable pub has_prefix : Bytes → Bytes → Bool
has_prefix [] html = true
has_prefix (c ∷ cs) [] = false
has_prefix (c ∷ cs) (d ∷ ds) = c == d && has_prefix cs ds

abbrev pub one_more : Option ℕ → Option ℕ
one_more none = none
one_more (some n) = some (suc n)

-- bytes.Index(html, sep), for a sep that is not empty
unfoldable pub index : Bytes → Bytes → Option ℕ
index sep [] = none
index sep (c ∷ rest) = if has_prefix sep (c ∷ rest) then some 0 else one_more (index sep rest)

-- bytes.IndexByte(b, c)
unfoldable pub index_byte : ℕ → Bytes → Option ℕ
index_byte c [] = none
index_byte c (d ∷ rest) = if d == c then some 0 else one_more (index_byte c rest)

-- The loop from index i on, over the bytes that stand there, up to the index of the closing quote.
-- `escaped` tells that the byte is the one behind a backslash, which `i += 2` steps over.
unfoldable pub walk : Bool → ℕ → Bytes → Option ℕ
walk escaped i [] = none
walk true i (c ∷ rest) = walk false (suc i) rest
walk false i (c ∷ rest) = elim (c == quote) [
  | true ↦ some i
  | false ↦ walk (c == backslash) (suc i) rest
]

-- html[from:to]
abbrev pub slice : ℕ → ℕ → Bytes → Bytes
slice from to html = take (to - from) (drop from html)

-- json.Unmarshal of a string literal, into the bytes of the string, is a parameter.
unfoldable pub extract_prerendered_state : (Bytes → Result Bytes) → Bytes → Result Bytes
extract_prerendered_state decode_string html = elim (index marker html) [
  | none ↦ err (message "__PRERENDERED_STATE__ not found")
  | some start ↦ elim (index_byte quote (drop start html)) [
    | none ↦ err (message "opening quote not found after __PRERENDERED_STATE__")
    | some rel ↦
        let quote_start = start + rel in
        elim (walk false (quote_start + 1) (drop (quote_start + 1) html)) [
          | none ↦ err (message "unterminated __PRERENDERED_STATE__ string literal")
          | some i ↦ elim (decode_string (slice quote_start (i + 1) html)) [
            | err e ↦ err (wrap "decode state string literal" e)
            | ok inner ↦ ok inner
          ]
        ]
  ]
]
