-- ===== src/Queue/Headers/Counts.antt =====
-- What the attempt counter of internal/queue/consumer.go adds up.
use real_estate_robot.Base.{
  ℕ, ◌+◌, ◌<◌, String, str_eq, ◌≡◌, refl, true, false, Bool-cases, inl, inr, none, some, arith,
  if◌then◌else◌, List, [], ◌∷◌, ◌∙◌, ap,
}
use real_estate_robot.Base.Int.{pos, int_min, wrap64_of_lt}
use real_estate_robot.Queue.Headers.{
  Value, text, int64, table, array, Values, nil, cons, Table, end, field, lookup, is_rejected,
  add_count, add_entry, add_entries, count_of, x_death_count,
}

-- One (queue, reason, count) line of the x-death header, as the broker keeps it.
pub record Death : Type 0 where
  pub queue : String
  pub reason : String
  pub count : ℕ

abbrev pub entry : Death → Value
entry d = table (
    field "queue" (text d.queue)
      (field "reason" (text d.reason) (field "count" (int64 (pos d.count)) end)))

abbrev pub entries : List Death → Values
entries [] = nil
entries (d ∷ ds) = cons (entry d) (entries ds)

-- A table whose x-death header has these lines; the broker sets no header before the first hop.
abbrev pub Carries : Table → List Death → Type 0
Carries headers [] = lookup "x-death" headers ≡ none
Carries headers (d ∷ ds) = lookup "x-death" headers ≡ some (array (entries (d ∷ ds)))

-- The failures that the header tells of: the counts of its "rejected" lines.
abbrev pub rejections : List Death → ℕ
rejections [] = 0
rejections (d ∷ ds) = if str_eq d.reason "rejected" then d.count + rejections ds else rejections ds

add_entry-entry :
    (t : ℕ) (d : Death)
    → str_eq d.reason "rejected" ≡ true
    → t + d.count < int_min
    → add_entry (pos t) (entry d) ≡ pos (t + d.count)
unfolding add_entry lookup is_rejected add_count
add_entry-entry t d same h = ground (arith, wrap64_of_lt (t + d.count) h)

add_entry-other :
    (t : ℕ) (d : Death) → str_eq d.reason "rejected" ≡ false → add_entry (pos t) (entry d) ≡ pos t
unfolding add_entry lookup is_rejected
add_entry-other t d h = ground arith

add_entries-entries :
    (t : ℕ) (ds : List Death)
    → t + rejections ds < int_min
    → add_entries (pos t) (entries ds) ≡ pos (t + rejections ds)
unfolding add_entries
add_entries-entries t [] h = ap pos (omega arith)
add_entries-entries t (d ∷ ds) h = elim (Bool-cases (str_eq d.reason "rejected")) [
  | inl same ↦
      ap (λ s. add_entries s (entries ds)) (add_entry-entry t d same (ground arith))
      ∙ add_entries-entries (t + d.count) ds (ground arith)
      ∙ ap pos (ground arith)
  | inr other ↦
      ap (λ s. add_entries s (entries ds)) (add_entry-other t d other)
      ∙ add_entries-entries t ds (ground arith)
      ∙ ap pos (ground arith)
]

-- For headers that hold the lines `ds`, whose "rejected" counts sum to less than 2^63, the counter
-- is that sum: the "expired" hops through the retry queue add nothing.
pub x_death_count-eq-rejections :
    (headers : Table) (ds : List Death)
    → Carries headers ds
    → rejections ds < int_min
    → x_death_count headers ≡ pos (rejections ds)
unfolding x_death_count count_of
x_death_count-eq-rejections headers [] c h = rw c refl
x_death_count-eq-rejections headers (d ∷ ds) c h =
    rw c (add_entries-entries 0 (d ∷ ds) (omega arith) ∙ ap pos (omega arith))
