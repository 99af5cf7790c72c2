-- ===== src/Queue/Headers.antt =====
-- Delivery headers and the attempt counter of internal/queue/consumer.go.
pub mod Counts
use real_estate_robot.Base.{ℕ, String, str_eq, Bool, true, false, Option, none, some, if◌then◌else◌}
use real_estate_robot.Base.Int.{ℤ, pos, ◌+ℤ◌, wrap64}

-- amqp.Table and the values it may hold, as far as the program tells them apart.
mutual
  pub data Value : Type 0 where
    text : String → Value
    int64 : ℤ → Value
    int32 : ℤ → Value
    int : ℤ → Value
    table : Table → Value
    array : Values → Value
    other : Value

  pub data Values : Type 0 where
    nil : Values
    cons : Value → Values → Values

  pub data Table : Type 0 where
    end : Table
    field : String → Value → Table → Table

-- headers[key]
unfoldable pub lookup : String → Table → Option Value
lookup key end = none
lookup key (field k v rest) = if str_eq k key then some v else lookup key rest

-- reason, _ := entry["reason"].(string); reason != "rejected"
unfoldable pub is_rejected : Option Value → Bool
is_rejected (some (text reason)) = str_eq reason "rejected"
is_rejected _ = str_eq "" "rejected"

-- the type switch on entry["count"]
unfoldable pub add_count : ℤ → Option Value → ℤ
add_count total (some (int64 n)) = wrap64 (total +ℤ n)
add_count total (some (int32 n)) = wrap64 (total +ℤ n)
add_count total (some (int n)) = wrap64 (total +ℤ n)
add_count total _ = total

-- one round of the loop
unfoldable pub add_entry : ℤ → Value → ℤ
add_entry total (table entry) =
    if is_rejected (lookup "reason" entry) then add_count total (lookup "count" entry) else total
add_entry total _ = total

unfoldable pub add_entries : ℤ → Values → ℤ
add_entries total nil = total
add_entries total (cons e rest) = add_entries (add_entry total e) rest

-- raw, ok := headers["x-death"]; arr, ok := raw.([]interface{})
unfoldable pub count_of : Option Value → ℤ
count_of (some (array entries)) = add_entries (pos 0) entries
count_of _ = pos 0

unfoldable pub x_death_count : Table → ℤ
x_death_count headers = count_of (lookup "x-death" headers)
