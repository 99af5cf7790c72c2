-- ===== src/Enrich/Cycle.antt =====
-- The cycle-prevention gate of the enricher: a visit stamps its seller, and a stamped seller is
-- left alone until its window has passed.
use real_estate_robot.Base.{
  ℕ, suc, ◌+◌, ◌<◌, ◌≤◌, String, ◌≡◌, ◌≢◌, sym, ◌∙◌, ap, false, Option, some, List, [], ◌∷◌, arith,
  eq_iff,
}
use real_estate_robot.Base.Int.{pos}
use real_estate_robot.Base.Clock.{max_duration, sub_time_lt_iff}
use real_estate_robot.Base.Values.{Bytes, Time, Result, ok}
use real_estate_robot.Storage.Rows.{Seller}
use real_estate_robot.Storage.Sellers.{get_seller_by_olx_id, mark_seller_enriched}
use real_estate_robot.Runtime.Env.{Env, World, tick, done}
use real_estate_robot.Enrich.{Task, Config, Json, is_fresh, enrich, look_up, handle}
use real_estate_robot.Enrich.Visits.{Visited, stamped, unanswered, unstamped}
use real_estate_robot.Enrich.Outcomes.{
  Enriched, refused_early, unknown, fresh, visited, handle-Enriched,
}

-- The row that a stamp leaves.
abbrev pub stamp : Time → Seller → Seller
stamp now s = record s { last_enriched_at = some now; updated_at = now }

get_seller-mark :
    (now : Time) (id : ℕ) (key : String) (table : List Seller) (s : Seller)
    → get_seller_by_olx_id key table ≡ some s
    → s.id ≡ id
    → get_seller_by_olx_id key (mark_seller_enriched now id table) ≡ some (stamp now s)
unfolding get_seller_by_olx_id mark_seller_enriched
get_seller-mark now id key [] s h e = cc
get_seller-mark now id key (r ∷ rest) s h e = ground (arith, get_seller-mark now id key rest s)

module _ (env : Env) (cfg : Config) (json : Json) where
  -- A run without an error whose lookup works and finds its seller outside the window leaves that
  -- seller's last_enriched_at and updated_at set to one time, and the rest of its row as it was.
  pub handle-stamp :
      (body : Bytes) (w : World) (task : Task) (s : Seller)
      → json.decode_task body ≡ ok task
      → get_seller_by_olx_id task.olx_user_id w.db.sellers ≡ some s
      → env.database w.ticks ≡ done
      → is_fresh env cfg json s.last_enriched_at (env.clock (suc w.ticks)) ≡ false
      → (handle env cfg json body w).0 ≡ ok tt
      → (now : Time) × (get_seller_by_olx_id task.olx_user_id
            (handle env cfg json body w).1.db.sellers
          ≡ some (stamp now s))
  handle-stamp body w task s decoded found d old fine =
      from_outcome (handle-Enriched env cfg json body w) fine
    where
      from_visit :
          (t : Task) (r : Seller) {after : Result (Unit {0}) × World} {page : Option String}
          → t ≡ task
          → r ≡ s
          → Visited env cfg json r.id page (tick w) after
          → after.0 ≡ ok tt
          → (now : Time) × (get_seller_by_olx_id task.olx_user_id after.1.db.sellers
              ≡ some (stamp now s))
      from_visit t r e e' (stamped now urls o m c p) f = (
        now,
        ap (get_seller_by_olx_id task.olx_user_id) m
            ∙ get_seller-mark now r.id task.olx_user_id w.db.sellers s found
                (ap (λ x. x.id) (sym e')),
      )
      from_visit t r e e' (unanswered x now urls o m c p) f = ground arith
      from_visit t r e e' (unstamped x urls o m c p) f = ground arith

      from_outcome :
          {after : Result (Unit {0}) × World}
          → Enriched env cfg json body w after
          → after.0 ≡ ok tt
          → (now : Time) × (get_seller_by_olx_id task.olx_user_id after.1.db.sellers
              ≡ some (stamp now s))
      from_outcome (refused_early e o s') f = ground arith
      from_outcome (unknown t e h q m a) f = ground arith
      from_outcome (fresh t r h g y a) f = ground arith
      from_outcome (visited t r h g y v) f = from_visit t r (ground arith) (ground arith) v f

  -- A run whose lookup works and finds its seller stamped less than the window ago, a window that fits
  -- a Duration, does nothing but that lookup and
  -- reports success: no request, no message, no change of the tables.
  pub handle-fresh :
      (body : Bytes) (w : World) (task : Task) (s : Seller) (stamped_at window : ℕ)
      → json.decode_task body ≡ ok task
      → task.olx_user_id ≢ ""
      → env.database w.ticks ≡ done
      → get_seller_by_olx_id task.olx_user_id w.db.sellers ≡ some s
      → s.last_enriched_at ≡ some stamped_at
      → cfg.freshness ≡ pos window
      → window ≤ max_duration
      → env.clock (suc w.ticks) < stamped_at + window
      → handle env cfg json body w ≡ (ok tt, tick w)
  unfolding handle look_up enrich is_fresh
  handle-fresh body w task s stamped_at window decoded named d found at size fits young = ground (
    arith,
    eq_iff task.olx_user_id "",
    sub_time_lt_iff (env.clock (suc w.ticks)) stamped_at window fits,
  )
