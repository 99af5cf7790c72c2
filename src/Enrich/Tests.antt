-- ===== src/Enrich/Tests.antt =====
-- The enricher's theorems at concrete sellers.
use real_estate_robot.Base.{◌≡◌, refl, false, none, some, [], ◌∷◌, arith, eq_iff}
use real_estate_robot.Base.Int.{pos}
use real_estate_robot.Base.Values.{Time, ok}
use real_estate_robot.Storage.Rows.{Seller}
use real_estate_robot.Storage.Sellers.{inserted, get_seller_by_olx_id}
use real_estate_robot.Runtime.Env.{World, start}
use real_estate_robot.Runtime.Samples.{all_well, some_body}
use real_estate_robot.Queue.Publisher.{publish, publishing}
use real_estate_robot.Queue.Publisher.Batch.{publish_each}
use real_estate_robot.Enrich.{
  Task, Config, Json, is_fresh, handle, look_up, enrich, visit, fetch_profile, spread, mark,
  extract, collect, contains, is_listing_url, six_hours,
}
use real_estate_robot.Enrich.Outcomes.{Enriched, handle-Enriched}
use real_estate_robot.Enrich.Cycle.{stamp, handle-stamp}

abbrev config : Config
config = record { user_agent = "robot"; freshness = pos six_hours }

abbrev a_task : Task
a_task = record { olx_user_id = "u1" }

abbrev json : Json
json = record {
  decode_task = λ b. ok a_task;
  encode_fetch = λ u. some_body;
  links = λ n s. ok (some "https://www.olx.ua/d/1" ∷ some "/about" ∷ none ∷ []);
}

abbrev seller : Seller
seller = inserted 10 1 (record {
  olx_user_id = "u1";
  display_name = some "Olena";
  profile_url = some "https://www.olx.ua/uk/user/u1/";
  is_business = false;
  phone_hash = none;
  avatar_url = none;
  location = none;
  registered_at = some 7;
  raw = [];
})

abbrev with_seller : Seller → World
with_seller s = record start { db = record start.db { sellers = s ∷ [] } }

handle-Enriched_example :
    Enriched all_well config json some_body
      (with_seller seller)
      (handle all_well config json some_body (with_seller seller))
handle-Enriched_example = handle-Enriched all_well config json some_body (with_seller seller)

found : (s : Seller) → s.olx_user_id ≡ "u1" → get_seller_by_olx_id "u1" (s ∷ []) ≡ some s
unfolding get_seller_by_olx_id
found s e = ground (arith, eq_iff s.olx_user_id "u1")

never_visited : is_fresh all_well config json seller.last_enriched_at 1_001 ≡ false
unfolding is_fresh
never_visited = refl

visit_works : (handle all_well config json some_body (with_seller seller)).0 ≡ ok tt
unfolding handle look_up enrich get_seller_by_olx_id is_fresh visit fetch_profile extract collect
    contains is_listing_url spread publish_each publish publishing mark
visit_works = refl

handle-stamp_example :
    (now : Time) × (get_seller_by_olx_id a_task.olx_user_id
        (handle all_well config json some_body (with_seller seller)).1.db.sellers
      ≡ some (stamp now seller))
handle-stamp_example =
    handle-stamp all_well config json some_body (with_seller seller) a_task seller refl
      (found seller refl) refl never_visited visit_works
