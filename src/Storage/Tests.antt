-- ===== src/Storage/Tests.antt =====
-- The tables' theorems at concrete rows.
use real_estate_robot.Base.{String, ◌≡◌, none, some, List, [], ◌∷◌, false}
use real_estate_robot.Storage.Rows.{Seller}
use real_estate_robot.Storage.Sellers.{UpsertSellerParams, inserted}
use real_estate_robot.Storage.Sellers.Replay.{
  Statement, upserting, marking, labeling, execute_all, map_of, carry_out_all, execute_all-map_of,
}

abbrev seller_of : String → UpsertSellerParams
seller_of key = record {
  olx_user_id = key;
  display_name = some "Olena";
  profile_url = none;
  is_business = false;
  phone_hash = none;
  avatar_url = none;
  location = none;
  registered_at = some 7;
  raw = [];
}

abbrev sellers : List Seller
sellers = inserted 10 1 (seller_of "u1") ∷ inserted 11 2 (seller_of "u2") ∷ []

abbrev statements : List Statement
statements = upserting 20 3 (seller_of "u2") ∷ marking 21 1 ∷ labeling 22 "owner" "u1" ∷ []

execute_all-map_of_example :
    map_of (execute_all statements sellers) ≡ carry_out_all statements (map_of sellers)
execute_all-map_of_example = execute_all-map_of statements sellers
