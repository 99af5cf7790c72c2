-- ===== src/Classification/Tests.antt =====
-- The classification's theorems at a concrete seller and a concrete view.
use real_estate_robot.Base.{String, false, none, some, List, [], ◌∷◌}
use real_estate_robot.Storage.Rows.{Seller}
use real_estate_robot.Storage.Sellers.{inserted}
use real_estate_robot.Classification.Score.{Calendar}
use real_estate_robot.Classification.Views.{ListingsWithClassification, classify}
use real_estate_robot.Classification.Views.Classes.{Scored, classify-Scored}

abbrev calendar : Calendar
calendar = record { two_years_before = λ t. 100; six_months_before = λ t. 400 }

abbrev seller : Seller
seller = inserted 10 1 (record {
  olx_user_id = "u1";
  display_name = some "Olena";
  profile_url = none;
  is_business = false;
  phone_hash = none;
  avatar_url = none;
  location = none;
  registered_at = some 7;
  raw = [];
})

classify-Scored_example : Scored seller (classify calendar 900 [] seller).real_seller_score
classify-Scored_example = classify-Scored calendar 900 [] seller

abbrev row : String → ListingsWithClassification
row city = record {
  listing_id = 1;
  olx_listing_id = "9";
  url = "https://www.olx.ua/d/9";
  title = none;
  price = none;
  currency = none;
  city = some city;
  district = none;
  posted_at = none;
  listing_last_seen = 10;
  seller_id = 1;
  olx_user_id = "u1";
  seller_name = none;
  is_business = false;
  seller_registered_at = none;
  seller_listings_active = 2;
  seller_districts_count = 1;
  real_seller_score = 80;
  property_type = none;
  deal_type = none;
  manual_label = none;
}

abbrev view : List ListingsWithClassification
view = row "Lviv" ∷ row "Kyiv" ∷ row "Lviv" ∷ row "" ∷ []
