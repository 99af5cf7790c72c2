-- ===== src/Classify/Tests.antt =====
-- The ranking's theorem at a table of one seller.
use real_estate_robot.Base.{refl, true, false, none, some, [], ◌∷◌, arith}
use real_estate_robot.Base.Int.{pos}
use real_estate_robot.Storage.Rows.{Seller}
use real_estate_robot.Storage.Sellers.{inserted}
use real_estate_robot.Runtime.Env.{World, start}
use real_estate_robot.Runtime.Samples.{all_well}
use real_estate_robot.Classification.Score.{Calendar}
use real_estate_robot.Classify.{Flags, Printing, main}
use real_estate_robot.Classify.Ranks.{Answers, main-Answers}

abbrev calendar : Calendar
calendar = record { two_years_before = λ t. 100; six_months_before = λ t. 400 }

abbrev printing : Printing
printing = record {
  itoa = λ n. "7";
  runes = λ s. 79 ∷ 108 ∷ [];
  of_runes = λ l. "Ol";
  float_of = λ n. none;
  format_float = λ n f. "0.50";
  since = λ now t. pos 0;
  whole_days = λ d. pos 7;
}

abbrev seller : Seller
seller = inserted 10 1 (record {
  olx_user_id = "u1";
  display_name = some "Olena";
  profile_url = none;
  is_business = false;
  phone_hash = none;
  avatar_url = none;
  location = none;
  registered_at = some 7;
  raw = [];
})

abbrev with_seller : World
with_seller = record start { db = record start.db { sellers = seller ∷ [] } }

abbrev flags : Flags
flags = record { limit = pos 20; min_listings = pos 0; refresh = true }

main-Answers_example :
    Answers all_well calendar printing "postgres://db" none flags 20 with_seller
      (main all_well calendar printing "postgres://db" none flags with_seller)
main-Answers_example =
    main-Answers all_well calendar printing "postgres://db" none flags 20 with_seller refl
      (omega arith)
