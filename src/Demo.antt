-- ===== src/Demo.antt =====
-- cmd/db-demo/main.go: two upserts of one seller, and what the program asserts of them. The pause
-- between them is in the database's clock; the deadline of the context is among its errors.
pub mod Asserts
mod Tests
use Prim.Native.String.{◌++◌}
use real_estate_robot.Base.{
  ℕ, suc, ◌+◌, String, str_eq, ◌==◌, ltb, Bool, true, false, not, Option, none, some, List, [], ◌∷◌,
  if◌then◌else◌,
}
use real_estate_robot.Base.Values.{Bytes, Time, Text, Error, Result, ok, err, no_rows}
use real_estate_robot.Storage.Rows.{Seller}
use real_estate_robot.Storage.Sellers.{
  UpsertSellerParams, upsert_seller, get_seller_by_olx_id, count_sellers,
}
use real_estate_robot.Storage.Sellers.Keys.{upserted}
use real_estate_robot.Runtime.Env.{Env, World, M, tick}
use real_estate_robot.Runtime.Actions.{query, statement}

-- How main ends: with an error of a call, with one of its BUG messages, or with the stored row.
pub data Exit : Type 0 where
  failed : String → Exit
  bug : String → Exit
  stored : Seller → Exit

-- textPtr and textVal
abbrev pub text_ptr : String → Text
text_ptr s = some s

unfoldable pub text_val : Text → String
text_val none = "<null>"
text_val (some s) = s

abbrev pub olx_id : String
olx_id = "demo-user-42"

-- if err != nil { … os.Exit(1) }, else the rest of main
unfoldable pub exit_on : {A : Type 0} → String → Result A × World → (A → World → Exit) → Exit
exit_on text (err e, w) rest = failed text
exit_on text (ok a, w) rest = rest a w

-- the assertions on the two rows
unfoldable pub check_rows : Seller → Seller → Option String
check_rows s1 s2 =
    if not (s1.id == s2.id)
    then some "upsert created a new row instead of updating"
    else if not (ltb s1.last_seen_at s2.last_seen_at)
    then some "last_seen_at did not advance on update"
    else if not (ltb s1.updated_at s2.updated_at)
    then some "updated_at trigger did not fire on update"
    else if not (s2.created_at == s1.created_at)
    then some "created_at changed on update — should be immutable"
    else none

-- the row that RETURNING gives of an upsert
abbrev pub returned : Time → ℕ → UpsertSellerParams → List Seller → Seller
returned now drawn p table = upserted now drawn p (get_seller_by_olx_id p.olx_user_id table)

-- the row of a query for one
abbrev pub row_of : Option Seller → Result Seller
row_of none = err no_rows
row_of (some s) = ok s

module _ (env : Env) (raw_json : String → Bytes) where
  abbrev pub first_params : UpsertSellerParams
  first_params = record {
    olx_user_id = olx_id;
    display_name = text_ptr "Олег П.";
    profile_url = text_ptr ("https://www.olx.ua/uk/user/" ++ olx_id);
    is_business = false;
    phone_hash = text_ptr "c2hhMjU2OmFiYzEyMw==";
    avatar_url = none;
    location = text_ptr "Київ, Подільський";
    registered_at = none;
    raw = raw_json "{\"source\":\"db-demo\",\"attempt\":1}";
  }

  abbrev pub second_params : UpsertSellerParams
  second_params = record first_params {
    display_name = text_ptr "Олег Партенич";
    avatar_url = text_ptr "https://...avatar.jpg";
    raw = raw_json "{\"source\":\"db-demo\",\"attempt\":2}";
  }

  unfoldable pub count : M ℕ
  count = query env (λ w. ok (count_sellers w.db.sellers))

  abbrev pub upsert_run : UpsertSellerParams → Time → World → Seller × World
  upsert_run p now w =
      let drawn = suc w.serials.seller in
      (
        returned now drawn p w.db.sellers,
        record w {
          db = record w.db { sellers = upsert_seller now drawn p w.db.sellers };
          serials = record w.serials { seller = drawn };
        },
      )

  unfoldable pub upsert : UpsertSellerParams → M Seller
  upsert p = statement env (upsert_run p)

  unfoldable pub read_back : M Seller
  read_back = query env (λ w. row_of (get_seller_by_olx_id olx_id w.db.sellers))

  -- from the last count on
  unfoldable pub recount : ℕ → World → Exit
  recount before w = exit_on "count after" (count w) (λ after v.
      if ltb (before + 1) after
      then bug "more than one new row created"
      else exit_on "get back" (read_back v) (λ got u. stored got))

  -- from the assertions on
  unfoldable pub checked : ℕ → Seller → Seller → World → Exit
  checked before s1 s2 w = elim (check_rows s1 s2) [
    | some text ↦ bug text
    | none ↦ recount before w
  ]

  unfoldable pub run : World → Exit
  run w0 = exit_on "count before" (count w0) (λ before w1.
      exit_on "upsert 1" (upsert first_params w1)
        (λ s1 w2. exit_on "upsert 2" (upsert second_params w2) (λ s2 w3. checked before s1 s2 w3)))

  -- main, from the variable DATABASE_URL and the error of Connect
  unfoldable pub main : String → Option Error → World → Exit
  main url connect w =
      if str_eq url ""
      then failed "DATABASE_URL is not set"
      else elim connect [ some e ↦ failed "connect" | none ↦ run w ]
