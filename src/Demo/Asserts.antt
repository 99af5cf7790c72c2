-- ===== src/Demo/Asserts.antt =====
-- What the database demonstration shows: its assertions hold of the model's tables.
use real_estate_robot.Base.{
  ℕ, suc, ◌+◌, ◌<◌, ◌≤◌, String, str_eq, ltb, ◌≡◌, refl, sym, ap, ◌∙◌, inl, inr, false, Bool-cases,
  Option, none, some, List, [], ◌∷◌, arith, eq_iff, eq_refl, ==_iff, subst,
}
use real_estate_robot.Base.Values.{Bytes, Time, Error, Result, ok, err}
use real_estate_robot.Storage.Rows.{Seller}
use real_estate_robot.Storage.Sellers.{
  UpsertSellerParams, updated, upsert_seller, get_seller_by_olx_id, count_sellers,
}
use real_estate_robot.Storage.Sellers.Keys.{upserted, get_seller-upsert}
use real_estate_robot.Runtime.Env.{Env, World, tick}
use real_estate_robot.Runtime.Actions.{query_ok, statement_ok}
use real_estate_robot.Demo.{
  Exit, failed, stored, olx_id, exit_on, check_rows, returned, first_params, second_params, count,
  upsert_run, upsert, row_of, read_back, recount, checked, run, main,
}

-- How main may end: with an error of a call, or with the row that the second upsert wrote.
pub data Ends : Exit → Type 0 where
  by_error : (text : String) → Ends (failed text)
  by_row :
      (s : Seller)
      → s.olx_user_id ≡ olx_id
      → s.display_name ≡ some "Олег Партенич"
      → Ends (stored s)

exit_on-Ends :
    {A : Type 0} (text : String) (r : Result A × World) (rest : A → World → Exit)
    → ((a : A) (v : World) → r ≡ (ok a, v) → Ends (rest a v))
    → Ends (exit_on text r rest)
unfolding exit_on
exit_on-Ends text (err e, w) rest h = by_error text
exit_on-Ends text (ok a, w) rest h = h a w refl

count-upsert :
    (now : Time) (id : ℕ) (p : UpsertSellerParams) (table : List Seller)
    → count_sellers (upsert_seller now id p table)
      ≡ elim (get_seller_by_olx_id p.olx_user_id table) [
        | none ↦ suc (count_sellers table)
        | some s ↦ count_sellers table
      ]
unfolding count_sellers upsert_seller get_seller_by_olx_id
count-upsert now id p [] = refl
count-upsert now id p (s ∷ rest) = ground (arith, count-upsert now id p rest)

get-upsert :
    (now : Time) (id : ℕ) (p : UpsertSellerParams) (table : List Seller)
    → get_seller_by_olx_id p.olx_user_id (upsert_seller now id p table)
      ≡ some (returned now id p table)
get-upsert now id p table =
    ground (arith, get_seller-upsert now id p p.olx_user_id table, eq_refl p.olx_user_id)

row_of_ok : (o : Option Seller) (s : Seller) → row_of o ≡ ok s → o ≡ some s
row_of_ok none s h = ground arith
row_of_ok (some r) s h = ground arith

upserted_now :
    (now : Time) (m : ℕ) (p : UpsertSellerParams) (o : Option Seller)
    → ((upserted now m p o).last_seen_at ≡ now) × ((upserted now m p o).updated_at ≡ now)
upserted_now now m p none = (refl, refl)
upserted_now now m p (some s) = (refl, refl)

check_rows-updated :
    (later : Time) (q : UpsertSellerParams) (s : Seller)
    → s.last_seen_at < later
    → s.updated_at < later
    → check_rows s (updated later q s) ≡ none
unfolding check_rows
check_rows-updated later q s h k =
    ground (arith, ==_iff s.id s.id, ==_iff s.created_at s.created_at)

get-upsert_again :
    (now : Time) (m : ℕ) (p q : UpsertSellerParams) (table : List Seller)
    → p.olx_user_id ≡ q.olx_user_id
    → get_seller_by_olx_id q.olx_user_id (upsert_seller now m p table)
      ≡ some (returned now m p table)
get-upsert_again now m p q table e =
    ap (λ k. get_seller_by_olx_id k (upsert_seller now m p table)) (sym e)
    ∙ get-upsert now m p table

-- The second upsert of a row keeps its number and its creation time and moves its other times on.
check_rows-returned :
    (now later : Time) (m n : ℕ) (p q : UpsertSellerParams) (table : List Seller)
    → now < later
    → p.olx_user_id ≡ q.olx_user_id
    → check_rows (returned now m p table) (returned later n q (upsert_seller now m p table)) ≡ none
check_rows-returned now later m n p q table h e =
    let times : (_ ≡ now) × (_ ≡ now) =
      upserted_now now m p (get_seller_by_olx_id p.olx_user_id table) in
    ap (λ o. check_rows (returned now m p table) (upserted later n q o))
      (get-upsert_again now m p q table e)
    ∙ check_rows-updated later q (returned now m p table) (subst (λ t. t < later) (sym times.0) h)
        (subst (λ t. t < later) (sym times.1) h)

-- Two upserts of one key add one row at most.
count-upsert_twice :
    (now later : Time) (m n : ℕ) (p q : UpsertSellerParams) (table : List Seller)
    → p.olx_user_id ≡ q.olx_user_id
    → count_sellers (upsert_seller later n q (upsert_seller now m p table))
      ≤ suc (count_sellers table)
count-upsert_twice now later m n p q table e = ground (
  arith,
  count-upsert later n q (upsert_seller now m p table),
  get-upsert_again now m p q table e,
  count-upsert now m p table,
)

upserted-display_name :
    (now : Time) (n : ℕ) (p : UpsertSellerParams) (o : Option Seller)
    → (upserted now n p o).display_name ≡ p.display_name
upserted-display_name now n p none = refl
upserted-display_name now n p (some s) = refl

get_seller_key :
    (key : String) (table : List Seller) (s : Seller)
    → get_seller_by_olx_id key table ≡ some s
    → s.olx_user_id ≡ key
unfolding get_seller_by_olx_id
get_seller_key key [] s h = ground arith
get_seller_key key (r ∷ rest) s h =
    ground (arith, get_seller_key key rest s, eq_iff r.olx_user_id key)

module _ (env : Env) (raw_json : String → Bytes) where
  count_ok :
      (w v : World) (n : ℕ)
      → count env raw_json w ≡ (ok n, v)
      → (n ≡ count_sellers w.db.sellers) × (v ≡ tick w)
  unfolding count
  count_ok w v n h =
      let found : _ × _ = query_ok env (λ u. ok (count_sellers u.db.sellers)) w v n h in
      (ground (arith, found.0), found.1)

  read_back_ok :
      (w v : World) (s : Seller)
      → read_back env raw_json w ≡ (ok s, v)
      → get_seller_by_olx_id olx_id w.db.sellers ≡ some s
  unfolding read_back
  read_back_ok w v s h =
      let found : _ × _ =
        query_ok env (λ u. row_of (get_seller_by_olx_id olx_id u.db.sellers)) w v s h in
      row_of_ok (get_seller_by_olx_id olx_id w.db.sellers) s found.0

  upsert_ok :
      (p : UpsertSellerParams) (w v : World) (s : Seller)
      → upsert env raw_json p w ≡ (ok s, v)
      → (s ≡ returned (env.db_clock w.ticks) (suc w.serials.seller) p w.db.sellers)
        × (v.db.sellers
            ≡ upsert_seller (env.db_clock w.ticks) (suc w.serials.seller) p w.db.sellers)
        × (v.ticks ≡ suc w.ticks)
  unfolding upsert
  upsert_ok p w v s h =
      let found : _ × _ = statement_ok env (upsert_run env raw_json p) w s (ap (λ k. k.0) h) in
      let after : _ ≡ v = ap (λ k. k.1) h in
      (
        found.0,
        ap (λ u. u.db.sellers) (sym after ∙ found.1),
        ap (λ u. u.ticks) (sym after ∙ found.1),
      )

  recount-Ends :
      (before : ℕ) (w : World) (s : Seller)
      → count_sellers w.db.sellers ≤ suc before
      → get_seller_by_olx_id olx_id w.db.sellers ≡ some s
      → s.display_name ≡ some "Олег Партенич"
      → Ends (recount env raw_json before w)
  unfolding recount
  recount-Ends before w s h g d = exit_on-Ends _ _ _ (λ after v c.
      let counted : _ × _ = count_ok w v after c in
      let few : ltb (before + 1) after ≡ false = ground (arith, counted.0) in
      rw few (
        exit_on-Ends _ _ _ (λ got u b.
          let same : got ≡ s =
            ground (arith, read_back_ok v u got b, ap (λ x. x.db.sellers) counted.1) in
          by_row got (get_seller_key olx_id v.db.sellers got (read_back_ok v u got b))
            (ap (λ r. r.display_name) same ∙ d))))

  checked-Ends :
      (before : ℕ) (s1 s2 : Seller) (w : World)
      → check_rows s1 s2 ≡ none
      → Ends (recount env raw_json before w)
      → Ends (checked env raw_json before s1 s2 w)
  unfolding checked
  checked-Ends before s1 s2 w h k = rw (h, checked) k

  -- Both upserts from a table, and what comes after them.
  twice-Ends :
      (w1 w2 w3 : World) (s1 s2 : Seller)
      → env.db_clock w1.ticks < env.db_clock (suc w1.ticks)
      → upsert env raw_json (first_params env raw_json) w1 ≡ (ok s1, w2)
      → upsert env raw_json (second_params env raw_json) w2 ≡ (ok s2, w3)
      → Ends (checked env raw_json (count_sellers w1.db.sellers) s1 s2 w3)
  twice-Ends w1 w2 w3 s1 s2 h a b =
      let first : _ × _ × _ = upsert_ok (first_params env raw_json) w1 w2 s1 a in
      let second : _ × _ × _ = upsert_ok (second_params env raw_json) w2 w3 s2 b in
      let later : env.db_clock w1.ticks < env.db_clock w2.ticks =
        subst (λ k. env.db_clock w1.ticks < env.db_clock k) (sym first.2) h in
      let rows : check_rows s1 s2 ≡ none =
        rw (first.0, second.0, first.1)
          (check_rows-returned _ _ _ _ (first_params env raw_json) (second_params env raw_json)
            w1.db.sellers later refl) in
      let few : count_sellers w3.db.sellers ≤ suc (count_sellers w1.db.sellers) =
        rw (second.1, first.1)
          (count-upsert_twice _ _ _ _ (first_params env raw_json) (second_params env raw_json)
            w1.db.sellers refl) in
      let got : get_seller_by_olx_id olx_id w3.db.sellers ≡ some s2 =
        rw (second.1, second.0) (get-upsert _ _ (second_params env raw_json) w2.db.sellers) in
      checked-Ends _ s1 s2 w3 rows (
        recount-Ends _ w3 s2 few got
          (rw second.0 (upserted-display_name _ _ (second_params env raw_json) _)))

  run-Ends :
      (w : World)
      → env.db_clock (suc w.ticks) < env.db_clock (suc (suc w.ticks))
      → Ends (run env raw_json w)
  unfolding run
  run-Ends w h = exit_on-Ends _ _ _ (λ before w1 c.
      let counted : _ × _ = count_ok w w1 before c in
      exit_on-Ends _ _ _ (λ s1 w2 a. exit_on-Ends _ _ _ (λ s2 w3 b.
        subst (λ n. Ends (checked env raw_json n s1 s2 w3))
          (ap (λ u. count_sellers u.db.sellers) counted.1 ∙ sym counted.0)
          (twice-Ends w1 w2 w3 s1 s2
            (subst (λ u. env.db_clock u.ticks < env.db_clock (suc u.ticks)) (sym counted.1) h) a
            b))))

  connected :
      (connect : Option Error) (w : World)
      → env.db_clock (suc w.ticks) < env.db_clock (suc (suc w.ticks))
      → Ends (elim connect [ some e ↦ failed "connect" | none ↦ run env raw_json w ])
  connected none w h = run-Ends w h
  connected (some e) w h = by_error _

  -- Where the database's clock moves on between the two upserts, main never ends in one of its BUG
  -- messages, whatever the table holds and whichever calls fail: it ends with an error of a call,
  -- or with the row of its seller under the name that the second upsert gave it.
  pub main-Ends :
      (url : String) (connect : Option Error) (w : World)
      → env.db_clock (suc w.ticks) < env.db_clock (suc (suc w.ticks))
      → Ends (main env raw_json url connect w)
  unfolding main
  main-Ends url connect w h = elim (Bool-cases (str_eq url "")) [
    | inl u ↦ rw (u, main) (by_error _)
    | inr u ↦ rw (u, main) (connected connect w h)
  ]
