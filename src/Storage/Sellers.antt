-- ===== src/Storage/Sellers.antt =====
-- The queries of internal/db/sqlc/sellers.sql.go, and LabelSeller of classifier.sql.go, on the
-- table sellers.
pub mod Keys
pub mod Replay
use real_estate_robot.Base.{
  ℕ, String, str_eq, ◌==◌, Bool, Option, none, some, List, [], ◌∷◌, find?, if◌then◌else◌, map,
  length,
}
use real_estate_robot.Base.Values.{Bytes, Time, Text, Timestamptz}
use real_estate_robot.Storage.Rows.{Seller}

pub record UpsertSellerParams : Type 0 where
  pub olx_user_id : String
  pub display_name : Text
  pub profile_url : Text
  pub is_business : Bool
  pub phone_hash : Text
  pub avatar_url : Text
  pub location : Text
  pub registered_at : Timestamptz
  pub raw : Bytes

-- COALESCE(a, b)
abbrev pub coalesce {ℓ} : {A : Type ℓ} → Option A → Option A → Option A
coalesce (some a) b = some a
coalesce none b = b

-- INSERT INTO sellers …, with the defaults of the other columns
abbrev pub inserted : Time → ℕ → UpsertSellerParams → Seller
inserted now id p = record {
  id = id;
  olx_user_id = p.olx_user_id;
  display_name = p.display_name;
  profile_url = p.profile_url;
  registered_at = p.registered_at;
  is_business = p.is_business;
  phone_hash = p.phone_hash;
  avatar_url = p.avatar_url;
  location = p.location;
  raw = p.raw;
  first_seen_at = now;
  last_seen_at = now;
  last_scraped_at = some now;
  created_at = now;
  updated_at = now;
  last_enriched_at = none;
  manual_label = none;
}

-- ON CONFLICT (olx_user_id) DO UPDATE SET …; updated_at is set by the table's trigger
abbrev pub updated : Time → UpsertSellerParams → Seller → Seller
updated now p s = record s {
  display_name = p.display_name;
  profile_url = p.profile_url;
  is_business = p.is_business;
  phone_hash = p.phone_hash;
  avatar_url = p.avatar_url;
  location = p.location;
  registered_at = coalesce s.registered_at p.registered_at;
  raw = p.raw;
  last_seen_at = now;
  last_scraped_at = some now;
  updated_at = now;
}

-- the table after the statement
unfoldable pub upsert_seller : Time → ℕ → UpsertSellerParams → List Seller → List Seller
upsert_seller now id p [] = inserted now id p ∷ []
upsert_seller now id p (s ∷ rest) =
    if str_eq s.olx_user_id p.olx_user_id
    then updated now p s ∷ rest
    else s ∷ upsert_seller now id p rest

-- WHERE olx_user_id = $1; with the table above, this is also the row that RETURNING gives
unfoldable pub get_seller_by_olx_id : String → List Seller → Option Seller
get_seller_by_olx_id olx_user_id table = find? (λ s. str_eq s.olx_user_id olx_user_id) table

-- UPDATE sellers SET last_enriched_at = NOW() WHERE id = $1
unfoldable pub mark_seller_enriched : Time → ℕ → List Seller → List Seller
mark_seller_enriched now id [] = []
mark_seller_enriched now id (s ∷ rest) =
    (if s.id == id then record s { last_enriched_at = some now; updated_at = now } else s)
    ∷ mark_seller_enriched now id rest

-- NULLIF(t, '')
abbrev pub null_if_empty : String → Text
null_if_empty t = if str_eq t "" then none else some t

-- UPDATE sellers SET manual_label = NULLIF($1, ''), updated_at = NOW() WHERE olx_user_id = $2
unfoldable pub label_seller : Time → String → String → List Seller → List Seller
label_seller now label olx_user_id [] = []
label_seller now label olx_user_id (s ∷ rest) =
    (if str_eq s.olx_user_id olx_user_id
      then record s { manual_label = null_if_empty label; updated_at = now }
      else s)
    ∷ label_seller now label olx_user_id rest

-- SELECT COUNT(*) FROM sellers
unfoldable pub count_sellers : List Seller → ℕ
count_sellers table = length table
