-- ===== src/Storage/Sellers/Keys.antt =====
-- The table sellers as a map from olx_user_id, and what UpsertSeller keeps of a row.
use real_estate_robot.Base.{
  ℕ, String, str_eq, ◌≡◌, ◌≢◌, Option, none, some, List, [], ◌∷◌, map, if◌then◌else◌, arith, All,
  eq_iff, Bool-cases, inl, inr,
}
use real_estate_robot.Base.Values.{Time}
use real_estate_robot.Storage.Rows.{Seller}
use real_estate_robot.Storage.Sellers.{
  UpsertSellerParams, inserted, updated, upsert_seller, get_seller_by_olx_id,
}

-- What an upsert leaves under its own key.
abbrev pub upserted : Time → ℕ → UpsertSellerParams → Option Seller → Seller
upserted now id p none = inserted now id p
upserted now id p (some s) = updated now p s

-- After UpsertSeller, looking up its olx_user_id gives the updated row, or the inserted one where
-- there was none; any other olx_user_id gives the row that it gave before.
pub get_seller-upsert :
    (now : Time) (id : ℕ) (p : UpsertSellerParams) (key : String) (table : List Seller)
    → get_seller_by_olx_id key (upsert_seller now id p table) ≡ (
        if str_eq p.olx_user_id key
        then some (upserted now id p (get_seller_by_olx_id p.olx_user_id table))
        else get_seller_by_olx_id key table)
unfolding get_seller_by_olx_id upsert_seller
get_seller-upsert now id p key [] = ground arith
get_seller-upsert now id p key (s ∷ rest) = ground (
  arith,
  get_seller-upsert now id p key rest,
  eq_iff s.olx_user_id p.olx_user_id,
  eq_iff s.olx_user_id key,
  eq_iff p.olx_user_id key,
)

-- No row of the table has this key, or this number.
abbrev pub IsAbsent : String → List Seller → Type 0
IsAbsent key table = All (λ s. s.olx_user_id ≢ key) table

-- olx_user_id is UNIQUE.
abbrev pub IsKeyed : List Seller → Type 0
IsKeyed [] = Unit
IsKeyed (s ∷ rest) = IsAbsent s.olx_user_id rest × IsKeyed rest

IsAbsent-upsert :
    (now : Time) (id : ℕ) (p : UpsertSellerParams) (key : String) (table : List Seller)
    → p.olx_user_id ≢ key
    → IsAbsent key table
    → IsAbsent key (upsert_seller now id p table)
unfolding upsert_seller
IsAbsent-upsert now id p key [] n h = (n, tt)
IsAbsent-upsert now id p key (s ∷ rest) n h =
    ground (arith, IsAbsent-upsert now id p key rest n h.1)

-- UpsertSeller keeps olx_user_id unique.
pub upsert_seller-IsKeyed :
    (now : Time) (id : ℕ) (p : UpsertSellerParams) (table : List Seller)
    → IsKeyed table
    → IsKeyed (upsert_seller now id p table)
unfolding upsert_seller
upsert_seller-IsKeyed now id p [] h = (tt, tt)
upsert_seller-IsKeyed now id p (s ∷ rest) h =
    elim (Bool-cases (str_eq s.olx_user_id p.olx_user_id)) [
      | inl same ↦ rw same h
      | inr other ↦ rw other (
        IsAbsent-upsert now id p s.olx_user_id rest
            (λ e. ground (arith, eq_iff s.olx_user_id p.olx_user_id)) h.0,
        upsert_seller-IsKeyed now id p rest h.1,
      )
    ]

-- The numbers and keys of the rows, in order.
abbrev pub identities : List Seller → List (ℕ × String)
identities table = map (λ s. (s.id, s.olx_user_id)) table

pub identities-upsert :
    (now : Time) (id : ℕ) (p : UpsertSellerParams) (s : Seller) (table : List Seller)
    → get_seller_by_olx_id p.olx_user_id table ≡ some s
    → identities (upsert_seller now id p table) ≡ identities table
unfolding get_seller_by_olx_id upsert_seller
identities-upsert now id p s [] h = cc
identities-upsert now id p s (r ∷ rest) h = ground (arith, identities-upsert now id p s rest)
