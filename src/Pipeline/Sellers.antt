-- ===== src/Pipeline/Sellers.antt =====
-- The keys and the numbers of the sellers, through the statements that change rows in place.
use real_estate_robot.Base.{
  ℕ, ◌≡◌, refl, inl, inr, sym, ap, ◌∙◌, subst, String, str_eq, eq_iff, some, List, [], ◌∷◌, map,
  arith, ◌==◌, ◌⊎◌, Bool-cases, if◌then◌else◌,
}
use real_estate_robot.Base.Values.{Time}
use real_estate_robot.Storage.Rows.{Seller}
use real_estate_robot.Storage.Sellers.{
  UpsertSellerParams, upsert_seller, get_seller_by_olx_id, mark_seller_enriched, label_seller,
  null_if_empty,
}
use real_estate_robot.Storage.Sellers.Keys.{IsAbsent, IsKeyed, upserted, get_seller-upsert}
use real_estate_robot.Pipeline.Tables.{seller_ids}

-- Some seller has this key.
abbrev pub HasSeller : String → List Seller → Type 0
HasSeller key table = (s : Seller) × (get_seller_by_olx_id key table ≡ some s)

-- A key that has a row keeps one, and an upsert gives its key one.
pub HasSeller-upsert :
    (now : Time) (n : ℕ) (p : UpsertSellerParams) (key : String) (table : List Seller)
    → (p.olx_user_id ≡ key) ⊎ HasSeller key table
    → HasSeller key (upsert_seller now n p table)
HasSeller-upsert now n p key table (inl same) = (
  upserted now n p (get_seller_by_olx_id p.olx_user_id table),
  ground (arith, get_seller-upsert now n p key table, eq_iff p.olx_user_id key),
)
HasSeller-upsert now n p key table (inr (s, h)) = elim (Bool-cases (str_eq p.olx_user_id key)) [
  | inl same ↦ (
    upserted now n p (get_seller_by_olx_id p.olx_user_id table),
    ground (arith, get_seller-upsert now n p key table),
  )
  | inr other ↦ (s, ground (arith, get_seller-upsert now n p key table))
]

-- A change of the rows that keeps their keys and numbers.
module _ (change : Seller → Seller)
    (key_kept : (s : Seller) → (change s).olx_user_id ≡ s.olx_user_id)
    (id_kept : (s : Seller) → (change s).id ≡ s.id) where
  pub seller_ids-map : (table : List Seller) → seller_ids (map change table) ≡ seller_ids table
  seller_ids-map [] = refl
  seller_ids-map (s ∷ rest) = ground (arith, id_kept s, seller_ids-map rest)

  pub HasSeller-map :
      (key : String) (table : List Seller) → HasSeller key table → HasSeller key (map change table)
  unfolding get_seller_by_olx_id
  HasSeller-map key [] (s, h) = (s, h)
  HasSeller-map key (r ∷ rest) (s, h) = elim (Bool-cases (str_eq r.olx_user_id key)) [
    | inl same ↦ (change r, ground (arith, key_kept r))
    | inr other ↦
        let (t, k) : HasSeller key (map change rest) = HasSeller-map key rest (s, ground arith) in
        (t, ground (arith, key_kept r))
  ]

  IsAbsent-map :
      (key : String) (table : List Seller) → IsAbsent key table → IsAbsent key (map change table)
  IsAbsent-map key [] h = tt
  IsAbsent-map key (s ∷ rest) h = (λ e. h.0 (sym (key_kept s) ∙ e), IsAbsent-map key rest h.1)

  pub IsKeyed-map : (table : List Seller) → IsKeyed table → IsKeyed (map change table)
  IsKeyed-map [] h = tt
  IsKeyed-map (s ∷ rest) h = (
    subst (λ k. IsAbsent k (map change rest)) (sym (key_kept s))
        (IsAbsent-map s.olx_user_id rest h.0),
    IsKeyed-map rest h.1,
  )

-- The two statements that change rows in place are such changes.
abbrev pub marked : Time → ℕ → Seller → Seller
marked now id s =
    if s.id == id then record s { last_enriched_at = some now; updated_at = now } else s

abbrev pub labelled : Time → String → String → Seller → Seller
labelled now label key s =
    if str_eq s.olx_user_id key
    then record s { manual_label = null_if_empty label; updated_at = now }
    else s

pub mark_seller_enriched-map :
    (now : Time) (id : ℕ) (table : List Seller)
    → mark_seller_enriched now id table ≡ map (marked now id) table
unfolding mark_seller_enriched
mark_seller_enriched-map now id [] = refl
mark_seller_enriched-map now id (s ∷ rest) =
    ap (λ t. marked now id s ∷ t) (mark_seller_enriched-map now id rest)

pub label_seller-map :
    (now : Time) (label key : String) (table : List Seller)
    → label_seller now label key table ≡ map (labelled now label key) table
unfolding label_seller
label_seller-map now label key [] = refl
label_seller-map now label key (s ∷ rest) =
    ap (λ t. labelled now label key s ∷ t) (label_seller-map now label key rest)
