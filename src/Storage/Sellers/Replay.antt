-- ===== src/Storage/Sellers/Replay.antt =====
-- The table sellers as a finite map: what a sequence of statements does to it, without its rows.
use mathlib.Core.Path.{fun_ext}
use real_estate_robot.Base.{
  ℕ, String, str_eq, ◌≡◌, refl, ap, ◌∙◌, Option, none, some, List, [], ◌∷◌, if◌then◌else◌, ◌==◌,
  arith, eq_iff,
}
use real_estate_robot.Base.Values.{Time}
use real_estate_robot.Storage.Rows.{Seller}
use real_estate_robot.Storage.Sellers.{
  UpsertSellerParams, upsert_seller, get_seller_by_olx_id, mark_seller_enriched, null_if_empty,
  label_seller,
}
use real_estate_robot.Storage.Sellers.Keys.{upserted, get_seller-upsert}

-- A statement that changes the table, with the time and the number that it is given.
pub data Statement : Type 0 where
  upserting : Time → ℕ → UpsertSellerParams → Statement
  marking : Time → ℕ → Statement  -- MarkSellerEnriched
  labeling : Time → String → String → Statement  -- LabelSeller, of a labeling and an olx_user_id

abbrev pub execute : Statement → List Seller → List Seller
execute (upserting now id p) table = upsert_seller now id p table
execute (marking now id) table = mark_seller_enriched now id table
execute (labeling now l u) table = label_seller now l u table

abbrev pub execute_all : List Statement → List Seller → List Seller
execute_all [] table = table
execute_all (s ∷ rest) table = execute_all rest (execute s table)

-- The specification: a seller under each olx_user_id, or none.
abbrev pub SellerMap : Type 0
SellerMap = String → Option Seller

abbrev pub map_of : List Seller → SellerMap
map_of table key = get_seller_by_olx_id key table

abbrev pub change : (Seller → Seller) → Option Seller → Option Seller
change f none = none
change f (some s) = some (f s)

abbrev pub marked : Time → ℕ → Seller → Seller
marked now id s =
    if s.id == id then record s { last_enriched_at = some now; updated_at = now } else s

abbrev pub labeled : Time → String → Seller → Seller
labeled now l s = record s { manual_label = null_if_empty l; updated_at = now }

abbrev pub carry_out : Statement → SellerMap → SellerMap
carry_out (upserting now id p) m key =
    if str_eq p.olx_user_id key then some (upserted now id p (m p.olx_user_id)) else m key
carry_out (marking now id) m key = change (marked now id) (m key)
carry_out (labeling now l u) m key = if str_eq u key then change (labeled now l) (m key) else m key

abbrev pub carry_out_all : List Statement → SellerMap → SellerMap
carry_out_all [] m = m
carry_out_all (s ∷ rest) m = carry_out_all rest (carry_out s m)

get_seller-mark :
    (now : Time) (id : ℕ) (key : String) (table : List Seller)
    → get_seller_by_olx_id key (mark_seller_enriched now id table)
      ≡ change (marked now id) (get_seller_by_olx_id key table)
unfolding get_seller_by_olx_id mark_seller_enriched
get_seller-mark now id key [] = refl
get_seller-mark now id key (s ∷ rest) = ground (arith, get_seller-mark now id key rest)

get_seller-label :
    (now : Time) (l u key : String) (table : List Seller)
    → get_seller_by_olx_id key (label_seller now l u table) ≡ (
        if str_eq u key
        then change (labeled now l) (get_seller_by_olx_id key table)
        else get_seller_by_olx_id key table)
unfolding get_seller_by_olx_id label_seller
get_seller-label now l u key [] = ground arith
get_seller-label now l u key (s ∷ rest) = ground (
  arith,
  get_seller-label now l u key rest,
  eq_iff s.olx_user_id u,
  eq_iff s.olx_user_id key,
  eq_iff u key,
)

execute-map_of :
    (s : Statement) (table : List Seller) → map_of (execute s table) ≡ carry_out s (map_of table)
execute-map_of (upserting now id p) table = fun_ext (λ key. get_seller-upsert now id p key table)
execute-map_of (marking now id) table = fun_ext (λ key. get_seller-mark now id key table)
execute-map_of (labeling now l u) table = fun_ext (λ key. get_seller-label now l u key table)

-- The table implements a finite map: after any sequence of upserts, enrichment marks and labels,
-- from any table, GetSellerByOlxID answers under every key as the map does after the same
-- sequence, so that what it answers depends on the order of the rows nowhere.
pub execute_all-map_of :
    (statements : List Statement) (table : List Seller)
    → map_of (execute_all statements table) ≡ carry_out_all statements (map_of table)
execute_all-map_of [] table = refl
execute_all-map_of (s ∷ rest) table =
    execute_all-map_of rest (execute s table) ∙ ap (carry_out_all rest) (execute-map_of s table)
