-- ===== src/Api/Handlers/Labels.antt =====
-- What a PATCH of a seller's label changes in the views that the API reads.
use real_estate_robot.Base.{
  String, str_eq, ◌≡◌, refl, sym, ap, ◌∙◌, inl, inr, Bool, true, false, Bool-cases, Option, List,
  [], ◌∷◌, map, if◌then◌else◌, arith,
}
use real_estate_robot.Base.Values.{Time, Result, ok, err}
use real_estate_robot.Storage.Rows.{Seller, SellerStat}
use real_estate_robot.Storage.Sellers.{null_if_empty, label_seller}
use real_estate_robot.Runtime.Env.{Env, World, Stream, Result-cases}
use real_estate_robot.Runtime.Actions.{statement, statement_ok}
use real_estate_robot.Classification.Score.{Calendar, formula, real_seller_score}
use real_estate_robot.Classification.Views.{
  SellerClassification, classify, seller_classifications, classifications_in,
}
use real_estate_robot.Classification.Queries.{get_seller_classification}
use real_estate_robot.Api.{Server, Formats, labeled}
use real_estate_robot.Api.Handlers.{label, patch_label, keeps_check, relabel}
use real_estate_robot.Api.Replies.{reply, label_value, label_reply}

-- A row of the view, with another label for this seller and the score that goes with it.
abbrev pub relabeled : String → String → SellerClassification → SellerClassification
relabeled olx_user_id value r =
    if str_eq r.olx_user_id olx_user_id
    then record r {
      manual_label = null_if_empty value;
      real_seller_score =
          real_seller_score (null_if_empty value)
            (formula r.is_business r.score_listings_count r.score_geography r.score_account_age);
    }
    else r

abbrev pub map_ok : {A B : Type 0} → (A → B) → Result A → Result B
map_ok f (ok a) = ok (f a)
map_ok f (err e) = err e

classify-label :
    (calendar : Calendar) (t now : Time) (value u : String) (stats : List SellerStat) (s : Seller)
    → classify calendar t stats (
        if str_eq s.olx_user_id u
        then record s { manual_label = null_if_empty value; updated_at = now }
        else s)
      ≡ relabeled u value (classify calendar t stats s)
unfolding classify
classify-label calendar t now value u stats s = elim (Bool-cases (str_eq s.olx_user_id u)) [
  | inl h ↦ rw h refl
  | inr h ↦ rw h refl
]

seller_classifications-label :
    (calendar : Calendar) (t now : Time) (value u : String) (stats : List SellerStat)
    (table : List Seller)
    → seller_classifications calendar t stats (label_seller now value u table)
      ≡ map (relabeled u value) (seller_classifications calendar t stats table)
unfolding seller_classifications label_seller
seller_classifications-label calendar t now value u stats [] = refl
seller_classifications-label calendar t now value u stats (s ∷ rest) =
    rw (classify-label calendar t now value u stats s) (
      ap (λ l. relabeled u value (classify calendar t stats s) ∷ l)
        (seller_classifications-label calendar t now value u stats rest))

get_classification_cons :
    (key : String) (r : SellerClassification) (rest : List SellerClassification)
    → get_seller_classification key (r ∷ rest)
      ≡ (if str_eq r.olx_user_id key then ok r else get_seller_classification key rest)
unfolding get_seller_classification
get_classification_cons key r rest = ground arith

relabeled-olx_user_id :
    (u value : String) (r : SellerClassification)
    → (relabeled u value r).olx_user_id ≡ r.olx_user_id
relabeled-olx_user_id u value r = ground arith

map_ok_if :
    {A : Type 0} (f : A → A) (b : Bool) (a : A) (r : Result A)
    → map_ok f (if b then ok a else r) ≡ (if b then ok (f a) else map_ok f r)
map_ok_if f true a r = refl
map_ok_if f false a r = refl

get_classification-map :
    (key u value : String) (view : List SellerClassification)
    → get_seller_classification key (map (relabeled u value) view)
      ≡ map_ok (relabeled u value) (get_seller_classification key view)
unfolding get_seller_classification
get_classification-map key u value [] = refl
get_classification-map key u value (r ∷ rest) =
    let others = get_classification-map key u value rest in
    let moved : SellerClassification = relabeled u value r in
    let same : moved.olx_user_id ≡ r.olx_user_id = relabeled-olx_user_id u value r in
    get_classification_cons key moved (map (relabeled u value) rest)
    ∙ ap
        (λ k.
          if str_eq k key
          then ok moved
          else get_seller_classification key (map (relabeled u value) rest))
        same
    ∙ ap (λ t. if str_eq r.olx_user_id key then ok moved else t) others
    ∙ sym (map_ok_if (relabeled u value) (str_eq r.olx_user_id key) r _)
    ∙ ap (map_ok (relabeled u value)) (sym (get_classification_cons key r rest))

module _ (env : Env) (calendar : Calendar) (formats : Formats) (server : Server) where
  label_ok :
      (value u : String) (w : World) (x : Unit {0})
      → (label env calendar formats server value u w).0 ≡ ok x
      → (label env calendar formats server value u w).1.db
        ≡ record w.db { sellers = label_seller (env.db_clock w.ticks) value u w.db.sellers }
  unfolding label
  label_ok value u w x h = elim (Bool-cases (keeps_check value u w.db)) [
    | inl k ↦
        let same : label env calendar formats server value u w ≡ statement env (relabel value u) w =
          rw k refl in
        ap (λ p. p.1.db) same
        ∙ ap (λ v. v.db) (statement_ok env (relabel value u) w x (sym (ap (λ p. p.0) same) ∙ h)).1
    | inr k ↦ ground arith
  ]

  -- Where a PATCH with this label is answered 200, looking up any seller gives the row that it
  -- gave before, but for the one whose label it is: that row has the label, none for an empty one,
  -- and the score that goes with it.
  pub patch_label-get_seller_classification :
      (u : String) (body : Stream) (value : Option String) (w : World) (t : Time) (key : String)
      → formats.decode_label body ≡ ok value
      → (patch_label env calendar formats server u body w).0
        ≡ reply 200 (labeled u (label_value value))
      → get_seller_classification key
          (classifications_in calendar t (patch_label env calendar formats server u body w).1.db)
        ≡ map_ok
            (relabeled u (label_value value))
            (get_seller_classification key (classifications_in calendar t w.db))
  unfolding patch_label
  patch_label-get_seller_classification u body value w t key d h = elim (Bool-cases (str_eq u "")) [
    | inl e ↦ ground arith
    | inr e ↦ elim (Result-cases (label env calendar formats server (label_value value) u w).0) [
      | inl (x, k) ↦
          rw (e, d)
            (ap (λ db. get_seller_classification key (classifications_in calendar t db))
                (label_ok (label_value value) u w x k)
              ∙ ap (get_seller_classification key) (
                  seller_classifications-label calendar t (env.db_clock w.ticks) (label_value value)
                    u w.db.seller_stats w.db.sellers)
              ∙ get_classification-map key u (label_value value)
                  (classifications_in calendar t w.db))
      | inr (x, k) ↦
          let other : (patch_label env calendar formats server u body w).0
              ≡ label_reply u (label_value value) (err x) =
            rw (e, d) (ap (label_reply u (label_value value)) k) in
          ground (arith, sym other ∙ h)
    ]
  ]
