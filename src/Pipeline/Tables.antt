-- ===== src/Pipeline/Tables.antt =====
-- The numbers of the rows of sellers and listings, through the statements that write them.
use real_estate_robot.Base.{
  ℕ, suc, ◌≤◌, ◌≡◌, ◌≢◌, refl, inl, inr, sym, ap, ◌∙◌, subst, str_eq, Option, none, some, List, [],
  ◌∷◌, ◌++◌, map, arith, All, Bool, find?, In, All-append, Bool-cases,
}
use real_estate_robot.Base.Values.{Time}
use real_estate_robot.Storage.Rows.{Seller, Listing, ListingSnapshot, ListingHtmlFetch}
use real_estate_robot.Storage.Fetches.{get_fetch_by_id}
use real_estate_robot.Storage.Sellers.{UpsertSellerParams, upsert_seller, get_seller_by_olx_id}
use real_estate_robot.Storage.Listings.{
  UpsertListingParams, upsert_listing, get_listing_by_olx_id, InsertListingSnapshotParams,
  has_snapshot, insert_listing_snapshot, snapshot_row,
}
use real_estate_robot.Parser.Worker.{seller_id, listing_id}

abbrev pub seller_ids : List Seller → List ℕ
seller_ids table = map (λ s. s.id) table

abbrev pub listing_ids : List Listing → List ℕ
listing_ids table = map (λ l. l.id) table

-- Different numbers, none above the last one drawn.
abbrev pub IsNumbered : ℕ → List ℕ → Type 0
IsNumbered last [] = Unit
IsNumbered last (n ∷ ns) = (n ≤ last) × All (λ m. m ≢ n) ns × IsNumbered last ns

pub IsNumbered-le : (a b : ℕ) (ns : List ℕ) → a ≤ b → IsNumbered a ns → IsNumbered b ns
IsNumbered-le a b [] le h = tt
IsNumbered-le a b (n ∷ ns) le h = (omega arith, h.1, IsNumbered-le a b ns le h.2)

-- what a statement that draws the next number may do to the numbers of its table
abbrev pub with_drawn {ℓ} : {A : Type ℓ} → Option A → ℕ → List ℕ → List ℕ
with_drawn none n ns = ns ++ n ∷ []
with_drawn (some _) n ns = ns

IsNumbered-append :
    (last : ℕ) (ns : List ℕ) → IsNumbered last ns → IsNumbered (suc last) (ns ++ suc last ∷ [])
IsNumbered-append last [] h = (omega arith, tt, tt)
IsNumbered-append last (n ∷ ns) h = (
  omega arith,
  All-append (λ m. m ≢ n) ns (suc last ∷ []) h.1 (λ e. omega arith, tt),
  IsNumbered-append last ns h.2,
)

pub with_drawn-IsNumbered {ℓ} :
    {A : Type ℓ} (known : Option A) (last : ℕ) (ns : List ℕ)
    → IsNumbered last ns
    → IsNumbered (suc last) (with_drawn known (suc last) ns)
with_drawn-IsNumbered none last ns h = IsNumbered-append last ns h
with_drawn-IsNumbered (some _) last ns h = IsNumbered-le last (suc last) ns (omega arith) h

In-append_left : (a : ℕ) (xs ys : List ℕ) → In a xs → In a (xs ++ ys)
In-append_left a [] ys h = elim h [ ]
In-append_left a (x ∷ xs) ys (inl e) = inl e
In-append_left a (x ∷ xs) ys (inr h) = inr (In-append_left a xs ys h)

In-append_last : (a : ℕ) (xs : List ℕ) → In a (xs ++ a ∷ [])
In-append_last a [] = inl refl
In-append_last a (x ∷ xs) = inr (In-append_last a xs)

pub In-with_drawn {ℓ} :
    {A : Type ℓ} (known : Option A) (a n : ℕ) (ns : List ℕ) → In a ns → In a (with_drawn known n ns)
In-with_drawn none a n ns h = In-append_left a ns (n ∷ []) h
In-with_drawn (some _) a n ns h = h

cons_drawn {ℓ} :
    {A : Type ℓ} (known : Option A) (m n : ℕ) (ns : List ℕ)
    → m ∷ with_drawn known n ns ≡ with_drawn known n (m ∷ ns)
cons_drawn none m n ns = refl
cons_drawn (some _) m n ns = refl

-- UpsertSeller adds the drawn number for a new key, and else keeps the numbers as they are.
pub seller_ids-upsert :
    (now : Time) (n : ℕ) (p : UpsertSellerParams) (table : List Seller)
    → seller_ids (upsert_seller now n p table)
      ≡ with_drawn (get_seller_by_olx_id p.olx_user_id table) n (seller_ids table)
unfolding upsert_seller get_seller_by_olx_id
seller_ids-upsert now n p [] = refl
seller_ids-upsert now n p (s ∷ rest) = elim (Bool-cases (str_eq s.olx_user_id p.olx_user_id)) [
  | inl same ↦ rw same refl
  | inr other ↦ rw other (
      ap (λ t. s.id ∷ t) (seller_ids-upsert now n p rest)
      ∙ cons_drawn (get_seller_by_olx_id p.olx_user_id rest) s.id n (seller_ids rest))
]

pub listing_ids-upsert :
    (now : Time) (n : ℕ) (p : UpsertListingParams) (table : List Listing)
    → listing_ids (upsert_listing now n p table)
      ≡ with_drawn (get_listing_by_olx_id p.olx_listing_id table) n (listing_ids table)
unfolding upsert_listing get_listing_by_olx_id
listing_ids-upsert now n p [] = refl
listing_ids-upsert now n p (l ∷ rest) =
    elim (Bool-cases (str_eq l.olx_listing_id p.olx_listing_id)) [
      | inl same ↦ rw same refl
      | inr other ↦ rw other (
          ap (λ t. l.id ∷ t) (listing_ids-upsert now n p rest)
          ∙ cons_drawn (get_listing_by_olx_id p.olx_listing_id rest) l.id n (listing_ids rest))
    ]

find?-In :
    {A : Type 0} (p : A → Bool) (id : A → ℕ) (n : ℕ) (table : List A)
    → In
        (elim (find? p table) [ none ↦ n | some a ↦ id a ])
        (with_drawn (find? p table) n (map id table))
find?-In p id n [] = inl refl
find?-In p id n (a ∷ rest) = elim (Bool-cases (p a)) [
  | inl yes' ↦ rw yes' (inl refl)
  | inr no' ↦ rw no' (
      subst (In (elim (find? p rest) [ none ↦ n | some a ↦ id a ]))
        (cons_drawn (find? p rest) (id a) n (map id rest)) (inr (find?-In p id n rest)))
]

-- The number that UpsertSeller returns is that of a row it leaves.
pub In-seller_id :
    (now : Time) (n : ℕ) (p : UpsertSellerParams) (table : List Seller)
    → In (seller_id p.olx_user_id n table) (seller_ids (upsert_seller now n p table))
In-seller_id now n p table =
    subst (In (seller_id p.olx_user_id n table)) (sym (seller_ids-upsert now n p table)) (
      unfold get_seller_by_olx_id in
      find?-In (λ s. str_eq s.olx_user_id p.olx_user_id) (λ s. s.id) n table)

pub In-listing_id :
    (now : Time) (n : ℕ) (p : UpsertListingParams) (table : List Listing)
    → In (listing_id p.olx_listing_id n table) (listing_ids (upsert_listing now n p table))
In-listing_id now n p table =
    subst (In (listing_id p.olx_listing_id n table)) (sym (listing_ids-upsert now n p table)) (
      unfold get_listing_by_olx_id in
      find?-In (λ l. str_eq l.olx_listing_id p.olx_listing_id) (λ l. l.id) n table)

-- The listing's seller is the one with this number, which stands in the table of sellers.
abbrev pub IsOwned : List ℕ → Listing → Type 0
IsOwned sellers l = (n : ℕ) × (l.seller_id ≡ some n) × In n sellers

abbrev pub IsCaptured : List ℕ → ListingSnapshot → Type 0
IsCaptured listings s = In s.listing_id listings

pub upsert_listing-IsOwned :
    (now : Time) (n : ℕ) (p : UpsertListingParams) (seller : ℕ) (sellers : List ℕ)
    (table : List Listing)
    → p.seller_id ≡ some seller
    → In seller sellers
    → All (IsOwned sellers) table
    → All (IsOwned sellers) (upsert_listing now n p table)
unfolding upsert_listing
upsert_listing-IsOwned now n p seller sellers [] e i h = ((seller, e, i), tt)
upsert_listing-IsOwned now n p seller sellers (l ∷ rest) e i h =
    elim (Bool-cases (str_eq l.olx_listing_id p.olx_listing_id)) [
      | inl same ↦ rw same ((seller, e, i), h.1)
      | inr other ↦ rw other (h.0, upsert_listing-IsOwned now n p seller sellers rest e i h.1)
    ]

pub insert_listing_snapshot-IsCaptured :
    (now : Time) (n : ℕ) (p : InsertListingSnapshotParams) (listings : List ℕ)
    (table : List ListingSnapshot)
    → In p.listing_id listings
    → All (IsCaptured listings) table
    → All (IsCaptured listings) (insert_listing_snapshot now n p table).1
unfolding insert_listing_snapshot
insert_listing_snapshot-IsCaptured now n p listings table i h =
    elim (Bool-cases (has_snapshot p.listing_id p.raw_hash table)) [
      | inl known ↦ rw known h
      | inr new ↦
          rw new (All-append (IsCaptured listings) table (snapshot_row now n p ∷ []) h (i, tt))
    ]

-- A row that is found by its number stays found when another row is added.
pub get_fetch-append :
    (id : ℕ) (row new : ListingHtmlFetch) (table : List ListingHtmlFetch)
    → get_fetch_by_id id table ≡ some row
    → get_fetch_by_id id (table ++ new ∷ []) ≡ some row
unfolding get_fetch_by_id
get_fetch-append id row new [] h = cc
get_fetch-append id row new (r ∷ rest) h = ground (arith, get_fetch-append id row new rest)

-- A row with a number above all others is found by it.
pub get_fetch-last :
    (last : ℕ) (new : ListingHtmlFetch) (table : List ListingHtmlFetch)
    → All (λ r. r.id ≤ last) table
    → new.id ≡ suc last
    → get_fetch_by_id new.id (table ++ new ∷ []) ≡ some new
unfolding get_fetch_by_id
get_fetch-last last new [] h e = ground arith
get_fetch-last last new (r ∷ rest) h e = ground (arith, get_fetch-last last new rest h.1)
