-- ===== src/Storage/Listings/Keys.antt =====
-- The table listings as a map from olx_listing_id, and the unique pairs of listing_snapshots.
use real_estate_robot.Base.{
  ℕ, String, str_eq, ◌==◌, ==_iff, ◌≡◌, refl, false, ◌||◌, ◌&&◌, Option, none, some, List, [], ◌∷◌,
  ◌++◌, map, if◌then◌else◌, arith, eq_iff, Bool-cases, inl, inr,
}
use real_estate_robot.Base.Values.{Time}
use real_estate_robot.Storage.Rows.{Listing, ListingSnapshot}
use real_estate_robot.Storage.Listings.{
  UpsertListingParams, inserted, updated, upsert_listing, get_listing_by_olx_id,
  InsertListingSnapshotParams, snapshot_row, has_snapshot, insert_listing_snapshot,
}

-- What an upsert leaves under its own key.
abbrev pub upserted : Time → ℕ → UpsertListingParams → Option Listing → Listing
upserted now id p none = inserted now id p
upserted now id p (some l) = updated now p l

-- After UpsertListing, looking up its olx_listing_id gives the updated row, or the inserted one
-- where there was none; any other olx_listing_id gives the row that it gave before.
pub get_listing-upsert :
    (now : Time) (id : ℕ) (p : UpsertListingParams) (key : String) (table : List Listing)
    → get_listing_by_olx_id key (upsert_listing now id p table) ≡ (
        if str_eq p.olx_listing_id key
        then some (upserted now id p (get_listing_by_olx_id p.olx_listing_id table))
        else get_listing_by_olx_id key table)
unfolding get_listing_by_olx_id upsert_listing
get_listing-upsert now id p key [] = ground arith
get_listing-upsert now id p key (l ∷ rest) = ground (
  arith,
  get_listing-upsert now id p key rest,
  eq_iff l.olx_listing_id p.olx_listing_id,
  eq_iff l.olx_listing_id key,
  eq_iff p.olx_listing_id key,
)

-- The numbers and keys of the rows, in order.
abbrev pub identities : List Listing → List (ℕ × String)
identities table = map (λ l. (l.id, l.olx_listing_id)) table

pub identities-upsert :
    (now : Time) (id : ℕ) (p : UpsertListingParams) (l : Listing) (table : List Listing)
    → get_listing_by_olx_id p.olx_listing_id table ≡ some l
    → identities (upsert_listing now id p table) ≡ identities table
unfolding get_listing_by_olx_id upsert_listing
identities-upsert now id p l [] h = cc
identities-upsert now id p l (r ∷ rest) h = ground (arith, identities-upsert now id p l rest)

has_snapshot-append :
    (listing : ℕ) (hash : String) (table : List ListingSnapshot) (s : ListingSnapshot)
    → has_snapshot listing hash (table ++ s ∷ [])
      ≡ has_snapshot listing hash table || (s.listing_id == listing && str_eq s.raw_hash hash)
unfolding has_snapshot
has_snapshot-append listing hash [] s = ground arith
has_snapshot-append listing hash (t ∷ rest) s =
    ground (arith, has_snapshot-append listing hash rest s)

-- After InsertListingSnapshot, a pair has a row when it had one before or is the inserted pair.
pub has_snapshot-insert :
    (now : Time) (id : ℕ) (p : InsertListingSnapshotParams) (listing : ℕ) (hash : String)
    (table : List ListingSnapshot)
    → has_snapshot listing hash (insert_listing_snapshot now id p table).1
      ≡ has_snapshot listing hash table || (p.listing_id == listing && str_eq p.raw_hash hash)
unfolding insert_listing_snapshot
has_snapshot-insert now id p listing hash table = ground (
  arith,
  has_snapshot-append listing hash table (snapshot_row now id p),
  eq_iff p.raw_hash hash,
  ==_iff p.listing_id listing,
)

-- The pair (listing_id, raw_hash) is UNIQUE.
abbrev pub IsUnique : List ListingSnapshot → Type 0
IsUnique [] = Unit
IsUnique (s ∷ rest) = (has_snapshot s.listing_id s.raw_hash rest ≡ false) × IsUnique rest

IsUnique-append :
    (s : ListingSnapshot) (table : List ListingSnapshot)
    → IsUnique table
    → has_snapshot s.listing_id s.raw_hash table ≡ false
    → IsUnique (table ++ s ∷ [])
unfolding has_snapshot
IsUnique-append s [] u h = (refl, tt)
IsUnique-append s (t ∷ rest) u h = (
  ground (
    arith,
    has_snapshot-append t.listing_id t.raw_hash rest s,
    eq_iff t.raw_hash s.raw_hash,
    eq_iff s.raw_hash t.raw_hash,
  ),
  IsUnique-append s rest u.1 (ground arith),
)

-- InsertListingSnapshot keeps the pair (listing_id, raw_hash) unique.
pub insert_listing_snapshot-IsUnique :
    (now : Time) (id : ℕ) (p : InsertListingSnapshotParams) (table : List ListingSnapshot)
    → IsUnique table
    → IsUnique (insert_listing_snapshot now id p table).1
unfolding insert_listing_snapshot
insert_listing_snapshot-IsUnique now id p table u =
    elim (Bool-cases (has_snapshot p.listing_id p.raw_hash table)) [
      | inl known ↦ rw known u
      | inr new ↦ rw new (IsUnique-append (snapshot_row now id p) table u new)
    ]
