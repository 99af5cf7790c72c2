-- ===== src/Parser/Page/Coherence.antt =====
-- What holds of every page that Parse accepts.
use real_estate_robot.Base.{String, ◌≡◌, ◌⊎◌, true, none, some, List, [], ◌∷◌, In}
use real_estate_robot.Base.Values.{Float64}
use real_estate_robot.Parser.Page.{Listing, Reading}

abbrev pub deal_types : List String
deal_types = "sale" ∷ "rent_short" ∷ "rent_long" ∷ "" ∷ []

module _ (reading : Reading) where
  -- A currency stands with a positive price alone, a latitude with a longitude, and the deal type is
  -- one of the three or empty.
  pub record IsCoherent (l : Listing) : Type 0 where
    pub priced :
        ((l.price ≡ none) × (l.currency ≡ ""))
        ⊎ ((v : Float64) × (l.price ≡ some v) × (reading.is_positive v ≡ true))
    pub placed :
        ((l.lat ≡ none) × (l.lon ≡ none)) ⊎ ((a b : Float64) × (l.lat ≡ some a) × (l.lon ≡ some b))
    pub dealt : In l.deal_type deal_types
