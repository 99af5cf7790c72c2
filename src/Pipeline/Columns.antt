-- ===== src/Pipeline/Columns.antt =====
-- A seller's listings and the different texts of a column, against descriptions of their own.
use real_estate_robot.Base.{
  ℕ, suc, ◌≡◌, ◌↔◌, ◌&&◌, length, Option-cases, refl, sym, subst, ap, inl, inr, String, str_eq,
  none, some, true, false, List, [], ◌∷◌, arith, ◌==◌, ==_iff, eq_iff, In, Bool-cases,
  if◌then◌else◌,
}
use real_estate_robot.Base.Values.{Text}
use real_estate_robot.Storage.Rows.{Listing}
use real_estate_robot.Classification.Views.{
  listings_of, count_active, occurs, belongs, count_distinct, column,
}

-- The numbers of a seller's active listings, in the order of the table.
pub active_of : ℕ → List Listing → List ℕ
active_of seller [] = []
active_of seller (l ∷ rest) =
    let others = active_of seller rest in
    elim l.seller_id [
      | none ↦ others
      | some n ↦ if n == seller && str_eq l.status "active" then l.id ∷ others else others
    ]

-- A listing of the seller has this text in the column.
pub data Has (field : Listing → Text) (seller : ℕ) (t : String) : List Listing → Type 0 where
  here :
      {l : Listing} {rest : List Listing}
      → l.seller_id ≡ some seller
      → field l ≡ some t
      → Has field seller t (l ∷ rest)
  there :
      {l : Listing} {rest : List Listing} → Has field seller t rest → Has field seller t (l ∷ rest)

-- No text stands in the list twice.
abbrev pub IsDistinct : List String → Type 0
IsDistinct [] = Unit
IsDistinct (t ∷ ts) = (¬ In t ts) × IsDistinct ts

-- There are so many different texts in the column of the seller's listings.
pub record Values (field : Listing → Text) (seller : ℕ) (listings : List Listing) (count : ℕ)
    : Type 0 where
  pub texts : List String
  pub distinct : IsDistinct texts
  pub all : (t : String) → In t texts ↔ Has field seller t listings
  pub counted : count ≡ length texts

pub count_active-listings_of :
    (seller : ℕ) (listings : List Listing)
    → count_active (listings_of seller listings) ≡ length (active_of seller listings)
unfolding count_active listings_of active_of
count_active-listings_of seller [] = refl
count_active-listings_of seller (l ∷ rest) =
    let ih = count_active-listings_of seller rest in
    elim (Option-cases l.seller_id) [
      | inl n ↦ rw n ih
      | inr (m, n) ↦ elim (Bool-cases (m == seller)) [
        | inr other ↦ rw (n, other) ih
        | inl own ↦ elim (Bool-cases (str_eq l.status "active")) [
          | inl shown ↦ rw (n, own, shown) (ap suc ih)
          | inr hidden ↦ rw (n, own, hidden) ih
        ]
      ]
    ]

-- The different texts of a column, and those of them that are not NULL.
texts_in : List Text → List String
texts_in [] = []
texts_in (none ∷ rest) = texts_in rest
texts_in (some t ∷ rest) = let ts = texts_in rest in if occurs t rest then ts else t ∷ ts

count_distinct-length : (xs : List Text) → count_distinct xs ≡ length (texts_in xs)
unfolding count_distinct texts_in
count_distinct-length [] = refl
count_distinct-length (none ∷ rest) = count_distinct-length rest
count_distinct-length (some t ∷ rest) =
    let ih = count_distinct-length rest in
    elim (Bool-cases (occurs t rest)) [ inl old ↦ rw old ih | inr new ↦ rw new (ap suc ih) ]

occurs-In : (t : String) (xs : List Text) → occurs t xs ≡ true → In (some t) xs
unfolding occurs
occurs-In t [] h = ground arith
occurs-In t (none ∷ rest) h = inr (occurs-In t rest h)
occurs-In t (some u ∷ rest) h = elim (Bool-cases (str_eq u t)) [
  | inl same ↦ inl (ground (arith, eq_iff u t))
  | inr other ↦ inr (occurs-In t rest (ground arith))
]

In-occurs : (t : String) (xs : List Text) → In (some t) xs → occurs t xs ≡ true
unfolding occurs
In-occurs t [] i = elim i [ ]
In-occurs t (none ∷ rest) (inl e) = ground arith
In-occurs t (none ∷ rest) (inr i) = In-occurs t rest i
In-occurs t (some u ∷ rest) (inl e) = ground (arith, eq_iff u t)
In-occurs t (some u ∷ rest) (inr i) = let ih = In-occurs t rest i in ground arith

texts_in-old :
    (u : String) (rest : List Text)
    → occurs u rest ≡ true
    → texts_in (some u ∷ rest) ≡ texts_in rest
unfolding texts_in
texts_in-old u rest old = rw old refl

texts_in-new :
    (u : String) (rest : List Text)
    → occurs u rest ≡ false
    → texts_in (some u ∷ rest) ≡ u ∷ texts_in rest
unfolding texts_in
texts_in-new u rest new = rw new refl

In-texts_in : (t : String) (xs : List Text) → In t (texts_in xs) → In (some t) xs
unfolding texts_in
In-texts_in t [] i = elim i [ ]
In-texts_in t (none ∷ rest) i = inr (In-texts_in t rest i)
In-texts_in t (some u ∷ rest) i = elim (Bool-cases (occurs u rest)) [
  | inl old ↦ inr (In-texts_in t rest (subst (In t) (texts_in-old u rest old) i))
  | inr new ↦ elim (subst (In t) (texts_in-new u rest new) i) [
    | inl e ↦ inl (ap some e)
    | inr k ↦ inr (In-texts_in t rest k)
  ]
]

texts_in-In : (t : String) (xs : List Text) → In (some t) xs → In t (texts_in xs)
unfolding texts_in
texts_in-In t [] i = elim i [ ]
texts_in-In t (none ∷ rest) (inl e) = absurd (ground arith)
texts_in-In t (none ∷ rest) (inr i) = texts_in-In t rest i
texts_in-In t (some u ∷ rest) i = elim (Bool-cases (occurs u rest)) [
  | inl old ↦ subst (In t) (sym (texts_in-old u rest old)) (elim i [
    | inl e ↦ texts_in-In t rest (subst (λ x. In x rest) e (occurs-In u rest old))
    | inr k ↦ texts_in-In t rest k
  ])
  | inr new ↦
      subst (In t) (sym (texts_in-new u rest new))
        (elim i [ inl e ↦ inl (ground arith) | inr k ↦ inr (texts_in-In t rest k) ])
]

texts_in-IsDistinct : (xs : List Text) → IsDistinct (texts_in xs)
unfolding texts_in
texts_in-IsDistinct [] = tt
texts_in-IsDistinct (none ∷ rest) = texts_in-IsDistinct rest
texts_in-IsDistinct (some t ∷ rest) = elim (Bool-cases (occurs t rest)) [
  | inl old ↦ subst IsDistinct (sym (texts_in-old t rest old)) (texts_in-IsDistinct rest)
  | inr new ↦
      let fresh : ¬ In t (texts_in rest) =
        (λ i. let k = In-occurs t rest (In-texts_in t rest i) in ground arith) in
      subst IsDistinct (sym (texts_in-new t rest new)) (fresh, texts_in-IsDistinct rest)
]

belongs-some : (seller : ℕ) (l : Listing) → belongs seller l ≡ true → l.seller_id ≡ some seller
belongs-some seller l h = elim (Option-cases l.seller_id) [
  | inl n ↦ absurd (ground arith)
  | inr (m, n) ↦ ground (arith, ==_iff m seller)
]

belongs_own : (seller : ℕ) (l : Listing) → l.seller_id ≡ some seller → belongs seller l ≡ true
belongs_own seller l e = rw e ((==_iff seller seller).1 refl)

listings_of-own :
    (seller : ℕ) (l : Listing) (rest : List Listing)
    → belongs seller l ≡ true
    → listings_of seller (l ∷ rest) ≡ l ∷ listings_of seller rest
unfolding listings_of
listings_of-own seller l rest own = ground arith

listings_of-other :
    (seller : ℕ) (l : Listing) (rest : List Listing)
    → belongs seller l ≡ false
    → listings_of seller (l ∷ rest) ≡ listings_of seller rest
unfolding listings_of
listings_of-other seller l rest other = ground arith

module _ (field : Listing → Text) (seller : ℕ) (t : String) where
  abbrev Shown : List Listing → Type 0
  Shown own = In (some t) (column field own)

  In-Has :
      (listings : List Listing) → Shown (listings_of seller listings) → Has field seller t listings
  unfolding column listings_of
  In-Has [] i = elim i [ ]
  In-Has (l ∷ rest) i = elim (Bool-cases (belongs seller l)) [
    | inr other ↦ there (In-Has rest (subst Shown (listings_of-other seller l rest other) i))
    | inl own ↦ elim (subst Shown (listings_of-own seller l rest own) i) [
      | inl e ↦ here (belongs-some seller l own) e
      | inr k ↦ there (In-Has rest k)
    ]
  ]

  Has-In :
      (listings : List Listing) → Has field seller t listings → Shown (listings_of seller listings)
  unfolding column
  Has-In [] h = elim h [ ]
  Has-In (l ∷ rest) (here e f) =
      subst Shown (sym (listings_of-own seller l rest (belongs_own seller l e))) (inl f)
  Has-In (l ∷ rest) (there h) = elim (Bool-cases (belongs seller l)) [
    | inr other ↦ subst Shown (sym (listings_of-other seller l rest other)) (Has-In rest h)
    | inl own ↦ subst Shown (sym (listings_of-own seller l rest own)) (inr (Has-In rest h))
  ]

pub column-Values :
    (field : Listing → Text) (seller : ℕ) (listings : List Listing)
    → Values field seller listings (count_distinct (column field (listings_of seller listings)))
column-Values field seller listings =
    let xs : List Text = column field (listings_of seller listings) in
    record {
      texts = texts_in xs;
      distinct = texts_in-IsDistinct xs;
      all = λ t. (
        λ i. In-Has field seller t listings (In-texts_in t xs i),
        λ h. texts_in-In t xs (Has-In field seller t listings h),
      );
      counted = count_distinct-length xs;
    }
