-- ===== src/Base/Sort.antt =====
-- ORDER BY and LIMIT: a list in the order of a comparison, and its first rows.
use Prim.Native.Nat.{ℕ, zero, suc, ◌≤◌}
use mathlib.Core.Path.{◌≡◌, refl, sym, ap, subst}
use mathlib.Core.Logic.{◌⊎◌, inl, inr}
use mathlib.Core.Bool.{Bool, true, false}
use mathlib.Core.List.{List, [], ◌∷◌, ◌++◌, Perm}
use mathlib.Core.List.Perm
use native.Mathlib.Omega.{arith}
use real_estate_robot.Base.Tests.{if◌then◌else◌, Bool-cases}
use real_estate_robot.Base.Lists.{length, take, drop, All}

module _ {A : Type 0} (before : A → A → Bool) where
  abbrev pub insert : A → List A → List A
  insert x [] = x ∷ []
  insert x (y ∷ ys) = let rest = insert x ys in if before x y then x ∷ y ∷ ys else y ∷ rest

  unfoldable pub sort : List A → List A
  sort [] = []
  sort (x ∷ xs) = insert x (sort xs)

  -- ORDER BY … LIMIT n
  unfoldable pub top : ℕ → List A → List A
  top n rows = take n (sort rows)

  -- Every row comes before the later ones.
  abbrev pub IsOrdered : List A → Type 0
  IsOrdered [] = Unit
  IsOrdered (x ∷ xs) = All (λ y. before x y ≡ true) xs × IsOrdered xs

  -- What LIMIT n leaves of a table: n rows in order, or all of them where there are fewer, and no
  -- row that is left out comes before one that is not.
  pub record IsTop (n : ℕ) (table answer : List A) : Type 0 where
    pub rest : List A
    pub whole : Perm (answer ++ rest) table
    pub ordered : IsOrdered answer
    pub best : All (λ a. All (λ r. before a r ≡ true) rest) answer
    pub bounded : length answer ≤ n
    pub full : (length answer ≡ n) ⊎ (rest ≡ [])

  insert-perm : (x : A) (l : List A) → Perm (insert x l) (x ∷ l)
  insert-perm x [] = Perm.rfl
  insert-perm x (y ∷ ys) = elim (Bool-cases (before x y)) [
    | inl h ↦ rw h Perm.rfl
    | inr h ↦ rw h (Perm.trans (Perm.cons y (insert-perm x ys)) (Perm.swap x y ys))
  ]

  pub sort-perm : (l : List A) → Perm (sort l) l
  unfolding sort
  sort-perm [] = Perm.rfl
  sort-perm (x ∷ xs) = Perm.trans (insert-perm x (sort xs)) (Perm.cons x (sort-perm xs))

  take-append-drop : (n : ℕ) (l : List A) → take n l ++ drop n l ≡ l
  take-append-drop zero l = refl
  take-append-drop (suc n) [] = refl
  take-append-drop (suc n) (x ∷ l) = ap (λ t. x ∷ t) (take-append-drop n l)

  pub length-take : (n : ℕ) (l : List A) → length (take n l) ≤ n
  length-take zero l = omega arith
  length-take (suc n) [] = omega arith
  length-take (suc n) (x ∷ l) = omega (arith, length-take n l)

  take_full : (n : ℕ) (l : List A) → (length (take n l) ≡ n) ⊎ (drop n l ≡ [])
  take_full zero l = inl refl
  take_full (suc n) [] = inr refl
  take_full (suc n) (x ∷ l) = elim (take_full n l) [ inl h ↦ inl (omega arith) | inr h ↦ inr h ]

  All-insert : (P : A → Type 0) (x : A) (l : List A) → P x → All P l → All P (insert x l)
  All-insert P x [] p h = (p, tt)
  All-insert P x (y ∷ ys) p h = elim (Bool-cases (before x y)) [
    | inl e ↦ rw e (p, h)
    | inr e ↦ rw e (h.0, All-insert P x ys p h.1)
  ]

  module _ (total : (a b : A) → before a b ≡ false → before b a ≡ true)
      (trans : (a b c : A) → before a b ≡ true → before b c ≡ true → before a c ≡ true) where
    All-before :
        (x y : A) (l : List A)
        → before x y ≡ true
        → All (λ z. before y z ≡ true) l
        → All (λ z. before x z ≡ true) l
    All-before x y [] e h = tt
    All-before x y (z ∷ l) e h = (trans x y z e h.0, All-before x y l e h.1)

    insert-IsOrdered : (x : A) (l : List A) → IsOrdered l → IsOrdered (insert x l)
    insert-IsOrdered x [] h = (tt, tt)
    insert-IsOrdered x (y ∷ ys) h = elim (Bool-cases (before x y)) [
      | inl e ↦ rw e ((e, All-before x y ys e h.0), h)
      | inr e ↦
          rw e
            (All-insert (λ z. before y z ≡ true) x ys (total x y e) h.0, insert-IsOrdered x ys h.1)
    ]

    pub sort-IsOrdered : (l : List A) → IsOrdered (sort l)
    unfolding sort
    sort-IsOrdered [] = tt
    sort-IsOrdered (x ∷ xs) = insert-IsOrdered x (sort xs) (sort-IsOrdered xs)

    All-take : (P : A → Type 0) (n : ℕ) (l : List A) → All P l → All P (take n l)
    All-take P zero l h = tt
    All-take P (suc n) [] h = tt
    All-take P (suc n) (x ∷ l) h = (h.0, All-take P n l h.1)

    All-drop : (P : A → Type 0) (n : ℕ) (l : List A) → All P l → All P (drop n l)
    All-drop P zero l h = h
    All-drop P (suc n) [] h = tt
    All-drop P (suc n) (x ∷ l) h = All-drop P n l h.1

    take-IsOrdered : (n : ℕ) (l : List A) → IsOrdered l → IsOrdered (take n l)
    take-IsOrdered zero l h = tt
    take-IsOrdered (suc n) [] h = tt
    take-IsOrdered (suc n) (x ∷ l) h =
        (All-take (λ y. before x y ≡ true) n l h.0, take-IsOrdered n l h.1)

    take_before_drop :
        (n : ℕ) (l : List A)
        → IsOrdered l
        → All (λ a. All (λ r. before a r ≡ true) (drop n l)) (take n l)
    take_before_drop zero l h = tt
    take_before_drop (suc n) [] h = tt
    take_before_drop (suc n) (x ∷ l) h =
        (All-drop (λ r. before x r ≡ true) n l h.0, take_before_drop n l h.1)

    pub top-IsTop : (n : ℕ) (rows : List A) → IsTop n rows (top n rows)
    unfolding top
    top-IsTop n rows = record {
      rest = drop n (sort rows);
      whole = subst (λ l. Perm l rows) (sym (take-append-drop n (sort rows))) (sort-perm rows);
      ordered = take-IsOrdered n (sort rows) (sort-IsOrdered rows);
      best = take_before_drop n (sort rows) (sort-IsOrdered rows);
      bounded = length-take n (sort rows);
      full = take_full n (sort rows);
    }
