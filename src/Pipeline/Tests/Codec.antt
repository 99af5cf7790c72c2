-- ===== src/Pipeline/Tests/Codec.antt =====
-- A text as the numbers of its characters, and back.
use Prim.Native.Char.{Char, char, code, nul, IsScalar}
use Prim.Native.Nat.{Ordering, compare}
use text.Mathlib.TextEquality.{IsScalar-prop}
use real_estate_robot.Base.{ℕ, String, ◌≡◌, refl, ap, [], ◌∷◌}
use real_estate_robot.Base.Values.{Bytes}

abbrev pub codes : String → Bytes
codes String.[] = []
codes (String.◌∷◌ c s) = code c ∷ codes s

unfoldable pub char_at :
    (n : ℕ) (a b c : Ordering)
    → compare n 55_296 ≡ a
    → compare 57_343 n ≡ b
    → compare n 1_114_112 ≡ c
    → Char
char_at n Ordering.lt b c p q r = char n (rw p tt)
char_at n Ordering.eq Ordering.lt Ordering.lt p q r = char n (rw (p, q, r) tt)
char_at n Ordering.eq Ordering.lt Ordering.eq p q r = nul
char_at n Ordering.eq Ordering.lt Ordering.gt p q r = nul
char_at n Ordering.eq Ordering.eq c p q r = nul
char_at n Ordering.eq Ordering.gt c p q r = nul
char_at n Ordering.gt Ordering.lt Ordering.lt p q r = char n (rw (p, q, r) tt)
char_at n Ordering.gt Ordering.lt Ordering.eq p q r = nul
char_at n Ordering.gt Ordering.lt Ordering.gt p q r = nul
char_at n Ordering.gt Ordering.eq c p q r = nul
char_at n Ordering.gt Ordering.gt c p q r = nul

unfoldable pub char_of : ℕ → Char
unfolding char_at
char_of n = char_at n (compare n 55_296) (compare 57_343 n) (compare n 1_114_112) refl refl refl

char_at-code :
    (n : ℕ) (s : IsScalar n) (a b c : Ordering) (p : compare n 55_296 ≡ a)
    (q : compare 57_343 n ≡ b) (r : compare n 1_114_112 ≡ c)
    → char_at n a b c p q r ≡ char n s
unfolding char_at
char_at-code n s Ordering.lt b c p q r = ap (char n) (IsScalar-prop n _ s)
char_at-code n s Ordering.eq Ordering.lt Ordering.lt p q r = ap (char n) (IsScalar-prop n _ s)
char_at-code n s Ordering.eq Ordering.lt Ordering.eq p q r =
    let bad : ⊥ = rw (p, q, r) at s in absurd bad
char_at-code n s Ordering.eq Ordering.lt Ordering.gt p q r =
    let bad : ⊥ = rw (p, q, r) at s in absurd bad
char_at-code n s Ordering.eq Ordering.eq c p q r = let bad : ⊥ = rw (p, q) at s in absurd bad
char_at-code n s Ordering.eq Ordering.gt c p q r = let bad : ⊥ = rw (p, q) at s in absurd bad
char_at-code n s Ordering.gt Ordering.lt Ordering.lt p q r = ap (char n) (IsScalar-prop n _ s)
char_at-code n s Ordering.gt Ordering.lt Ordering.eq p q r =
    let bad : ⊥ = rw (p, q, r) at s in absurd bad
char_at-code n s Ordering.gt Ordering.lt Ordering.gt p q r =
    let bad : ⊥ = rw (p, q, r) at s in absurd bad
char_at-code n s Ordering.gt Ordering.eq c p q r = let bad : ⊥ = rw (p, q) at s in absurd bad
char_at-code n s Ordering.gt Ordering.gt c p q r = let bad : ⊥ = rw (p, q) at s in absurd bad

char_of-code : (c : Char) → char_of (code c) ≡ c
unfolding char_of
char_of-code (char n s) = char_at-code n s _ _ _ refl refl refl

abbrev pub text_of : Bytes → String
text_of [] = String.[]
text_of (n ∷ ns) = String.◌∷◌ (char_of n) (text_of ns)

-- A text is read back from its codes.
pub text_of-codes : (s : String) → text_of (codes s) ≡ s
text_of-codes String.[] = refl
text_of-codes (String.◌∷◌ c s) = rw (char_of-code c, text_of-codes s) refl
