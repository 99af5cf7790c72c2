-- ===== src/Runtime/Rules.antt =====
-- Rules for a predicate on the world over code that may end with an error at each step.
use real_estate_robot.Base.{◌≡◌, refl, inl, inr, Bool, true, false, if◌then◌else◌, Option-cases}
use real_estate_robot.Base.Values.{Time, Error, Result, ok, err}
use real_estate_robot.Runtime.Env.{Env, World, M, tick, ◌>>=◌, continue, rewrap, DbReply-cases}
use real_estate_robot.Runtime.Actions.{query, statement, wait_limiter}

module _ (P : World → Type 0) where
  continue_rule :
      {A B : Type 0} (r : Result A) (f : A → M B) (w : World)
      → P w
      → ((a : A) → r ≡ ok a → P (f a w).1)
      → P (continue r f w).1
  continue_rule (ok a) f w h k = k a refl
  continue_rule (err e) f w h k = h

  -- A chain keeps what its first step leaves, and what the rest leaves behind each of its results.
  pub bind_rule :
      {A B : Type 0} (m : M A) (f : A → M B) (w : World)
      → P (m w).1
      → ((a : A) → (m w).0 ≡ ok a → P (f a (m w).1).1)
      → P ((m >>= f) w).1
  bind_rule m f w h k = continue_rule (m w).0 f (m w).1 h k

  pub if_rule :
      {A : Type 0} (b : Bool) (m k : M A) (w : World)
      → (b ≡ true → P (m w).1)
      → (b ≡ false → P (k w).1)
      → P ((if b then m else k) w).1
  if_rule true m k w h g = h refl
  if_rule false m k w h g = g refl

  pub statement_rule :
      {A : Type 0} (env : Env) (run : Time → World → A × World) (w : World)
      → P (tick w)
      → ((now : Time) → P (tick (run now w).1))
      → P (statement env run w).1
  statement_rule env run w h k = elim (DbReply-cases (env.database w.ticks)) [
    | inl d ↦ rw (d, statement) (k (env.db_clock w.ticks))
    | inr (inl (e, d)) ↦ rw (d, statement) h
    | inr (inr (e, d)) ↦ rw (d, statement) (k (env.db_clock w.ticks))
  ]

  pub query_rule :
      {A : Type 0} (env : Env) (read : World → Result A) (w : World)
      → P (tick w)
      → P (query env read w).1
  query_rule env read w h = elim (DbReply-cases (env.database w.ticks)) [
    | inl d ↦ rw (d, query) h
    | inr (inl (e, d)) ↦ rw (d, query) h
    | inr (inr (e, d)) ↦ rw (d, query) h
  ]

  pub wait_limiter_rule : (env : Env) (w : World) → P (tick w) → P (wait_limiter env w).1
  wait_limiter_rule env w h = elim (Option-cases (env.limiter w.ticks)) [
    | inl l ↦ rw (l, wait_limiter) h
    | inr (e, l) ↦ rw (l, wait_limiter) h
  ]

-- A wrapped error stays an error.
pub rewrap_ok :
    {A : Type 0} (f : Error → Error) (r : Result A) (a : A) → rewrap f r ≡ ok a → r ≡ ok a
rewrap_ok f (ok b) a h = h
rewrap_ok f (err e) a h = cc
