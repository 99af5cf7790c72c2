-- ===== src/Runtime/Actions.antt =====
-- One statement on the database, one wait for the limiter and one HTTP request, as actions.
use real_estate_robot.Base.{
  none, some, [], ◌∷◌, ◌++◌, ◌≡◌, ◌≢◌, refl, ◌⊎◌, inl, inr, arith, ap, sym, ◌∙◌,
}
use real_estate_robot.Base.Values.{Time, Error, Result, ok, err, wrap}
use real_estate_robot.Runtime.Env.{
  Env, World, M, done, refused, lost, Request, Response, tick, DbReply-cases,
}

module _ (env : Env) where
  -- A query that changes nothing.
  abbrev pub query : {A : Type 0} → (World → Result A) → M A
  query read w = elim (env.database w.ticks) [
    | done ↦ (read w, tick w)
    | refused e ↦ (err e, tick w)
    | lost e ↦ (err e, tick w)
  ]

  -- A query is answered, or fails.
  pub query-cases :
      {A : Type 0} (read : World → Result A) (w : World)
      → ((env.database w.ticks ≡ done) × (query read w ≡ (read w, tick w)))
        ⊎ ((env.database w.ticks ≢ done) × ((e : Error) × (query read w ≡ (err e, tick w))))
  query-cases read w = elim (DbReply-cases (env.database w.ticks)) [
    | inl d ↦ inl (d, rw (d, query) refl)
    | inr (inl (e, r)) ↦ inr (λ k. ground arith, (e, rw (r, query) refl))
    | inr (inr (e, r)) ↦ inr (λ k. ground arith, (e, rw (r, query) refl))
  ]

  pub query_ok :
      {A : Type 0} (read : World → Result A) (w v : World) (a : A)
      → query read w ≡ (ok a, v)
      → (read w ≡ ok a) × (v ≡ tick w)
  query_ok read w v a h = elim (query-cases read w) [
    | inl (d, r) ↦ (ap (λ p. p.0) (sym r ∙ h), sym (ap (λ p. p.1) (sym r ∙ h)))
    | inr (d, (e, r)) ↦ ground (arith, ap (λ p. p.0) (sym r ∙ h))
  ]

  -- A statement with its effect and its result.
  abbrev pub statement : {A : Type 0} → (Time → World → A × World) → M A
  statement run w = elim (env.database w.ticks) [
    | done ↦ (ok (run (env.db_clock w.ticks) w).0, tick (run (env.db_clock w.ticks) w).1)
    | refused e ↦ (err e, tick w)
    | lost e ↦ (err e, tick (run (env.db_clock w.ticks) w).1)
  ]

  -- A statement that succeeds has its result and its effect.
  pub statement-cases :
      {A : Type 0} (run : Time → World → A × World) (w : World)
      → (statement run w
          ≡ (ok (run (env.db_clock w.ticks) w).0, tick (run (env.db_clock w.ticks) w).1))
        ⊎ ((e : Error) × ((statement run w).0 ≡ err e))
  statement-cases run w = elim (DbReply-cases (env.database w.ticks)) [
    | inl d ↦ inl (rw (d, statement) refl)
    | inr (inl (e, r)) ↦ inr (e, rw (r, statement) refl)
    | inr (inr (e, r)) ↦ inr (e, rw (r, statement) refl)
  ]

  pub statement_ok :
      {A : Type 0} (run : Time → World → A × World) (w : World) (a : A)
      → (statement run w).0 ≡ ok a
      → (a ≡ (run (env.db_clock w.ticks) w).0)
        × ((statement run w).1 ≡ tick (run (env.db_clock w.ticks) w).1)
  statement_ok run w a h = elim (statement-cases run w) [
    | inl s ↦ (ground (arith, sym h ∙ ap (λ p. p.0) s), ap (λ p. p.1) s)
    | inr (e, s) ↦ ground (arith, sym h ∙ s)
  ]

  -- w.Limiter.Wait(ctx)
  abbrev pub wait_limiter : M Unit
  wait_limiter w = elim (env.limiter w.ticks) [
    | none ↦ (ok tt, tick w)
    | some e ↦ (err (wrap "rate limit wait" e), tick w)
  ]

  -- w.HTTP.Do(req)
  abbrev pub do_request : Request → M Response
  do_request req w = (env.http w.ticks req, tick (record w { requested = w.requested ++ req ∷ [] }))
