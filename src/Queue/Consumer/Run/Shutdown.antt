-- ===== src/Queue/Consumer/Run/Shutdown.antt =====
-- The end of Run: once the channel of deliveries is closed, it returns.
use real_estate_robot.Base.{
  ℕ, ◌+◌, ◌*◌, ◌≤◌, ◌<◌, ◌≡◌, sym, ap, ◌∙◌, refl, ◌⊎◌, inl, inr, true, false, Bool-cases, String,
  List-cases, [], ◌∷◌, length, length-append, arith, if◌then◌else◌,
}
use real_estate_robot.Base.Int.{ℤ}
use real_estate_robot.Queue.Consumer.{Handler}
use real_estate_robot.Queue.Consumer.Run.{
  Running, Step, deliver, close, lose, take, finish, finish_late, return, Steps, none_yet, and_then,
}
use real_estate_robot.Runtime.Env.{Env}

-- How many steps are left once the channel is closed: two for a delivery that waits, one for one
-- at work, the loss of the connection, and the return.
abbrev pub budget : Running → ℕ
budget s =
    2 * length s.waiting
    + length s.at_work
    + (if s.returned then 0 else 1)
    + (if s.connected then 1 else 0)

module _ (env : Env) (queue : String) (max_retries : ℤ) (handler : Handler) (prefetch : ℕ) where
  abbrev Next : Running → Running → Type 0
  Next = Step env queue max_retries handler prefetch

  Step-budget :
      {s t : Running}
      → Next s t
      → s.streaming ≡ false
      → (t.streaming ≡ false) × (budget t < budget s)
  Step-budget (deliver s d o f) h = ground (arith, sym o ∙ h)
  Step-budget (close s o) h = ground (arith, sym o ∙ h)
  Step-budget (lose s c) h = (refl, ground (arith, c))
  Step-budget (take s x rest e) h = (h, ground (arith, ap length e))
  Step-budget (finish s before x after c e) h =
      (h, ground (arith, ap length e, length-append before (x ∷ after), length-append before after))
  Step-budget (finish_late s before x after c e) h =
      (h, ground (arith, ap length e, length-append before (x ∷ after), length-append before after))
  Step-budget (return s o w a r) h = (h, ground (arith, r))

  -- Whether Run has returned, or there is a step left.
  progress : (s : Running) → s.streaming ≡ false → (s.returned ≡ true) ⊎ ((t : Running) × Next s t)
  progress s h = elim (List-cases s.waiting) [
    | inr (x, rest, e) ↦ inr (_, take s x rest e)
    | inl w ↦ elim (List-cases s.at_work) [
      | inr (x, rest, e) ↦ elim (Bool-cases s.connected) [
        | inl c ↦ inr (_, finish s [] x rest c e)
        | inr c ↦ inr (_, finish_late s [] x rest c e)
      ]
      | inl a ↦ elim (Bool-cases s.returned) [ inl r ↦ inl r | inr r ↦ inr (_, return s h w a r) ]
    ]
  ]

  Steps-budget :
      {s t : Running} {n : ℕ}
      → Steps env queue max_retries handler prefetch s n t
      → s.streaming ≡ false
      → (t.streaming ≡ false) × (n + budget t ≤ budget s)
  Steps-budget none_yet h = (h, omega arith)
  Steps-budget (and_then r st) h =
      let before : _ × _ = Steps-budget r h in
      let last : _ × _ = Step-budget st before.0 in (last.0, omega (arith, before.1, last.1))

  -- Once the channel of deliveries is closed, by a cancelled context or by the loss of the connection,
  -- Run takes a bounded number of further steps, in
  -- whatever order the loop and the goroutines take them, and none of them is stuck: where no step
  -- is left, Run has returned nil, whichever of the two it was.
  pub Steps-returned :
      {s t : Running} {n : ℕ}
      → Steps env queue max_retries handler prefetch s n t
      → s.streaming ≡ false
      → (n ≤ budget s)
        × ((t.returned ≡ true) ⊎ ((u : Running) × Step env queue max_retries handler prefetch t u))
  Steps-returned {s} {t} {n} r h =
      let after : _ × _ = Steps-budget r h in (omega (arith, after.1), progress t after.0)
