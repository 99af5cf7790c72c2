-- ===== src/Queue/Publisher/Returns/Draining.antt =====
-- That Close does not wait for ever, and that no returned message is left unlogged.
use real_estate_robot.Base.{
  ℕ, ◌+◌, ◌≤◌, ◌<◌, ◌≡◌, refl, sym, ap, ◌∙◌, ◌⊎◌, inl, inr, true, false, Bool-cases, List-cases, [],
  ◌∷◌, ◌++◌, append_assoc, append-nil, length, arith, if◌then◌else◌,
}
use real_estate_robot.Queue.Publisher.Returns.{
  Watching, watching, Step, arrive, close, log, end, Reach, here, next, Steps, none_yet, and_then,
}

-- How many steps are left once the channel is closed.
abbrev pub budget : Watching → ℕ
budget s = length s.returns + (if s.done then 0 else 1)

-- Whether what has arrived is logged or in the channel, in order, and all of it logged at the end.
abbrev pub IsKept : Watching → Type 0
IsKept s =
    (s.arrived ≡ s.logged ++ s.returns)
    × ((s.done ≡ false) ⊎ ((s.closed ≡ true) × (s.returns ≡ [])))

Step-IsKept : {s t : Watching} → Step s t → IsKept s → IsKept t
Step-IsKept (arrive s r c f) h = (
  ap (λ l. l ++ r ∷ []) h.0 ∙ append_assoc s.logged s.returns (r ∷ []),
  elim h.1 [ inl d ↦ inl d | inr (k, e) ↦ ground (arith, sym c ∙ k) ],
)
Step-IsKept (close s c) h = (h.0, elim h.1 [ inl d ↦ inl d | inr (k, e) ↦ inr (refl, e) ])
Step-IsKept (log s r rest e d) h =
    (h.0 ∙ ap (λ l. s.logged ++ l) e ∙ sym (append_assoc s.logged (r ∷ []) rest), inl d)
Step-IsKept (end s c e d) h = (h.0, inr (c, e))

Reach-IsKept : {s : Watching} → Reach watching s → IsKept s
Reach-IsKept here = (refl, inl refl)
Reach-IsKept (next r st) = Step-IsKept st (Reach-IsKept r)

Step-closed :
    {s t : Watching} → Step s t → s.closed ≡ true → (t.closed ≡ true) × (budget t < budget s)
Step-closed (arrive s r c f) h = ground (arith, sym c ∙ h)
Step-closed (close s c) h = ground (arith, sym c ∙ h)
Step-closed (log s r rest e d) h = (h, ground (arith, ap length e))
Step-closed (end s c e d) h = (c, ground (arith, d))

Steps-closed :
    {s t : Watching} {n : ℕ}
    → Steps s n t
    → s.closed ≡ true
    → IsKept s
    → (t.closed ≡ true) × (n + budget t ≤ budget s) × IsKept t
Steps-closed none_yet h k = (h, omega arith, k)
Steps-closed (and_then r st) h k =
    let before : _ × _ × _ = Steps-closed r h k in
    let last : _ × _ = Step-closed st before.0 in
    (last.0, omega (arith, before.1, last.1), Step-IsKept st before.2)

-- Whether watchReturns has ended with all logged, or has a step left.
progress :
    (s : Watching)
    → s.closed ≡ true
    → IsKept s
    → ((s.done ≡ true) × (s.logged ≡ s.arrived)) ⊎ ((t : Watching) × Step s t)
progress s c k = elim (Bool-cases s.done) [
  | inl d ↦ elim k.1 [
    | inl e ↦ ground (arith, sym d ∙ e)
    | inr (x, e) ↦ inl (d, sym (k.0 ∙ ap (λ l. s.logged ++ l) e ∙ append-nil s.logged))
  ]
  | inr d ↦ elim (List-cases s.returns) [
    | inl e ↦ inr (_, end s c e d)
    | inr (r, rest, e) ↦ inr (_, log s r rest e d)
  ]
]

-- Once Close has closed the channel, its wait for watchReturns ends within one step for each message
-- in the channel and one more, and never is without a step before that; at its end every message
-- that the broker returned is logged, in the order in which it came.
pub Steps-drained :
    {s t : Watching} {n : ℕ}
    → Reach watching s
    → s.closed ≡ true
    → Steps s n t
    → (n ≤ budget s) × (((t.done ≡ true) × (t.logged ≡ t.arrived)) ⊎ ((u : Watching) × Step t u))
Steps-drained r c st =
    let after : _ × _ × _ = Steps-closed st c (Reach-IsKept r) in
    (omega (arith, after.1), progress _ after.0 after.2)
