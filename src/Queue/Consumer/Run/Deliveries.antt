-- ===== src/Queue/Consumer/Run/Deliveries.antt =====
-- The bound and the bookkeeping of deliveries: each is waiting, at work or settled, once.
use mathlib.Core.List.{Perm, perm_middle, perm_append_comm}
use mathlib.Core.List.Perm
use real_estate_robot.Base.{
  ℕ, zero, suc, ◌+◌, ◌≤◌, ◌≡◌, refl, sym, ap, ◌∙◌, subst, ◌⊎◌, inl, inr, false, List, [], ◌∷◌, ◌++◌,
  length, length-append, map, arith, String, append_assoc, All,
}
use real_estate_robot.Base.Int.{ℤ}
use real_estate_robot.Runtime.Env.{Env, World}
use real_estate_robot.Queue.Consumer.{Delivery, Handler, Action, ack, nack, dispatch}
use real_estate_robot.Queue.Consumer.Policy.{buried, put_back, handled, failed, dispatch-Outcome}
use real_estate_robot.Queue.Consumer.Run.{
  Tagged, Running, started, Step, deliver, close, lose, take, finish, finish_late, return, Reach,
  here, next,
}

abbrev pub tags : {A : Type 0} → List (ℕ × A) → List ℕ
tags l = map (λ x. x.0) l

-- The numbers below one.
abbrev pub below : ℕ → List ℕ
below zero = []
below (suc n) = n ∷ below n

-- How often a delivery is acknowledged or rejected.
abbrev pub settlements : List Action → ℕ
settlements [] = 0
settlements (ack ∷ rest) = suc (settlements rest)
settlements (nack requeue ∷ rest) = suc (settlements rest)
settlements (_ ∷ rest) = settlements rest

-- The numbers of the deliveries of each kind.
abbrev pub numbers : Running → List ℕ
numbers s = s.unsettled ++ (tags s.waiting ++ (tags s.at_work ++ tags s.settled))

-- At most prefetch deliveries are waiting or at work; each number given out is that of one delivery,
-- which is waiting, at work, settled or the broker's again, the last only where the connection is
-- lost; when Run has returned, none is waiting or at work; and each settled one was acknowledged or
-- rejected once.
pub record IsSound (prefetch : ℕ) (s : Running) : Type 0 where
  pub few : length s.waiting + length s.at_work ≤ prefetch
  pub once : Perm (numbers s) (below s.next)
  pub held : (s.connected ≡ false) ⊎ (s.unsettled ≡ [])
  pub complete :
      (s.returned ≡ false) ⊎ ((s.streaming ≡ false) × (length s.waiting + length s.at_work ≡ 0))
  pub each : All (λ x. settlements x.1 ≡ 1) s.settled

tags-append : {A : Type 0} (xs ys : List (ℕ × A)) → tags (xs ++ ys) ≡ tags xs ++ tags ys
tags-append [] ys = refl
tags-append (x ∷ xs) ys = ap (λ l. x.0 ∷ l) (tags-append xs ys)

-- One element moved on by one list.
moved_right : (x : ℕ) (w a rest : List ℕ) → Perm (w ++ (x ∷ a ++ rest)) (x ∷ w ++ (a ++ rest))
moved_right x w a rest = perm_middle w (a ++ rest)

moved_out :
    (x : ℕ) (w b c rest : List ℕ) → Perm (w ++ ((b ++ c) ++ x ∷ rest)) (w ++ ((b ++ x ∷ c) ++ rest))
moved_out x w b c rest =
    Perm.append_left w (
      Perm.trans (perm_middle (b ++ c) rest) (Perm.append_right rest (Perm.symm (perm_middle b c))))

dropped : (w u rest : List ℕ) → Perm ((w ++ u) ++ rest) (u ++ (w ++ rest))
dropped w u rest =
    subst (Perm ((w ++ u) ++ rest)) (append_assoc u w rest)
      (Perm.append_right rest (perm_append_comm w u))

held_late :
    (x : ℕ) (u w b c rest : List ℕ)
    → Perm (x ∷ u ++ (w ++ ((b ++ c) ++ rest))) (u ++ (w ++ ((b ++ x ∷ c) ++ rest)))
held_late x u w b c rest = Perm.symm (
    Perm.trans
      (Perm.append_left u (
        Perm.trans (Perm.append_left w (Perm.append_right rest (perm_middle b c)))
          (perm_middle w ((b ++ c) ++ rest))))
      (perm_middle u (w ++ ((b ++ c) ++ rest))))

added :
    (n : ℕ) (d : Delivery) (w : List Tagged) (rest : List ℕ)
    → Perm (tags (w ++ (n, d) ∷ []) ++ rest) (n ∷ (tags w ++ rest))
added n d w rest =
    subst (λ l. Perm l (n ∷ (tags w ++ rest)))
      (sym
        (ap (λ l. l ++ rest) (tags-append w ((n, d) ∷ [])) ∙ append_assoc (tags w) (n ∷ []) rest))
      (perm_middle (tags w) rest)

at_work-split :
    (s : Running) (before : List Tagged) (x : Tagged) (after : List Tagged)
    → s.at_work ≡ before ++ x ∷ after
    → Perm (numbers s) (below s.next)
    → Perm
        (s.unsettled ++ (tags s.waiting ++ ((tags before ++ x.0 ∷ tags after) ++ tags s.settled)))
        (below s.next)
at_work-split s before x after e h =
    subst (λ l. Perm (s.unsettled ++ (tags s.waiting ++ (l ++ tags s.settled))) (below s.next))
      (ap tags e ∙ tags-append before (x ∷ after)) h

module _ (env : Env) (queue : String) (max_retries : ℤ) (handler : Handler) (prefetch : ℕ) where
  settlements-dispatch :
      (d : Delivery) (w : World) → settlements (dispatch env queue max_retries handler d w).0 ≡ 1
  settlements-dispatch d w = elim (dispatch-Outcome env queue max_retries handler d w) [
    | buried l a c ↦ ap settlements a
    | put_back x l p a c ↦ ap settlements a
    | handled l r a e ↦ ap settlements a
    | failed l r a e ↦ ap settlements a
  ]

  Step-IsSound :
      {s t : Running}
      → Step env queue max_retries handler prefetch s t
      → IsSound prefetch s
      → IsSound prefetch t
  Step-IsSound (deliver s d o f) h = record {
    few = ground (arith, length-append s.waiting ((s.next, d) ∷ []));
    once =
        Perm.trans (Perm.append_left s.unsettled (added s.next d s.waiting _))
          (Perm.trans (perm_middle s.unsettled _) (Perm.cons s.next h.once));
    complete = elim h.complete [ inl r ↦ inl r | inr (c, z) ↦ ground (arith, sym o ∙ c) ];
    each = h.each;
    held = h.held;
  }
  Step-IsSound (close s o) h = record {
    few = h.few;
    once = h.once;
    complete = elim h.complete [ inl r ↦ inl r | inr (c, z) ↦ inr (refl, z) ];
    each = h.each;
    held = h.held;
  }
  Step-IsSound (lose s o) h = record {
    few = omega (arith, h.few);
    once = Perm.trans (dropped (tags s.waiting) s.unsettled _) h.once;
    complete = elim h.complete [ inl r ↦ inl r | inr (c, z) ↦ inr (refl, omega arith) ];
    each = h.each;
    held = inl refl;
  }
  Step-IsSound (take s x rest e) h = record {
    few = ground (arith, ap length e, h.few);
    once =
        Perm.trans
          (Perm.append_left s.unsettled
            (moved_right x.0 (tags rest) (tags s.at_work) (tags s.settled)))
          (subst
            (λ l.
              Perm (s.unsettled ++ (tags l ++ (tags s.at_work ++ tags s.settled))) (below s.next))
            e h.once);
    complete = elim h.complete [ inl r ↦ inl r | inr (c, z) ↦ ground (arith, ap length e) ];
    each = h.each;
    held = h.held;
  }
  Step-IsSound (finish s before x after o e) h = record {
    few =
        ground
          (arith, h.few, ap length e, length-append before (x ∷ after), length-append before after);
    once =
        subst
          (λ l.
            Perm (s.unsettled ++ (tags s.waiting ++ (l ++ x.0 ∷ tags s.settled))) (below s.next))
          (sym (tags-append before after))
          (Perm.trans
            (Perm.append_left s.unsettled
              (moved_out x.0 (tags s.waiting) (tags before) (tags after) (tags s.settled)))
            (at_work-split s before x after e h.once));
    complete = elim h.complete [
      | inl r ↦ inl r
      | inr (c, z) ↦ ground (arith, ap length e, length-append before (x ∷ after))
    ];
    each = (settlements-dispatch x.1 s.world, h.each);
    held = h.held;
  }
  Step-IsSound (finish_late s before x after o e) h = record {
    few =
        ground
          (arith, h.few, ap length e, length-append before (x ∷ after), length-append before after);
    once =
        subst
          (λ l.
            Perm (x.0 ∷ s.unsettled ++ (tags s.waiting ++ (l ++ tags s.settled))) (below s.next))
          (sym (tags-append before after))
          (Perm.trans
            (held_late x.0 s.unsettled (tags s.waiting) (tags before) (tags after) (tags s.settled))
            (at_work-split s before x after e h.once));
    complete = elim h.complete [
      | inl r ↦ inl r
      | inr (c, z) ↦ ground (arith, ap length e, length-append before (x ∷ after))
    ];
    each = h.each;
    held = inl o;
  }
  Step-IsSound (return s o w a r) h = record {
    few = h.few;
    once = h.once;
    complete = inr (o, ground (arith, ap length w, ap length a));
    each = h.each;
    held = h.held;
  }

  -- From the start of Run on, whatever order the steps come in: at most prefetch deliveries are
  -- waiting or at work, every delivery is waiting, at work, settled or the broker's again, and one of
  -- these only; each settled one was acknowledged or rejected exactly once; none is the broker's
  -- again while the connection stands; and Run has returned only where none is waiting or at work.
  pub Reach-IsSound :
      {w : World} {t : Running}
      → Reach env queue max_retries handler prefetch (started w) t
      → IsSound prefetch t
  Reach-IsSound here = record {
    few = omega arith;
    once = Perm.rfl;
    complete = inl refl;
    each = tt;
    held = inr refl;
  }
  Reach-IsSound (next r st) = Step-IsSound st (Reach-IsSound r)
