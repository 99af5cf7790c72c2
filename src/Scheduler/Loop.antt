-- ===== src/Scheduler/Loop.antt =====
-- The loop of the main of cmd/scheduler: the first tick, the ticker and the signal, as a step
-- relation.
use real_estate_robot.Base.{
  ℕ, zero, suc, ◌+◌, ◌*◌, ◌≤◌, ◌≡◌, refl, ◌∙◌, ap, sym, String, Bool, true, false, List, [], ◌∷◌,
  ◌++◌, length, append_assoc, append-nil, All, All-append, subst, if◌then◌else◌, arith,
}
use real_estate_robot.Base.Int.{pos, ltb_ℤ}
use real_estate_robot.Base.Values.{Bytes, Duration}
use real_estate_robot.Runtime.Env.{Env, World}
use real_estate_robot.Queue.Publisher.Batch.{letters}
use real_estate_robot.Scheduler.{DiscoveryTask, tick_all, ticks}
use real_estate_robot.Scheduler.Ticks.{IsPart, first_pages, Ticked, ticked, tick_all-Ticked}

-- Where main is: before its first tick, in its select, at its end, or in the panic of
-- time.NewTicker, which takes no interval that is not positive.
pub data Phase : Type 0 where
  starting : Phase
  selecting : Phase
  returned : Phase
  panicked : Phase

pub record Loop : Type 0 where
  pub phase : Phase
  pub cancelled : Bool  -- the context of NotifyContext is done
  pub waiting : Bool  -- the ticker's channel, which holds one time
  pub world : World

module _ (env : Env) (encode : DiscoveryTask → Bytes) (urls : List String)
    (interval : Duration) where
  abbrev pub entered : World → Loop
  entered w = record { phase = starting; cancelled = false; waiting = false; world = w }

  -- What one step makes of the number of intervals that have gone by.
  pub data Step (s : Loop) : ℕ → Loop → Type 0 where
    signal : Step s 0 (record s { cancelled = true })
    -- the tick at once, behind which the ticker is made
    begins :
        s.phase ≡ starting
        → ltb_ℤ (pos 0) interval ≡ true
        → Step s 0 (record s { phase = selecting; world = tick_all env encode urls s.world })
    panics :
        s.phase ≡ starting
        → ltb_ℤ (pos 0) interval ≡ false
        → Step s 0 (record s { phase = panicked; world = tick_all env encode urls s.world })
    -- An interval goes by; a time that already waits is the only one that is kept.
    elapses : s.phase ≡ selecting → Step s 1 (record s { waiting = true })
    takes :
        s.phase ≡ selecting
        → s.waiting ≡ true
        → Step s 0 (record s { waiting = false; world = tick_all env encode urls s.world })
    leaves : s.phase ≡ selecting → s.cancelled ≡ true → Step s 0 (record s { phase = returned })

  -- What is reached behind a number of intervals.
  pub data Reach (w : World) : ℕ → Loop → Type 0 where
    here : Reach w 0 (entered w)
    next : {k d : ℕ} {s t : Loop} → Reach w k s → Step s d t → Reach w (k + d) t

  -- The first pages of what each round has sent, one round behind the other.
  abbrev pub rounds_of : List (List String) → List (String × Bytes)
  rounds_of [] = []
  rounds_of (sent ∷ rounds) = first_pages env encode sent ++ rounds_of rounds

  -- The rounds that lead from one world to the other.
  pub record Rounds (count : ℕ) (w v : World) : Type 0 where
    pub sent : List (List String)
    pub counted : length sent ≡ count
    pub parts : All (λ xs. IsPart xs urls) sent
    pub confirmed : letters v.confirmed ≡ letters w.confirmed ++ rounds_of sent
    pub tried : v.ticks ≡ w.ticks + count * length urls
    pub kept : v.db ≡ w.db

  -- whether a time waits, as a number
  abbrev due : Bool → ℕ
  due b = if b then 1 else 0

  -- Where main is behind a number of ticks and the first one: it returns only behind a signal, and
  -- panics only behind the first tick, where the interval is not positive.
  pub data Placed (s : Loop) (n : ℕ) : Type 0 where
    in_select : s.phase ≡ selecting → Placed s n
    at_end : s.phase ≡ returned → s.cancelled ≡ true → Placed s n
    in_panic : s.phase ≡ panicked → n ≡ 0 → ltb_ℤ (pos 0) interval ≡ false → Placed s n

  -- What each phase stands for.
  data IsTimed (w : World) (k : ℕ) (s : Loop) : Type 0 where
    early : s.phase ≡ starting → s.waiting ≡ false → s.world ≡ w → IsTimed w k s
    timed :
        (n : ℕ)
        → n + due s.waiting ≤ k
        → s.world ≡ ticks env encode n urls w
        → Placed s n
        → IsTimed w k s

  due-le : (b : Bool) → due b ≤ 1
  due-le true = omega arith
  due-le false = omega arith

  Step-IsTimed :
      {w : World} {k d : ℕ} {s t : Loop} → IsTimed w k s → Step s d t → IsTimed w (k + d) t
  unfolding ticks
  Step-IsTimed (early p q e) signal = early p q e
  Step-IsTimed {w} (early p q e) (begins r x) =
      timed 0 (ground arith) (ap (tick_all env encode urls) e) (in_select refl)
  Step-IsTimed {w} (early p q e) (panics r x) =
      timed 0 (ground arith) (ap (tick_all env encode urls) e) (in_panic refl refl x)
  Step-IsTimed (early p q e) (elapses r) = ground arith
  Step-IsTimed (early p q e) (takes r x) = ground arith
  Step-IsTimed (early p q e) (leaves r c) = ground arith
  Step-IsTimed (timed n b e (in_select p)) signal = timed n (ground arith) e (in_select p)
  Step-IsTimed (timed n b e (at_end p c)) signal = timed n (ground arith) e (at_end p refl)
  Step-IsTimed (timed n b e (in_panic p z x)) signal = timed n (ground arith) e (in_panic p z x)
  Step-IsTimed (timed n b e (in_select p)) (begins r y) = ground arith
  Step-IsTimed (timed n b e (at_end p c)) (begins r y) = ground arith
  Step-IsTimed (timed n b e (in_panic p z x)) (begins r y) = ground arith
  Step-IsTimed (timed n b e (in_select p)) (panics r y) = ground arith
  Step-IsTimed (timed n b e (at_end p c)) (panics r y) = ground arith
  Step-IsTimed (timed n b e (in_panic p z x)) (panics r y) = ground arith
  Step-IsTimed {s = s} (timed n b e h) (elapses r) = timed n (omega arith) e (in_select r)
  Step-IsTimed (timed n b e h) (takes r x) =
      timed (suc n) (ground arith) (ap (tick_all env encode urls) e) (in_select r)
  Step-IsTimed (timed n b e h) (leaves r c) = timed n (ground arith) e (at_end refl c)

  Reach-IsTimed : {w : World} {k : ℕ} {s : Loop} → Reach w k s → IsTimed w k s
  Reach-IsTimed here = early refl refl refl
  Reach-IsTimed (next h st) = Step-IsTimed (Reach-IsTimed h) st

  length-snoc :
      (rounds : List (List String)) (xs : List String)
      → length (rounds ++ xs ∷ []) ≡ suc (length rounds)
  length-snoc [] xs = refl
  length-snoc (ys ∷ rounds) xs = ap suc (length-snoc rounds xs)

  rounds_of-snoc :
      (rounds : List (List String)) (xs : List String)
      → rounds_of (rounds ++ xs ∷ []) ≡ rounds_of rounds ++ first_pages env encode xs
  rounds_of-snoc [] xs = append-nil (first_pages env encode xs)
  rounds_of-snoc (ys ∷ rounds) xs =
      ap (λ r. first_pages env encode ys ++ r) (rounds_of-snoc rounds xs)
      ∙ sym (append_assoc (first_pages env encode ys) _ _)

  Rounds-more :
      {n : ℕ} {w v u : World} → Rounds n w v → Ticked env encode urls v u → Rounds (suc n) w u
  Rounds-more {n} {w} {v} r (ticked xs p c t d) = record {
    sent = r.sent ++ xs ∷ [];
    counted = length-snoc r.sent xs ∙ ap suc r.counted;
    parts = All-append (λ ys. IsPart ys urls) r.sent (xs ∷ []) r.parts (p, tt);
    confirmed =
        c
        ∙ ap (λ l. l ++ first_pages env encode xs) r.confirmed
        ∙ append_assoc (letters w.confirmed) _ _
        ∙ ap (λ l. letters w.confirmed ++ l) (sym (rounds_of-snoc r.sent xs));
    tried = ground arith;
    kept = d ∙ r.kept;
  }

  ticks-Rounds : (n : ℕ) (w : World) → Rounds (suc n) w (ticks env encode n urls w)
  unfolding ticks
  ticks-Rounds zero w =
      Rounds-more
        (record {
          sent = [];
          counted = refl;
          parts = tt;
          confirmed = sym (append-nil _);
          tried = omega arith;
          kept = refl;
        })
        (tick_all-Ticked env encode urls w)
  ticks-Rounds (suc n) w =
      Rounds-more (ticks-Rounds n w) (tick_all-Ticked env encode urls (ticks env encode n urls w))

  -- The scheduler before its first tick, or behind a number of ticks.
  pub data Scheduled (w : World) (k : ℕ) (s : Loop) : Type 0 where
    unstarted : s.phase ≡ starting → s.world ≡ w → Scheduled w k s
    ran :
        (n : ℕ)
        → n ≤ k
        → s.world ≡ ticks env encode n urls w
        → Rounds (suc n) w s.world
        → Placed s n
        → Scheduled w k s

  -- In whatever order the signal, the ticker and main take their steps: behind k intervals main has
  -- not begun, or it has done its first tick and at most one for each interval; it returns only
  -- behind a signal, and panics only behind the first tick, where the interval is not positive. Every
  -- tick tries every search once, and what the broker has confirmed are, tick
  -- behind tick, the first-page tasks of the searches whose publish worked, in their order.
  pub Reach-Scheduled : {w : World} {k : ℕ} {s : Loop} → Reach w k s → Scheduled w k s
  Reach-Scheduled {w} {k} {s} h = elim (Reach-IsTimed h) [
    | early p q e ↦ unstarted p e
    | timed n b e p ↦
        ran n (omega arith) e (subst (λ v. Rounds (suc n) w v) (sym e) (ticks-Rounds n w)) p
  ]
