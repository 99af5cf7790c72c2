-- ===== src/Commands/Serving.antt =====
-- The end of the main of cmd/api: the server's goroutine, the signal and the graceful shutdown, as a
-- step relation.
use real_estate_robot.Base.{
  ℕ, ◌<◌, ◌≡◌, refl, ◌⊎◌, inl, inr, Bool, true, false, Option, List, [], ◌∷◌, ◌++◌, length, arith,
}
use real_estate_robot.Base.Values.{Error}

-- Where the main goroutine is: in its select, in Shutdown, or at its end with a status.
pub data Phase : Type 0 where
  selecting : Phase
  shutting_down : Phase
  ended : ℕ → Phase

pub record Serving : Type 0 where
  pub phase : Phase
  pub cancelled : Bool  -- the context of NotifyContext is done
  pub listening : Bool  -- ListenAndServe has not returned
  pub server_err : List Error  -- the channel, which holds one error

abbrev pub began : Serving
began = record { phase = selecting; cancelled = false; listening = true; server_err = [] }

abbrev IsLive : Phase → Type 0
IsLive p = (p ≡ selecting) ⊎ (p ≡ shutting_down)

-- One step of the signal, of the server's goroutine or of main.
pub data Step (s : Serving) : Serving → Type 0 where
  signal : IsLive s.phase → Step s (record s { cancelled = true })
  -- ListenAndServe returns an error other than ErrServerClosed, and there is room for it
  fails :
      (e : Error)
      → IsLive s.phase
      → s.listening ≡ true
      → length s.server_err < 1
      → Step s (record s { listening = false; server_err = s.server_err ++ e ∷ [] })
  -- ListenAndServe returns ErrServerClosed, once Shutdown is called
  closes : s.phase ≡ shutting_down → s.listening ≡ true → Step s (record s { listening = false })
  leaves : s.phase ≡ selecting → s.cancelled ≡ true → Step s (record s { phase = shutting_down })
  gives_up :
      (e : Error) (rest : List Error)
      → s.phase ≡ selecting
      → s.server_err ≡ e ∷ rest
      → Step s (record s { phase = ended 1; server_err = rest })
  -- Shutdown returns; its error is logged
  returns :
      (answer : Option Error) → s.phase ≡ shutting_down → Step s (record s { phase = ended 0 })

pub data Steps : Serving → Type 0 where
  here : Steps began
  next : {s t : Serving} → Steps s → Step s t → Steps t

-- The server serves and the channel is empty, or it has failed and its error waits.
abbrev pub IsHeard : Serving → Type 0
IsHeard s =
    ((s.listening ≡ true) × (s.server_err ≡ []))
    ⊎ ((e : Error) × (s.listening ≡ false) × (s.server_err ≡ e ∷ []))

-- What each phase stands for.
pub data IsJustified (s : Serving) : Type 0 where
  serving : s.phase ≡ selecting → IsHeard s → IsJustified s
  stopping : s.phase ≡ shutting_down → s.cancelled ≡ true → IsJustified s
  stopped : s.phase ≡ ended 0 → s.cancelled ≡ true → IsJustified s
  failed : s.phase ≡ ended 1 → s.listening ≡ false → IsJustified s

no_more : {s t : Serving} (n : ℕ) → s.phase ≡ ended n → Step s t → ⊥
no_more n p (signal (inl q)) = ground arith
no_more n p (signal (inr q)) = ground arith
no_more n p (fails e (inl q) l r) = ground arith
no_more n p (fails e (inr q) l r) = ground arith
no_more n p (closes q l) = ground arith
no_more n p (leaves q c) = ground arith
no_more n p (gives_up e rest q r) = ground arith
no_more n p (returns answer q) = ground arith

IsHeard-fails :
    (s : Serving) (e : Error)
    → IsHeard s
    → s.listening ≡ true
    → IsHeard (record s { listening = false; server_err = s.server_err ++ e ∷ [] })
IsHeard-fails s e (inl (l, r)) k = inr (e, refl, ground arith)
IsHeard-fails s e (inr (x, l, r)) k = ground arith

Step-IsJustified : {s t : Serving} → IsJustified s → Step s t → IsJustified t
Step-IsJustified (serving p h) (signal q) = serving p h
Step-IsJustified {s} (serving p h) (fails e q l r) = serving p (IsHeard-fails s e h l)
Step-IsJustified (serving p h) (closes q l) = ground arith
Step-IsJustified (serving p h) (leaves q c) = stopping refl c
Step-IsJustified (serving p (inl (l, r))) (gives_up e rest q x) = ground arith
Step-IsJustified (serving p (inr (e', l, r))) (gives_up e rest q x) = failed refl l
Step-IsJustified (serving p h) (returns answer q) = ground arith
Step-IsJustified (stopping p c) (signal q) = stopping p refl
Step-IsJustified (stopping p c) (fails e q l r) = stopping p c
Step-IsJustified (stopping p c) (closes q l) = stopping p c
Step-IsJustified (stopping p c) (leaves q x) = ground arith
Step-IsJustified (stopping p c) (gives_up e rest q x) = ground arith
Step-IsJustified (stopping p c) (returns answer q) = stopped refl c
Step-IsJustified (stopped p c) st = absurd (no_more 0 p st)
Step-IsJustified (failed p l) st = absurd (no_more 1 p st)

-- In whatever order the signal, the server and main take their steps: while main selects, the server
-- serves, or it has failed and its error waits in the channel, so that main wakes; main calls
-- Shutdown, and ends with status 0, only behind a signal; and it ends with status 1 only where the
-- server has failed.
pub Steps-IsJustified : {s : Serving} → Steps s → IsJustified s
Steps-IsJustified here = serving refl (inl (refl, refl))
Steps-IsJustified (next h st) = Step-IsJustified (Steps-IsJustified h) st
