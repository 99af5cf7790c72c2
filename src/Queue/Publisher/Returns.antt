-- ===== src/Queue/Publisher/Returns.antt =====
-- watchReturns and Close of internal/queue/publisher.go: the goroutine that logs the messages that the
-- broker could not route, and the closing that waits for it.
pub mod Draining
use real_estate_robot.Base.{
  ℕ, suc, String, ◌<◌, ◌≡◌, Bool, true, false, Option, none, some, List, [], ◌∷◌, ◌++◌, length,
  if◌then◌else◌,
}
use real_estate_robot.Base.Int.{ℤ}
use real_estate_robot.Base.Values.{Error}

-- amqp.Return, as far as it is logged
pub record Return : Type 0 where
  pub exchange : String
  pub routing_key : String
  pub reply_code : ℤ
  pub reply_text : String
  pub message_id : String

-- The channel returns, which holds 16, and the channel done.
pub record Watching : Type 0 where
  pub arrived : List Return  -- all that the broker has returned
  pub returns : List Return  -- in the channel
  pub logged : List Return
  pub closed : Bool  -- ch.Close has closed the channel returns
  pub done : Bool  -- watchReturns has ended

abbrev pub watching : Watching
watching = record { arrived = []; returns = []; logged = []; closed = false; done = false }

-- A message arrives while the channel is open and has room; Close closes it, and the loop goes on to
-- its end, which closes done.
pub data Step : Watching → Watching → Type 0 where
  arrive :
      (s : Watching) (r : Return)
      → s.closed ≡ false
      → length s.returns < 16
      → Step s (record s { arrived = s.arrived ++ r ∷ []; returns = s.returns ++ r ∷ [] })
  close : (s : Watching) → s.closed ≡ false → Step s (record s { closed = true })
  log :
      (s : Watching) (r : Return) (rest : List Return)
      → s.returns ≡ r ∷ rest
      → s.done ≡ false
      → Step s (record s { returns = rest; logged = s.logged ++ r ∷ [] })
  end :
      (s : Watching)
      → s.closed ≡ true
      → s.returns ≡ []
      → s.done ≡ false
      → Step s (record s { done = true })

pub data Reach (s : Watching) : Watching → Type 0 where
  here : Reach s s
  next : {t u : Watching} → Reach s t → Step t u → Reach s u

-- A sequence of so many steps.
pub data Steps (s : Watching) : ℕ → Watching → Type 0 where
  none_yet : Steps s 0 s
  and_then : {n : ℕ} {t u : Watching} → Steps s n t → Step t u → Steps s (suc n) u

-- errors.Join of the two closings' errors
abbrev pub joined_errors : Option Error → Option Error → List Error
joined_errors none none = []
joined_errors none (some f) = f ∷ []
joined_errors (some e) none = e ∷ []
joined_errors (some e) (some f) = e ∷ f ∷ []

-- Close, behind its wait for done: the errors of the channel's and of the connection's closing
unfoldable pub close_publisher : Option Error → Option Error → Watching → Option (List Error)
close_publisher on_channel on_connection s =
    if s.done then some (joined_errors on_channel on_connection) else none
