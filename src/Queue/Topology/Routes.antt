-- ===== src/Queue/Topology/Routes.antt =====
-- What Declare leaves on the broker: every message that the program publishes, and every
-- dead-lettered one, has exactly one queue to go to.
use Prim.Native.String.{◌++◌ as append}
use real_estate_robot.Base.{
  String, str_eq, ◌≡◌, ◌≢◌, refl, sym, ◌∙◌, subst, ◌&&◌, Option, none, some, List, [], ◌∷◌, ◌++◌,
  if◌then◌else◌, arith, All, IsExtension, append_assoc, append-nil, Option-cases, inl, inr,
}
use real_estate_robot.Base.Values.{Error, ok, err}
use real_estate_robot.Queue.Names.{exchange_work, exchange_dead, work_queues}
use real_estate_robot.Queue.Topology.{
  Call, queue_declare, queue_bind, exchange_calls, stage_calls, queue_calls, declare_calls, perform,
  declare,
}

-- The queues bound to a direct exchange under a key.
abbrev pub bound : String → String → List Call → List String
bound exchange key [] = []
bound exchange key (queue_bind q k ex ∷ rest) =
    if str_eq ex exchange && str_eq k key
    then q ∷ bound exchange key rest
    else bound exchange key rest
bound exchange key (_ ∷ rest) = bound exchange key rest

-- The exchange and key that a queue's dead letters go to.
abbrev pub dead_letter_of : String → List Call → Option (String × String)
dead_letter_of q [] = none
dead_letter_of q (queue_declare q' arguments ∷ rest) =
    if str_eq q' q then arguments.dead_letter else dead_letter_of q rest
dead_letter_of q (_ ∷ rest) = dead_letter_of q rest

-- The queues that a queue's dead letters reach.
abbrev pub follow : String → List Call → List String
follow q calls = elim (dead_letter_of q calls) [
  | none ↦ []
  | some (exchange, key) ↦ bound exchange key calls
]

-- The routes of one stage: what is published to it, its retry loop, and its dead queue, which
-- nothing leaves.
pub record IsRouted (calls : List Call) (q : String) : Type 0 where
  pub published : bound exchange_work q calls ≡ q ∷ []
  pub rejected : follow q calls ≡ append q ".retry" ∷ []
  pub expired : follow (append q ".retry") calls ≡ q ∷ []
  pub given_up : bound exchange_dead (append q ".dead") calls ≡ append q ".dead" ∷ []
  pub terminal : follow (append q ".dead") calls ≡ []

perform-ok :
    (answer : List Call → Option Error) (made calls after : List Call)
    → perform answer made calls ≡ (ok tt, after)
    → after ≡ made ++ calls
unfolding perform
perform-ok answer made [] after e = ground (arith, append-nil made)
perform-ok answer made (c ∷ rest) after e = elim (Option-cases (answer (made ++ c ∷ []))) [
  | inl fine ↦
      perform-ok answer (made ++ c ∷ []) rest after (ground arith) ∙ append_assoc made (c ∷ []) rest
  | inr (x, bad) ↦ absurd (ground arith)
]

routes : All (IsRouted declare_calls) work_queues
unfolding declare_calls exchange_calls queue_calls stage_calls
routes = (
  record { published = refl; rejected = refl; expired = refl; given_up = refl; terminal = refl },
  (
    record { published = refl; rejected = refl; expired = refl; given_up = refl; terminal = refl },
    (
      record {
        published = refl;
        rejected = refl;
        expired = refl;
        given_up = refl;
        terminal = refl;
      },
      (
        record {
          published = refl;
          rejected = refl;
          expired = refl;
          given_up = refl;
          terminal = refl;
        },
        tt,
      ),
    ),
  ),
)

-- When Declare returns no error, whatever the channel answered on the way, each of the four stages
-- is routed: a message published to it reaches its work queue alone, a rejected one its retry
-- queue alone, an expired one its work queue again, a given-up one its dead queue alone, and
-- nothing is dead-lettered from there.
pub declare-IsRouted :
    (answer : List Call → Option Error) (calls : List Call)
    → declare answer ≡ (ok tt, calls)
    → All (IsRouted calls) work_queues
unfolding declare
declare-IsRouted answer calls e =
    subst (λ made. All (IsRouted made) work_queues)
      (sym (perform-ok answer [] declare_calls calls e)) routes

perform-err :
    (answer : List Call → Option Error) (made calls after : List Call) (x : Error)
    → perform answer made calls ≡ (err x, after)
    → IsExtension after (made ++ calls) × (answer after ≢ none)
unfolding perform
perform-err answer made [] after x e = absurd (ground arith)
perform-err answer made (c ∷ rest) after x e = elim (Option-cases (answer (made ++ c ∷ []))) [
  | inl fine ↦
      rw (← append_assoc made (c ∷ []) rest)
        (perform-err answer (made ++ c ∷ []) rest after x (ground arith))
  | inr (y, bad) ↦
      let same : after ≡ made ++ c ∷ [] = ground arith in
      rw same ((rest, sym (append_assoc made (c ∷ []) rest)), λ h. ground arith)
]

-- When Declare returns an error, the calls that it made are the first ones of the full sequence,
-- and the last of them is the one that the channel refused: nothing is declared after a failure.
pub declare-stops :
    (answer : List Call → Option Error) (calls : List Call) (x : Error)
    → declare answer ≡ (err x, calls)
    → IsExtension calls declare_calls × (answer calls ≢ none)
unfolding declare
declare-stops answer calls x e = perform-err answer [] declare_calls calls x e
