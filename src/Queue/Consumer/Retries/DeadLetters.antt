-- ===== src/Queue/Consumer/Retries/DeadLetters.antt =====
-- RabbitMQ's dead-lettering, as its documentation describes it: the line of the x-death header for
-- a queue and a reason is counted up and moved to the front, or a new one is put there.
use real_estate_robot.Base.{◌+◌, String, str_eq, ◌≡◌, false, List, [], ◌∷◌, ◌++◌, arith, ap, eq_iff}
use real_estate_robot.Queue.Headers.{Table}
use real_estate_robot.Queue.Headers.Counts.{Death, Carries, rejections}

pub data Bump (queue reason : String) (before after : List Death) : Type 0 where
  first :
      after ≡ record { queue = queue; reason = reason; count = 1 } ∷ before
      → Bump queue reason before after
  again :
      (xs ys : List Death) (d : Death)
      → before ≡ xs ++ d ∷ ys
      → d.reason ≡ reason
      → after ≡ record d { count = d.count + 1 } ∷ xs ++ ys
      → Bump queue reason before after

pub record Broker : Type 0 where
  pub dead_letter : String → String → List Death → List Death
  pub dead_letter-Bump :
      (queue reason : String) (ds : List Death) → Bump queue reason ds (dead_letter queue reason ds)
  pub headers : List Death → Table
  pub headers-Carries : (ds : List Death) → Carries (headers ds) ds

rejections-append : (xs ys : List Death) → rejections (xs ++ ys) ≡ rejections xs + rejections ys
rejections-append [] ys = omega arith
rejections-append (x ∷ xs) ys = ground (arith, rejections-append xs ys)

-- A rejection counts one more.
pub rejections-rejected :
    (queue : String) (ds es : List Death)
    → Bump queue "rejected" ds es
    → rejections es ≡ rejections ds + 1
rejections-rejected queue ds es (first e) = ground (arith)
rejections-rejected queue ds es (again xs ys d b r e) = ground (
  arith,
  rejections-append xs (d ∷ ys),
  rejections-append xs ys,
  eq_iff d.reason "rejected",
  ap rejections b,
  ap rejections e,
)

expired_is_other : (reason : String) → reason ≡ "expired" → str_eq reason "rejected" ≡ false
expired_is_other reason e = rw e

-- The end of a time to live counts nothing.
pub rejections-expired :
    (queue : String) (ds es : List Death)
    → Bump queue "expired" ds es
    → rejections es ≡ rejections ds
rejections-expired queue ds es (first e) = ground (arith)
rejections-expired queue ds es (again xs ys d b r e) = ground (
  arith,
  rejections-append xs (d ∷ ys),
  rejections-append xs ys,
  expired_is_other d.reason r,
  ap rejections b,
  ap rejections e,
)
