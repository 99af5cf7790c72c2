-- ===== src/Parser/Worker/Samples.antt =====
-- A pgx.BeginFunc for the tests of the parser and of the system.
use real_estate_robot.Base.{◌≡◌, refl, arith}
use real_estate_robot.Base.Values.{Result, ok, err}
use real_estate_robot.Runtime.Env.{World, M}
use real_estate_robot.Parser.Worker.Transactions.{Transacted, rolled_back, committed}

-- A transaction whose begin, commit and rollback always work.
abbrev end_transaction : World → Result (Unit {0}) × World → Result (Unit {0}) × World
end_transaction w (ok a, v) = (ok tt, v)
end_transaction w (err e, v) = (err e, record v { db = w.db })

abbrev pub begin_func : M (Unit {0}) → M (Unit {0})
begin_func body w = end_transaction w (body w)

ended :
    (body : M (Unit {0})) (w : World) (after : Result (Unit {0}) × World)
    → body w ≡ after
    → Transacted body w (end_transaction w after)
ended body w (ok a, v) e = committed w.ticks v.ticks (ground arith) refl (ground arith)
ended body w (err x, v) e = rolled_back x w.ticks v.ticks refl (ground arith)

pub atomic : (body : M (Unit {0})) (w : World) → Transacted body w (begin_func body w)
atomic body w = ended body w (body w) refl

ended_ok :
    (w : World) (after : Result (Unit {0}) × World)
    → after.0 ≡ ok tt
    → (end_transaction w after).0 ≡ ok tt
ended_ok w (ok a, v) e = refl
ended_ok w (err x, v) e = ground arith

pub commits :
    (body : M (Unit {0})) (w : World)
    → ((v : World) → (body v).0 ≡ ok tt)
    → (begin_func body w).0 ≡ ok tt
commits body w h = ended_ok w (body w) (h w)
