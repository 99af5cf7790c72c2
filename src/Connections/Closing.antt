-- ===== src/Connections/Closing.antt =====
-- That an error of a constructor leaves nothing open.
use mathlib.Core.List.{reverse}
use real_estate_robot.Base.{◌≡◌, [], arith}
use real_estate_robot.Base.Values.{ok, err}
use real_estate_robot.Connections.{Opening, Pooling, connect, Confirming, new_publisher}

-- With an error, all that was opened was closed, in reverse order; without one, nothing was.
abbrev pub IsClosed : {A : Type 0} → Opening A → Type 0
IsClosed o = elim o.result [ err e ↦ o.closed ≡ reverse o.opened | ok _ ↦ o.closed ≡ [] ]

-- Connect and NewPublisher close what they opened, in reverse order, on every error, and nothing on
-- success.
pub connect-new_publisher-IsClosed :
    (p : Pooling) (c : Confirming) → IsClosed (connect p) × IsClosed (new_publisher c)
unfolding connect new_publisher
connect-new_publisher-IsClosed p c = (ground arith, ground arith)
