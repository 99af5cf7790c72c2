-- ===== src/Connections.antt =====
-- Opening and closing what a command talks to: Connect of internal/db/db.go, NewPublisher and Close of
-- internal/queue/publisher.go, and the client of internal/httpc/client.go. What amqp and pgxpool
-- answer is a parameter.
pub mod Closing
pub mod Workers
use real_estate_robot.Base.{ℕ, leb, Option, none, some, List, [], ◌∷◌, if◌then◌else◌}
use real_estate_robot.Base.Int.{pos, leb_ℤ}
use real_estate_robot.Base.Values.{Duration, Error, message, Result, ok, err, wrap}

pub data Part : Type 0 where
  pool connection channel : Part

-- The result of a constructor, with what it opened and what it closed again.
pub record Opening (A : Type 0) : Type 0 where
  pub result : Result A
  pub opened : List Part
  pub closed : List Part

-- the pool's settings, in connections and nanoseconds
pub record PoolConfig : Type 0 where
  pub max_conns : ℕ
  pub min_conns : ℕ
  pub max_conn_idle_time : ℕ
  pub max_conn_lifetime : ℕ

abbrev pub pool_config : PoolConfig
pool_config = record {
  max_conns = 10;
  min_conns = 1;
  max_conn_idle_time = 300_000_000_000;
  max_conn_lifetime = 3_600_000_000_000;
}

-- ParseConfig, NewWithConfig and Ping
pub record Pooling : Type 0 where
  pub parse : Option Error
  pub create : Option Error
  pub ping : Option Error

unfoldable pub connect : Pooling → Opening PoolConfig
connect p = elim p.parse [
  | some e ↦ record { result = err (wrap "parse pg url" e); opened = []; closed = [] }
  | none ↦ elim p.create [
    | some e ↦ record { result = err (wrap "create pool" e); opened = []; closed = [] }
    | none ↦ elim p.ping [
      | some e ↦ record { result = err (wrap "ping pg" e); opened = pool ∷ []; closed = pool ∷ [] }
      | none ↦ record { result = ok pool_config; opened = pool ∷ []; closed = [] }
    ]
  ]
]

-- amqp.Dial, conn.Channel and ch.Confirm
pub record Confirming : Type 0 where
  pub dial : Option Error
  pub open_channel : Option Error
  pub confirm : Option Error

-- on success the goroutine of watchReturns runs, until the channel is closed
unfoldable pub new_publisher : Confirming → Opening (Unit {0})
new_publisher c = elim c.dial [
  | some e ↦ record { result = err (wrap "dial amqp" e); opened = []; closed = [] }
  | none ↦ elim c.open_channel [
    | some e ↦ record {
      result = err (wrap "open channel" e);
      opened = connection ∷ [];
      closed = connection ∷ [];
    }
    | none ↦ elim c.confirm [
      | some e ↦ record {
        result = err (wrap "put channel into confirm mode" e);
        opened = connection ∷ channel ∷ [];
        closed = channel ∷ connection ∷ [];
      }
      | none ↦ record { result = ok tt; opened = connection ∷ channel ∷ []; closed = [] }
    ]
  ]
]

-- http.Client as New builds it, in nanoseconds
pub record Client : Type 0 where
  pub timeout : Duration
  pub dial_timeout : ℕ
  pub keep_alive : ℕ
  pub tls_handshake_timeout : ℕ
  pub response_header_timeout : ℕ
  pub idle_conn_timeout : ℕ
  pub max_idle_conns : ℕ
  pub max_idle_conns_per_host : ℕ

unfoldable pub new_client : Duration → Client
new_client per_request_timeout = record {
  timeout = (if leb_ℤ per_request_timeout (pos 0) then pos 30_000_000_000 else per_request_timeout);
  dial_timeout = 10_000_000_000;
  keep_alive = 30_000_000_000;
  tls_handshake_timeout = 10_000_000_000;
  response_header_timeout = 30_000_000_000;
  idle_conn_timeout = 90_000_000_000;
  max_idle_conns = 20;
  max_idle_conns_per_host = 10;
}

-- CheckRedirect, from the number of requests made so far
unfoldable pub check_redirect : ℕ → Option Error
check_redirect via = if leb 5 via then some (message "too many redirects") else none
