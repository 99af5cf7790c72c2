-- ===== src/Runtime/Env.antt =====
-- The environment of a worker process, as a parameter, and the state that its effects change.
use real_estate_robot.Base.{
  ℕ, suc, String, ◌≡◌, refl, ◌⊎◌, inl, inr, Bool, Option, none, some, List, [], take, length, leb,
  if◌then◌else◌, ◌*◌,
}
use real_estate_robot.Base.Values.{Bytes, Time, Error, Result, ok, err}
use real_estate_robot.Storage.Rows.{Db, Serials, no_rows_yet}

-- amqp.Publishing with the exchange and routing key that it is published to.
pub record Message : Type 0 where
  pub exchange : String
  pub routing_key : String
  pub mandatory : Bool
  pub persistent : Bool
  pub content_type : String
  pub message_id : String
  pub timestamp : Time
  pub headers : List (String × String)
  pub body : Bytes

-- What becomes of PublishWithDeferredConfirmWithContext and of the confirm's WaitContext: no
-- message sent; sent, and the wait for the confirm fails; sent, and nacked or acked by the broker.
pub data PublishReply : Type 0 where
  rejected : Error → PublishReply
  unconfirmed : Error → PublishReply
  nacked : PublishReply
  acked : PublishReply

-- What becomes of a statement or a commit: done; refused, with no effect; or done with its reply
-- lost, which the program cannot tell from refused.
pub data DbReply : Type 0 where
  done : DbReply
  refused : Error → DbReply
  lost : Error → DbReply

pub DbReply-cases :
    (r : DbReply) → (r ≡ done) ⊎ ((e : Error) × (r ≡ refused e)) ⊎ ((e : Error) × (r ≡ lost e))
DbReply-cases done = inl refl
DbReply-cases (refused e) = inr (inl (e, refl))
DbReply-cases (lost e) = inr (inr (e, refl))

pub Result-cases {ℓ} :
    {A : Type ℓ} (r : Result A) → ((a : A) × (r ≡ ok a)) ⊎ ((e : Error) × (r ≡ err e))
Result-cases (ok a) = inl (a, refl)
Result-cases (err e) = inr (e, refl)

-- http.Request as the workers build it.
pub record Request : Type 0 where
  pub url : String
  pub headers : List (String × String)

-- A body as a reader meets it: bytes, and the error that ends them, if one does.
pub record Stream : Type 0 where
  pub bytes : Bytes
  pub fault : Option Error

pub record Response : Type 0 where
  pub status : ℕ
  pub headers : Option (List (String × String))
  pub body : Stream

-- The n-th external call of a worker meets the n-th answer of each kind, so the answers may change
-- at every call in any way.
pub record Env : Type 0 where
  pub clock : ℕ → Time  -- time.Now()
  pub db_clock : ℕ → Time  -- NOW()
  pub new_id : ℕ → String  -- uuid.NewString()
  pub broker : ℕ → PublishReply
  pub database : ℕ → DbReply
  pub limiter : ℕ → Option Error  -- rate.Limiter.Wait
  pub http : ℕ → Request → Result Response  -- http.Client.Do
  pub bad_url : String → Option Error  -- the error of http.NewRequestWithContext

pub record World : Type 0 where
  pub db : Db
  pub serials : Serials
  pub sent : List Message  -- handed to the broker
  pub confirmed : List Message  -- acknowledged by the broker
  pub requested : List Request  -- HTTP requests made
  pub ticks : ℕ  -- external calls made

abbrev pub start : World
start = record {
  db = no_rows_yet;
  serials = record { seller = 0; listing = 0; snapshot = 0; fetch = 0 };
  sent = [];
  confirmed = [];
  requested = [];
  ticks = 0;
}

abbrev pub tick : World → World
tick w = record w { ticks = suc w.ticks }

-- Code that reads and changes the world and may return an error. What was done before an error
-- stays done.
abbrev pub M : Type 0 → Type 0
M A = World → Result A × World

abbrev pub continue : {A B : Type 0} → Result A → (A → M B) → M B
continue (ok a) f w = f a w
continue (err e) f w = (err e, w)

infixl 5 ◌>>=◌ ◌>>◌
abbrev pub ◌>>=◌ : {A B : Type 0} → M A → (A → M B) → M B
◌>>=◌ m f w = continue (m w).0 f (m w).1

abbrev pub ◌>>◌ : {A B : Type 0} → M A → M B → M B
m >> k = m >>= λ _. k

abbrev pub pure : {A : Type 0} → A → M A
pure a w = (ok a, w)

abbrev pub raise : {A : Type 0} → Error → M A
raise e w = (err e, w)

abbrev pub lift : {A : Type 0} → Result A → M A
lift r w = (r, w)

-- fmt.Errorf("context: %w", err) on the error of a call
abbrev pub rewrap : {A : Type 0} → (Error → Error) → Result A → Result A
rewrap f (ok a) = ok a
rewrap f (err e) = err (f e)

abbrev pub wrapping : {A : Type 0} → (Error → Error) → M A → M A
wrapping f m w = (rewrap f (m w).0, (m w).1)

-- io.ReadAll(io.LimitReader(body, n)): an error behind the first n bytes is not met
unfoldable pub read_limited : ℕ → Stream → Result Bytes
read_limited n s =
    if leb n (length s.bytes)
    then ok (take n s.bytes)
    else elim s.fault [ none ↦ ok s.bytes | some e ↦ err e ]

abbrev pub max_bytes : ℕ
max_bytes = 10 * 1024 * 1024
