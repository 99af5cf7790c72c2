-- ===== src/Fetcher/Requests.antt =====
-- The request of a download, and what it leaves as it was.
use real_estate_robot.Base.{
  ℕ, String, [], ◌∷◌, ◌++◌, ◌≡◌, ◌≢◌, inl, inr, none, some, arith, Option-cases,
}
use real_estate_robot.Base.Values.{Error, ok, err}
use real_estate_robot.Runtime.Env.{Env, World, Response, Result-cases, read_limited, max_bytes}
use real_estate_robot.Fetcher.{Config, Json, Fetched, get_request, received, insert, fetch, store}
use real_estate_robot.Queue.Publisher.{publish, publishing}

module _ (env : Env) (cfg : Config) where
  -- What a download of a URL makes of the answer to its request, the k-th external call: no request
  -- for a URL that does not parse, and else one GET of the URL; an error where there is no answer or
  -- its body breaks off within the first ten megabytes; and else the answer's status and headers
  -- and these bytes of its body.
  pub data Met (url : String) (k : ℕ) (w : World) (f : Fetched) (v : World) : Type 0 where
    unrequested :
        (e : Error)
        → env.bad_url url ≡ some e
        → f.error ≢ none
        → v.requested ≡ w.requested
        → Met url k w f v
    unanswered :
        (e : Error)
        → env.http k (get_request cfg.user_agent url) ≡ err e
        → f.error ≢ none
        → v.requested ≡ w.requested ++ get_request cfg.user_agent url ∷ []
        → Met url k w f v
    cut_off :
        (resp : Response) (e : Error)
        → env.http k (get_request cfg.user_agent url) ≡ ok resp
        → read_limited max_bytes resp.body ≡ err e
        → f.error ≢ none
        → v.requested ≡ w.requested ++ get_request cfg.user_agent url ∷ []
        → Met url k w f v
    answered :
        (resp : Response)
        → env.http k (get_request cfg.user_agent url) ≡ ok resp
        → read_limited max_bytes resp.body ≡ ok f.body
        → f.status ≡ resp.status
        → f.headers ≡ resp.headers
        → f.error ≡ none
        → v.requested ≡ w.requested ++ get_request cfg.user_agent url ∷ []
        → Met url k w f v

module _ (env : Env) (cfg : Config) (json : Json) where
  pub fetch-db : (url : String) (w : World) → (fetch env cfg json url w).1.db ≡ w.db
  unfolding fetch
  fetch-db url w = ground arith

  pub fetch-serials : (url : String) (w : World) → (fetch env cfg json url w).1.serials ≡ w.serials
  unfolding fetch
  fetch-serials url w = ground arith

  pub fetch-sent : (url : String) (w : World) → (fetch env cfg json url w).1.sent ≡ w.sent
  unfolding fetch
  fetch-sent url w = ground arith

  pub fetch-confirmed :
      (url : String) (w : World) → (fetch env cfg json url w).1.confirmed ≡ w.confirmed
  unfolding fetch
  fetch-confirmed url w = ground arith

  pub fetch-Met :
      (url : String) (x w : World)
      → x.requested ≡ w.requested
      → Met env cfg url x.ticks w (fetch env cfg json url x).0 (fetch env cfg json url x).1
  unfolding fetch received
  fetch-Met url x w h = elim (Option-cases (env.bad_url url)) [
    | inr (e, b) ↦ unrequested e b (λ n. ground arith) (ground arith)
    | inl b ↦ elim (Result-cases (env.http x.ticks (get_request cfg.user_agent url))) [
      | inr (e, r) ↦ unanswered e r (λ n. ground arith) (ground arith)
      | inl (resp, r) ↦ elim (Result-cases (read_limited max_bytes resp.body)) [
        | inr (e, l) ↦ cut_off resp e r l (λ n. ground arith) (ground arith)
        | inl (html, l) ↦
            answered resp r (ground arith) (ground arith) (ground arith) (ground arith)
              (ground arith)
      ]
    ]
  ]

  pub store-requested :
      (url : String) (f : Fetched) (w : World)
      → (store env cfg json url f w).1.requested ≡ w.requested
  unfolding store insert publish publishing
  store-requested url f w = ground arith
