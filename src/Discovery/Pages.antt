-- ===== src/Discovery/Pages.antt =====
-- Pagination: which page a run asks for next, and that a search comes to its end.
use real_estate_robot.Base.{
  ℕ, zero, suc, ◌+◌, ◌≤◌, ◌<◌, String, ◌≡◌, refl, sym, ◌∙◌, inl, inr, Bool, true, false, List, [],
  ◌∷◌, ◌++◌, arith, In, In-append, append_cancel_left, eq_iff, ap, subst, if◌then◌else◌, append-nil,
}
use real_estate_robot.Base.Int.{ℤ, pos, ◌+ℤ◌, ltb_ℤ, pos_part}
use real_estate_robot.Base.Values.{Bytes, Result, ok}
use real_estate_robot.Runtime.Env.{Env, World}
use real_estate_robot.Queue.Names.{queue_listings_discover, queue_listings_fetch}
use real_estate_robot.Queue.Publisher.Batch.{letters}
use real_estate_robot.Discovery.{Task, Config, Json, Web, page_of, handle}
use real_estate_robot.Discovery.Walks.{
  next_letters, fetch_letters, Spread, complete, partial, Walked, unread, read, Explored, rejected,
  capped, walked, handle-Explored,
}

In-if : {A : Type 0} (b : Bool) (a m : A) → In a (if b then m ∷ [] else []) → (m ≡ a) × (b ≡ true)
In-if true a m (inl e) = (e, refl)
In-if true a m (inr h) = absurd h
In-if false a m h = absurd h

module _ (web : Web) (env : Env) (cfg : Config) (json : Json) where
  abbrev follower : Task → Task
  follower task = record {
    search_url = task.search_url;
    page = page_of web env cfg json task +ℤ pos 1;
  }

  -- The body is the task of the page behind `page`, and that page is not behind the cap.
  abbrev pub IsNext : String → ℤ → Bytes → Type 0
  IsNext search_url page body =
      (body ≡ json.encode_task (record { search_url = search_url; page = page +ℤ pos 1 }))
      × (ltb_ℤ page cfg.max_page ≡ true)

  abbrev pub asking : Bytes → String × Bytes
  asking body = (queue_listings_discover, body)

  not-In-fetch_letters :
      (urls : List String) (body : Bytes) → ¬ In (asking body) (fetch_letters web env cfg json urls)
  not-In-fetch_letters [] body h = h
  not-In-fetch_letters (u ∷ urls) body (inl e) =
      ground (arith, eq_iff queue_listings_fetch queue_listings_discover)
  not-In-fetch_letters (u ∷ urls) body (inr h) = not-In-fetch_letters urls body h

  In-next_letters :
      (search_url : String) (page : ℤ) (urls : List String) (body : Bytes)
      → In (asking body) (next_letters web env cfg json search_url page urls)
      → IsNext search_url page body
  In-next_letters search_url page [] body h = absurd h
  In-next_letters search_url page (u ∷ urls) body h =
      let (same, more) = In-if (ltb_ℤ page cfg.max_page) _ _ h in (ap (λ l. l.1) (sym same), more)

  Spread-IsNext :
      (search_url : String) (page : ℤ) (urls : List String) (w : World)
      (after : Result (Unit {0}) × World) (new : List (String × Bytes)) (body : Bytes)
      → Spread web env cfg json search_url page urls w after
      → letters after.1.confirmed ≡ letters w.confirmed ++ new
      → In (asking body) new
      → IsNext search_url page body
  Spread-IsNext search_url page urls w after new body (complete o c) e h =
      let same : new
          ≡ fetch_letters web env cfg json urls
            ++ next_letters web env cfg json search_url page urls =
        append_cancel_left (letters w.confirmed) _ _ (sym e ∙ c) in
      elim (In-append (asking body) (fetch_letters web env cfg json urls) _
        (subst (In (asking body)) same h)) [
          | inl f ↦ absurd (not-In-fetch_letters urls body f)
          | inr n ↦ In-next_letters search_url page urls body n
        ]
  Spread-IsNext search_url page urls w after new body (partial x sent left s o c) e h =
      let same : new ≡ fetch_letters web env cfg json sent =
        append_cancel_left (letters w.confirmed) _ _ (sym e ∙ c) in
      absurd (not-In-fetch_letters sent body (subst (In (asking body)) same h))

  no_news :
      (w : World) (after : Result (Unit {0}) × World) {new : List (String × Bytes)}
      → letters after.1.confirmed ≡ letters w.confirmed
      → letters after.1.confirmed ≡ letters w.confirmed ++ new
      → new ≡ []
  no_news w after c e =
      append_cancel_left (letters w.confirmed) _ []
        (sym e ∙ c ∙ sym (append-nil (letters w.confirmed)))

  Walked-IsNext :
      (search_url : String) (page : ℤ) (w : World) (after : Result (Unit {0}) × World)
      (new : List (String × Bytes)) (body : Bytes)
      → Walked web env cfg json search_url page w after
      → letters after.1.confirmed ≡ letters w.confirmed ++ new
      → In (asking body) new
      → IsNext search_url page body
  Walked-IsNext search_url page w after new body (unread x o s c) e h =
      absurd (subst (In (asking body)) (no_news w after (ap letters c) e) h)
  Walked-IsNext search_url page w after new body (read page_url urls v b f same s) e h =
      Spread-IsNext search_url page urls v after new body s (e ∙ ap (λ t. t ++ new) (sym same)) h

  Explored-IsNext :
      (task : Task) (body : Bytes) (w : World) (after : Result (Unit {0}) × World)
      (new : List (String × Bytes)) (next : Bytes)
      → json.decode_task body ≡ ok task
      → Explored web env cfg json body w after
      → letters after.1.confirmed ≡ letters w.confirmed ++ new
      → In (asking next) new
      → IsNext task.search_url (page_of web env cfg json task) next
  Explored-IsNext task body w after new next d (rejected x a) e h =
      absurd (subst (In (asking next)) (no_news w after (ap (λ t. letters t.1.confirmed) a) e) h)
  Explored-IsNext task body w after new next d (capped t d' over a) e h =
      absurd (subst (In (asking next)) (no_news w after (ap (λ t. letters t.1.confirmed) a) e) h)
  Explored-IsNext task body w after new next d (walked t d' named below s) e h =
      let same : t ≡ task = ground arith in
      subst (λ t. IsNext t.search_url (page_of web env cfg json t) next) same
        (Walked-IsNext t.search_url (page_of web env cfg json t) w after new next s e h)

  -- Among the messages that a run confirms, one for the discovery queue is the task of the same
  -- search and the next page, and the page of the run is below the cap.
  pub handle-IsNext :
      (task : Task) (body : Bytes) (w : World) (new : List (String × Bytes)) (next : Bytes)
      → json.decode_task body ≡ ok task
      → letters (handle web env cfg json body w).1.confirmed ≡ letters w.confirmed ++ new
      → In (asking next) new
      → IsNext task.search_url (page_of web env cfg json task) next
  handle-IsNext task body w new next d e h =
      Explored-IsNext task body w (handle web env cfg json body w) new next d
        (handle-Explored web env cfg json body w) e h

  -- A chain of discovery runs, each on the body of a message that the one before it confirmed.
  pub data Chain : Task → ℕ → Type 0 where
    last : (task : Task) → Chain task zero
    link :
        {task task' : Task} {n : ℕ} (w : World) (body next : Bytes) (new : List (String × Bytes))
        → json.decode_task body ≡ ok task
        → letters (handle web env cfg json body w).1.confirmed ≡ letters w.confirmed ++ new
        → In (asking next) new
        → json.decode_task next ≡ ok task'
        → Chain task' n
        → Chain task (suc n)

  module _ (m : ℕ) (cap : cfg.max_page ≡ pos m) (search_url : String)
      (faithful : (page : ℤ)
        → json.decode_task (json.encode_task (record { search_url = search_url; page = page }))
          ≡ ok (record { search_url = search_url; page = page })) where
    abbrev pub page_number : Task → ℕ
    page_number task = pos_part (page_of web env cfg json task)

    page_grows :
        (task task' : Task) (next : Bytes)
        → task.search_url ≡ search_url
        → IsNext task.search_url (page_of web env cfg json task) next
        → json.decode_task next ≡ ok task'
        → (task'.search_url ≡ search_url)
          × (page_number task' ≡ page_number task + 1)
          × (page_number task < m)
    page_grows task task' next same (b, more) d =
        ground (arith, faithful (page_of web env cfg json task +ℤ pos 1))

    -- Where the worker's JSON for the tasks of a search decodes to those tasks, the search asks for
    -- no page behind the cap: a chain of runs from its page p has at most m - p links, whatever the
    -- pages hold, where m is the cap.
    pub Chain-le-max_page :
        (n : ℕ) (task : Task)
        → task.search_url ≡ search_url
        → Chain task (suc n)
        → page_number task + suc n ≤ m
    Chain-le-max_page zero task s (link {task' = task'} w body next new d e h d' c) =
        let (kept, grows, below) =
          page_grows task task' next s (handle-IsNext task body w new next d e h) d' in
        omega arith
    Chain-le-max_page (suc n) task s (link {task' = task'} w body next new d e h d' c) =
        let (kept, grows, below) =
          page_grows task task' next s (handle-IsNext task body w new next d e h) d' in
        omega (arith, Chain-le-max_page n task' kept c)
