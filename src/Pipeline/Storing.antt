-- ===== src/Pipeline/Storing.antt =====
-- The parser's transaction and its handler in the system.
use Prim.Native.String.{◌++◌ as append}
use real_estate_robot.Base.{
  ◌≡◌, ◌≢◌, refl, sym, subst, ◌∙◌, inl, inr, String, str_eq, eq_iff, ◌||◌, arith, Bool-cases,
  Option-cases,
}
use real_estate_robot.Base.Texts.{append-ne_empty}
use real_estate_robot.Base.Values.{Bytes, Error, Result, ok, wrap}
use real_estate_robot.Storage.Rows.{ListingHtmlFetch}
use real_estate_robot.Runtime.Env.{Env, World, M, wrapping, lift, ◌>>=◌, Result-cases}
use real_estate_robot.Runtime.Actions.{query}
use real_estate_robot.Runtime.Rules.{bind_rule, if_rule, query_rule, rewrap_ok}
use real_estate_robot.Queue.Names.{queue_sellers_enrich}
use real_estate_robot.Queue.Publisher.{publish}
use real_estate_robot.Parser.State.{extract_prerendered_state}
use real_estate_robot.Parser.Page.{
  Parsed, Reading, Prerendered, parsed_state, hash_fragment, is_zero_id, fallback_parse,
  parse_state, parse,
}
use real_estate_robot.Parser.Worker.{find_fetch, save, store, digest, handle}
use real_estate_robot.Parser.Worker.Transactions.{
  Transacted, not_begun, rolled_back, committed, unanswered, save-sent,
}
use real_estate_robot.Pipeline.{Wire, enrich, IsSound}
use real_estate_robot.Pipeline.Sellers.{HasSeller}
use real_estate_robot.Pipeline.Parsing.{drawn-IsSound}
use real_estate_robot.Pipeline.Sending.{publish-IsSound}
use real_estate_robot.Pipeline.Saving.{save-IsSound, save-serials, save-HasSeller}

module _ (wire : Wire) (env : Env) (reading : Reading) where
  stub_prefix : ◌≢◌ {A = String} "stub-user-" ""
  stub_prefix e = ground (arith, eq_iff "stub-user-" "")

  fallback_parse-named :
      (url : String) (html : Bytes) (e : Error) (res : Parsed)
      → fallback_parse reading url html e ≡ ok res
      → res.seller.olx_user_id ≢ ""
  unfolding fallback_parse
  fallback_parse-named url html e res h = elim (Result-cases (reading.first_title html)) [
    | inl (title, t) ↦
        let key : append "stub-user-" (hash_fragment reading url) ≡ res.seller.olx_user_id =
          ground arith in
        λ k. append-ne_empty "stub-user-" _ stub_prefix (key ∙ k)
    | inr (x, t) ↦ absurd (ground arith)
  ]

  parse_state-named :
      (p : Prerendered) (res : Parsed)
      → parse_state reading p ≡ ok res
      → res.seller.olx_user_id ≢ ""
  unfolding parse_state parsed_state
  parse_state-named p res h = elim (Bool-cases (is_zero_id p.ad.id || str_eq p.ad.user.uuid "")) [
    | inl bad ↦ absurd (ground arith)
    | inr fine ↦ λ k. ground (arith, eq_iff p.ad.user.uuid "")
  ]

  -- Every page that is accepted names its seller.
  pub parse-names_seller :
      (url : String) (html : Bytes) (res : Parsed)
      → parse reading url html ≡ ok res
      → res.seller.olx_user_id ≢ ""
  unfolding parse
  parse-names_seller url html res h =
      elim (Result-cases (extract_prerendered_state reading.decode_string html)) [
        | inr (e, x) ↦ fallback_parse-named url html e res (ground arith)
        | inl (state, x) ↦ elim (Result-cases (reading.decode_state state)) [
          | inr (e, y) ↦ absurd (ground arith)
          | inl (p, y) ↦ parse_state-named p res (ground arith)
        ]
      ]

  module _ (begin_func : M (Unit {0}) → M (Unit {0}))
      (atomic : (body : M (Unit {0})) (w : World) → Transacted body w (begin_func body w)) where
    Transacted-IsSound :
        (res : Parsed) (w : World) {after : Result (Unit {0}) × World}
        → Transacted (save env reading wire.parser res) w after
        → IsSound wire w
        → IsSound wire after.1
    Transacted-IsSound res w (not_begun e n o x) s = subst (IsSound wire) (sym x) s
    Transacted-IsSound res w (rolled_back e m n o x) s =
        let v : World = record w { ticks = m } in
        let (sellers, listings, fetches) = save-serials wire env reading res v in
        subst (IsSound wire) (sym x) (
          rw (save-sent env reading wire.parser res v)
            (drawn-IsSound wire w.db w.serials _ w.sent sellers listings fetches s))
    Transacted-IsSound res w (committed m n f o x) s =
        subst (IsSound wire) (sym x) (save-IsSound wire env reading res (record w { ticks = m }) s)
    Transacted-IsSound res w (unanswered e m n f o x) s =
        subst (IsSound wire) (sym x) (save-IsSound wire env reading res (record w { ticks = m }) s)

    -- A transaction that succeeds has given the seller a row.
    Transacted-HasSeller :
        (res : Parsed) (w : World) {after : Result (Unit {0}) × World}
        → Transacted (save env reading wire.parser res) w after
        → after.0 ≡ ok tt
        → HasSeller res.seller.olx_user_id after.1.db.sellers
    Transacted-HasSeller res w (not_begun e n o x) h = ground arith
    Transacted-HasSeller res w (rolled_back e m n o x) h = ground arith
    Transacted-HasSeller res w (committed m n f o x) h =
        subst (λ v. HasSeller res.seller.olx_user_id v.db.sellers) (sym x)
          (save-HasSeller wire env reading res (record w { ticks = m }) f)
    Transacted-HasSeller res w (unanswered e m n f o x) h = ground arith

    store-IsSound :
        (res : Parsed) (w : World)
        → res.seller.olx_user_id ≢ ""
        → IsSound wire w
        → IsSound wire (store env reading wire.parser begin_func res w).1
    unfolding store
    store-IsSound res w named s =
        let end = atomic (save env reading wire.parser res) w in
        let kept = Transacted-IsSound res w end s in
        bind_rule (IsSound wire) (begin_func (save env reading wire.parser res))
          (λ _.
            wrapping (wrap "publish enrich task")
              (publish env queue_sellers_enrich (wire.parser.encode_next res.seller.olx_user_id)))
          w kept
          λ _ o.
            publish-IsSound wire env queue_sellers_enrich _ _
              (enrich res.seller.olx_user_id named (Transacted-HasSeller res w end o) refl refl)
              kept

    digest-IsSound :
        (url : String) (row : ListingHtmlFetch) (w : World)
        → IsSound wire w
        → IsSound wire (digest env reading wire.parser begin_func url row w).1
    unfolding digest
    digest-IsSound url row w s = elim (Option-cases row.html) [
      | inl h ↦
          let same : digest env reading wire.parser begin_func url row w ≡ (ok tt, w) =
            ground arith in
          rw same s
      | inr (html, h) ↦
          let parsing : M Parsed = wrapping (wrap "parse") (lift (parse reading url html)) in
          let same : digest env reading wire.parser begin_func url row w
              ≡ (parsing >>= store env reading wire.parser begin_func) w =
            ground arith in
          rw same (
            bind_rule (IsSound wire) parsing (store env reading wire.parser begin_func) w s λ res o.
              store-IsSound res w (parse-names_seller url html res (rewrap_ok _ _ res o)) s)
    ]

    -- Whatever body it is given, the parser keeps what the parts keep together.
    pub handle-IsSound :
        (body : Bytes) (w : World)
        → IsSound wire w
        → IsSound wire (handle env reading wire.parser begin_func body w).1
    unfolding handle
    handle-IsSound body w s =
        bind_rule (IsSound wire)
          (wrapping (wrap "decode task") (lift (wire.parser.decode_task body))) _ w s
          λ task o.
            if_rule (IsSound wire) (is_zero_id task.fetch_id) _ _ w (λ zero'. s)
              λ named.
                bind_rule (IsSound wire)
                  (wrapping (wrap "load fetch row") (query env (find_fetch task.fetch_id))) _ w
                  (query_rule (IsSound wire) env (find_fetch task.fetch_id) w s)
                  λ row o'.
                    digest-IsSound task.url row _
                      (query_rule (IsSound wire) env (find_fetch task.fetch_id) w s)
