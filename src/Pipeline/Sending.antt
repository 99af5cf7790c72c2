-- ===== src/Pipeline/Sending.antt =====
-- Messages handed to the broker, and the statements that leave the messages as they are.
use real_estate_robot.Base.{
  String, ◌≡◌, refl, sym, subst, ◌∙◌, List, [], ◌∷◌, ◌++◌, arith, All, All-append,
}
use real_estate_robot.Base.Values.{Bytes, Result}
use real_estate_robot.Storage.Rows.{Db}
use real_estate_robot.Runtime.Env.{Env, World, Message}
use real_estate_robot.Queue.Publisher.{
  publish, publish_dead, work_message, Publishes, delivered, dropped, unsure, publish-Publishes,
  publish_dead-Publishes,
}
use real_estate_robot.Queue.Publisher.Batch.{publish_each}
use real_estate_robot.Pipeline.{Wire, IsWork, given_up, IsConsistent, IsSound}

module _ (wire : Wire) where
  -- One more message that is work.
  pub send-IsSound :
      (m : Message) (w : World)
      → IsWork wire w.db m
      → IsSound wire w
      → IsConsistent wire w.db w.serials (w.sent ++ m ∷ [])
  send-IsSound m w k s = record {
    keyed = s.keyed;
    sellers_numbered = s.sellers_numbered;
    listings_numbered = s.listings_numbered;
    owned = s.owned;
    captured = s.captured;
    unique = s.unique;
    fetches_numbered = s.fetches_numbered;
    workable = All-append (IsWork wire w.db) w.sent (m ∷ []) s.workable (k, tt);
  }

  pub Publishes-IsSound :
      (m : Message) (w : World) {after : Result (Unit {0}) × World}
      → Publishes m w after
      → IsWork wire w.db m
      → IsSound wire w
      → IsSound wire after.1
  Publishes-IsSound m w (delivered o e) k s = subst (IsSound wire) (sym e) (send-IsSound m w k s)
  Publishes-IsSound m w (dropped x o e) k s = subst (IsSound wire) (sym e) s
  Publishes-IsSound m w (unsure x o e) k s = subst (IsSound wire) (sym e) (send-IsSound m w k s)

  module _ (env : Env) where
    pub publish-IsSound :
        (q : String) (body : Bytes) (w : World)
        → IsWork wire w.db (work_message env q body w)
        → IsSound wire w
        → IsSound wire (publish env q body w).1
    publish-IsSound q body w = Publishes-IsSound _ w (publish-Publishes env q body w)

    pub publish_dead-IsSound :
        (q : String) (body : Bytes) (reason : String) (w : World)
        → IsSound wire w
        → IsSound wire (publish_dead env q body reason w).1
    publish_dead-IsSound q body reason w =
        Publishes-IsSound _ w (publish_dead-Publishes env q body reason w) (given_up refl)

    -- What a loop of publications needs of each URL: that its message is work, whenever it is sent.
    abbrev pub AreWork : Db → String → (String → Bytes) → List String → Type 0
    AreWork db queue encode urls =
        All (λ u. (v : World) → IsWork wire db (work_message env queue (encode u) v)) urls

    publish_step :
        (queue : String) (encode : String → Bytes) (u : String) (urls : List String) (w : World)
        {after : Result (Unit {0}) × World}
        → publish env queue (encode u) w ≡ after
        → Publishes (work_message env queue (encode u) w) w after
        → ((v : World)
            → v.db ≡ w.db
            → IsSound wire v
            → IsSound wire (publish_each env queue encode urls v).1)
        → IsSound wire after.1
        → IsSound wire (publish_each env queue encode (u ∷ urls) w).1
    publish_step queue encode u urls w {after} p (delivered o e) next s =
        let same : publish_each env queue encode (u ∷ urls) w
            ≡ publish_each env queue encode urls after.1 =
          (unfold publish_each in ground arith) in
        rw same (next after.1 (ground arith) s)
    publish_step queue encode u urls w {after} p (dropped x o e) next s =
        let same : (publish_each env queue encode (u ∷ urls) w).1 ≡ after.1 =
          (unfold publish_each in ground arith) in
        rw same s
    publish_step queue encode u urls w {after} p (unsure x o e) next s =
        let same : (publish_each env queue encode (u ∷ urls) w).1 ≡ after.1 =
          (unfold publish_each in ground arith) in
        rw same s

    pub publish_each-IsSound :
        (queue : String) (encode : String → Bytes) (db : Db) (urls : List String) (w : World)
        → w.db ≡ db
        → AreWork db queue encode urls
        → IsSound wire w
        → IsSound wire (publish_each env queue encode urls w).1
    publish_each-IsSound queue encode db [] w same k s = unfold publish_each in s
    publish_each-IsSound queue encode db (u ∷ urls) w same k s =
        publish_step queue encode u urls w refl (publish-Publishes env queue (encode u) w)
          (λ v e. publish_each-IsSound queue encode db urls v (e ∙ same) k.1)
          (publish-IsSound queue (encode u) w
            (subst (λ d. IsWork wire d (work_message env queue (encode u) w)) (sym same) (k.0 w)) s)
