-- ===== src/Method/Prekeys/Delivery.antt =====
-- handlers/method/fetch_prekey_bundle.rs: which one-time prekey a bundle carries, and that requests
-- served one after the other never get the same one.
use mathlib.Core.Path.{subst}
use mathlib.Core.Option.{some-injective}
use zenth_dht.Prelude.{
  ℕ, ◌≡◌, ◌≢◌, refl, sym, ap, ◌∙◌, ◌⊎◌, inl, inr, true, List, [], ◌∷◌, Option, none, some, Bytes,
  retain, All, All-retain, retain-All, All-order_by, order_by, ◌==◌, arith, if◌then◌else◌,
}
use zenth_dht.Models.{Db, User, OneTimePrekey}
use zenth_dht.Crypto.{verify_dilithium_signature}
use zenth_dht.Server.{Result, done, failed, Env, Readings, World, body}
use zenth_dht.Server.Rules.{on_reject, on_row, on_sql, on_give}
use zenth_dht.Method.Users.{first_row_found, find_user, ok_injective}
use zenth_dht.Method.Prekeys.{
  PreKeyBundle, FetchPreKeyBundleRequest, FetchPreKeyBundleResponse, with_prekey,
  bundle_signed_data, consume, hand_out, deliver, fetch_prekey_bundle,
}
use zenth_dht.Method.Prekeys.Table.{first_of, is_unused_of, next_unused, mark_used}

abbrev pub delivered : Result FetchPreKeyBundleResponse → Option PreKeyBundle
delivered (failed m) = none
delivered (done r) = if r.success then r.bundle else none

-- The bundle `b` of the target was delivered with the next unused prekey, which was used up, or bare
-- where the target has none left.
pub data Delivers (b : PreKeyBundle) (target : Bytes) (db : Db)
    (r : Result FetchPreKeyBundleResponse) (db' : Db) : Type 0 where
  bare :
      next_unused target db.one_time_prekeys ≡ none
      → delivered r ≡ some b
      → db' ≡ db
      → Delivers b target db r db'
  with_one :
      (k : OneTimePrekey)
      → next_unused target db.one_time_prekeys ≡ some k
      → delivered r ≡ some (with_prekey b k)
      → db' ≡ record db { one_time_prekeys = mark_used k.id db.one_time_prekeys }
      → Delivers b target db r db'

-- Who asked, and what was delivered.
pub record IsDelivery (env : Env) (decode_bundle : Bytes → Option PreKeyBundle)
    (req : FetchPreKeyBundleRequest) (db : Db) (r : Result FetchPreKeyBundleResponse) (db' : Db)
    : Type 0 where
  pub requester : User
  pub target : User
  pub bundle : PreKeyBundle
  pub requester_found : find_user req.requester_hash db ≡ some requester
  pub signed :
      verify_dilithium_signature env.dilithium requester.identity_key_dilithium
        (bundle_signed_data req)
        req.auth_signature
      ≡ true
  pub target_found : find_user req.target_hash db ≡ some target
  pub decoded : decode_bundle target.pre_key_bundle ≡ some bundle
  pub delivers : Delivers bundle req.target_hash db r db'

abbrev pub FetchOutcome :
    Env
    → (Bytes → Option PreKeyBundle)
    → FetchPreKeyBundleRequest
    → Db
    → Result FetchPreKeyBundleResponse × World
    → Type 0
FetchOutcome env decode_bundle req db (r, w') =
    ((delivered r ≡ none) × (w'.db ≡ db)) ⊎ IsDelivery env decode_bundle req db r w'.db

module _ (env : Env) (decode_bundle : Bytes → Option PreKeyBundle) (at : Readings)
    (req : FetchPreKeyBundleRequest) (db : Db) (requester : User)
    (requester_found : find_user req.requester_hash db ≡ some requester)
    (signed : verify_dilithium_signature env.dilithium requester.identity_key_dilithium
        (bundle_signed_data req)
        req.auth_signature
      ≡ true)
    (target : User) (target_found : find_user req.target_hash db ≡ some target) where
  delivery :
      (b : PreKeyBundle) (r : Result FetchPreKeyBundleResponse) (db' : Db)
      → decode_bundle target.pre_key_bundle ≡ some b
      → Delivers b req.target_hash db r db'
      → IsDelivery env decode_bundle req db r db'
  delivery b r db' decoded d = record {
    requester = requester;
    target = target;
    bundle = b;
    requester_found = requester_found;
    signed = signed;
    target_found = target_found;
    decoded = decoded;
    delivers = d;
  }

  consume_outcome :
      (b : PreKeyBundle) (o : Option OneTimePrekey) (w : World)
      → w.db ≡ db
      → decode_bundle target.pre_key_bundle ≡ some b
      → next_unused req.target_hash db.one_time_prekeys ≡ o
      → FetchOutcome env decode_bundle req db (body (consume env decode_bundle at b o) w)
  unfolding consume
  consume_outcome b none w same decoded next =
      on_give (FetchOutcome env decode_bundle req db) _ _
        (inr (delivery b _ w.db decoded (bare next refl same)))
  consume_outcome b (some k) w same decoded next =
      let P = FetchOutcome env decode_bundle req db in
      on_sql P env _ _ w
        (λ err broken. on_row P _ _ _ _ _ (λ e. cc) (λ x e. inl (refl, same)) λ u e. cc)
        λ sound.
          on_row P _ _ _ _ _ (λ e. cc) (λ x e. cc)
            λ u e. on_give P _ _ (
              inr (
                delivery b _ _ decoded (
                  with_one k next refl (
                    ap
                      (λ (d : Db). record d {
                        one_time_prekeys = mark_used k.id d.one_time_prekeys;
                      })
                      same))))

  deliver_outcome :
      (o : Option PreKeyBundle) (w : World)
      → w.db ≡ db
      → decode_bundle target.pre_key_bundle ≡ o
      → FetchOutcome env decode_bundle req db
          (body (deliver env decode_bundle at req.target_hash o) w)
  unfolding deliver hand_out
  deliver_outcome none w same decoded =
      on_give (FetchOutcome env decode_bundle req db) _ _ (inl (refl, same))
  deliver_outcome (some b) w same decoded =
      let P = FetchOutcome env decode_bundle req db in
      on_sql P env _ _ w
        (λ err broken. on_row P _ _ _ _ _ (λ e. cc) (λ x e. inl (refl, same)) λ u e. cc)
        λ sound.
          on_row P _ _ _ _ _ (λ e. cc) (λ x e. cc)
            λ o e. consume_outcome b o _ same decoded (
              ap (λ (d : Db). next_unused req.target_hash d.one_time_prekeys) (sym same)
              ∙ ok_injective _ o e)

-- A fetch either delivers no bundle and changes nothing, or the requester exists and has signed the
-- request, and the target's own bundle is delivered: with the unused prekey of the target that has
-- the least serial number, which is marked as used and with it nothing else, or with no prekey if the
-- target has none left.
pub fetch_prekey_bundle_outcome :
    (env : Env) (decode_bundle : Bytes → Option PreKeyBundle) (at : Readings)
    (req : FetchPreKeyBundleRequest) (w : World)
    → FetchOutcome env decode_bundle req w.db (fetch_prekey_bundle env decode_bundle at req w)
unfolding fetch_prekey_bundle
fetch_prekey_bundle_outcome env decode_bundle at req w =
    let P = FetchOutcome env decode_bundle req w.db in
    on_reject P _ _ _ w (λ e. inl (refl, refl))
      λ a.
        on_reject P _ _ _ w (λ e. inl (refl, refl))
          λ b.
            on_reject P _ _ _ w (λ e. inl (refl, refl))
              λ c.
                on_sql P env _ _ w
                  (λ err broken. on_row P _ _ _ _ _ (λ e. cc) (λ x e. inl (refl, refl)) λ u e. cc)
                  λ sound.
                    on_row P _ _ _ _ _ (λ e. inl (refl, refl)) (λ x e. inl (refl, refl))
                      λ requester e.
                        on_reject P _ _ _ _ (λ e. inl (refl, refl))
                          λ signed.
                            on_sql P env _ _ _
                              (λ err broken.
                                on_row P _ _ _ _ _ (λ e. cc) (λ x e. inl (refl, refl)) λ u e. cc)
                              λ sound.
                                on_row P _ _ _ _ _ (λ e. inl (refl, refl)) (λ x e. inl (refl, refl))
                                  λ target e'.
                                    deliver_outcome env decode_bundle at req w.db requester
                                      (first_row_found _ requester e) (ground arith) target
                                      (first_row_found _ target e') _ _ refl refl

-- What is next for a user is unused, and stands in the table.
next_unused_fact {κ} :
    (P : OneTimePrekey → Type κ) (hash : Bytes) (rows : List OneTimePrekey) (k : OneTimePrekey)
    → All P (retain (is_unused_of hash) rows)
    → next_unused hash rows ≡ some k
    → P k
unfolding next_unused
next_unused_fact P hash rows k all e =
    head_fact (order_by (λ x. x.id) (retain (is_unused_of hash) rows))
      (All-order_by (λ (x : OneTimePrekey). x.id) P (retain (is_unused_of hash) rows) all) e
  where
    head_fact : (xs : List OneTimePrekey) → All P xs → first_of xs ≡ some k → P k
    head_fact [] h q = cc
    head_fact (x ∷ xs) h q = subst P (some-injective x k q) h.0

pub next_unused-unused :
    (hash : Bytes) (rows : List OneTimePrekey) (k : OneTimePrekey)
    → next_unused hash rows ≡ some k
    → is_unused_of hash k ≡ true
next_unused-unused hash rows k e =
    next_unused_fact (λ x. is_unused_of hash x ≡ true) hash rows k
      (retain-All (is_unused_of hash) rows) e

-- After a row is marked, no row of its serial number is unused.
pub marked-All :
    (id : ℕ) (rows : List OneTimePrekey)
    → All (λ x. (x.id == id) ≡ true → x.used ≡ true) (mark_used id rows)
unfolding mark_used
marked-All id [] = tt
marked-All id (x ∷ rows) = (ground arith, marked-All id rows)

pub mark_used_gone :
    (hash : Bytes) (id : ℕ) (rows : List OneTimePrekey) (k : OneTimePrekey)
    → next_unused hash (mark_used id rows) ≡ some k
    → k.id ≢ id
mark_used_gone hash id rows k e same =
    let used : (k.id == id) ≡ true → k.used ≡ true =
      next_unused_fact (λ x. (x.id == id) ≡ true → x.used ≡ true) hash (mark_used id rows) k
        (All-retain _ (is_unused_of hash) (mark_used id rows) (marked-All id rows)) e in
    ground (arith, used, next_unused-unused hash (mark_used id rows) k e, same)

-- Served one after the other, two requests never get the same one-time prekey: if a prekey was next
-- for the first target and a bundle was delivered, what is next afterwards, for any user, is another.
pub fetch_prekey_bundle_once :
    (env : Env) (decode_bundle : Bytes → Option PreKeyBundle) (at : Readings)
    (req : FetchPreKeyBundleRequest) (w : World) (hash : Bytes) (k k' : OneTimePrekey)
    → let (r, w') = fetch_prekey_bundle env decode_bundle at req w in
      delivered r ≢ none
      → next_unused req.target_hash w.db.one_time_prekeys ≡ some k
      → next_unused hash w'.db.one_time_prekeys ≡ some k'
      → k'.id ≢ k.id
fetch_prekey_bundle_once env decode_bundle at req w hash k k' served first second =
    elim (fetch_prekey_bundle_outcome env decode_bundle at req w) [
      | inl (refused, _) ↦ absurd (served refused)
      | inr d ↦ elim d.delivers [
        | bare next _ _ ↦ cc (next, first)
        | with_one x next _ changed ↦ λ same.
            mark_used_gone hash x.id w.db.one_time_prekeys k'
              (ap (λ (d : Db). next_unused hash d.one_time_prekeys) (sym changed) ∙ second)
              (same ∙ ap (λ (y : OneTimePrekey). y.id) (some-injective k x (sym first ∙ next)))
      ]
    ]
