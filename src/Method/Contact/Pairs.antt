-- ===== src/Method/Contact/Pairs.antt =====
-- handlers/method/contact.rs: what a request of friendship changes, and one request for each pair.
use mathlib.Core.Path.{subst}
use zenth_dht.Prelude.{
  any-counted, ℕ, ◌+◌, ◌≡◌, refl, sym, ◌∙◌, inl, inr, Bool-cases, Option-cases, Bool, true, false,
  List, [], ◌∷◌, ◌++◌, some, Bytes, bytes_eq, bytes_eq_comm, any, any-update_where, update_where,
  Distinct, Distinct-append, arith,
}
use zenth_dht.Models.{Db, User, FriendRequestModel}
use zenth_dht.Crypto.{verify_dilithium_signature}
use zenth_dht.Server.{DbResult, Env, Readings, World, ◌>>=◌, body, sql}
use zenth_dht.Server.Rules.{on_act, on_reject, on_row, on_sql, on_give, on_if}
use zenth_dht.Method.Users.{first_row_found, find_user}
use zenth_dht.Method.Contact.{
  FriendRequest, Answer, contact_signed_data, is_between, refreshed, new_request, insert_request,
  is_asked_before, select_request_count, replace_request, notify_friend_request, store_request,
  put_request, contact,
}

-- Both users exist and are two, and the requester's identity key has signed the request.
pub record MayAsk (env : Env) (req : FriendRequest) (db : Db) : Type 0 where
  pub requester : User
  pub target : User
  pub requester_found : find_user req.requester_hash_id db ≡ some requester
  pub target_found : find_user req.target_hash_id db ≡ some target
  pub two : bytes_eq req.requester_hash_id req.target_hash_id ≡ false
  pub signed :
      verify_dilithium_signature env.dilithium requester.identity_key_dilithium
        (contact_signed_data req)
        req.dilithium_signature
      ≡ true

abbrev pub updated_requests : FriendRequest → List FriendRequestModel → List FriendRequestModel
updated_requests req =
    update_where (is_between req.requester_hash_id req.target_hash_id) (refreshed req)

-- What a request may do to the database: nothing but draw a number, update the request of the pair,
-- or append it where the pair has none.
pub data Asks (env : Env) (at : Readings) (req : FriendRequest) (db : Db) (r : Answer) (db' : Db)
    : Type 0 where
  declined :
      r.success ≡ false
      → record db' { next_friend_request = db.next_friend_request } ≡ db
      → Asks env at req db r db'
  repeated :
      MayAsk env req db
      → any (is_between req.requester_hash_id req.target_hash_id) db.friend_requests ≡ true
      → r.success ≡ true
      → db' ≡ record db { friend_requests = updated_requests req db.friend_requests }
      → Asks env at req db r db'
  asked :
      MayAsk env req db
      → any (is_between req.requester_hash_id req.target_hash_id) db.friend_requests ≡ false
      → r.success ≡ true
      → db' ≡ record db {
        friend_requests = db.friend_requests ++ new_request at req db.next_friend_request ∷ [];
        next_friend_request = db.next_friend_request + 1;
      }
      → Asks env at req db r db'

abbrev pub ContactOutcome : Env → Readings → FriendRequest → Db → Answer × World → Type 0
ContactOutcome env at req db (r, w') = Asks env at req db r w'.db

module _ (env : Env) (encode : FriendRequest → Bytes) (at : Readings) (req : FriendRequest) where
  notify-db : (w : World) → (notify_friend_request env encode at req w).1.db ≡ w.db
  unfolding notify_friend_request
  notify-db w = elim (Option-cases w.manager) [
    | inl unset ↦ rw (unset, notify_friend_request) refl
    | inr (m, set) ↦ rw (set, notify_friend_request) refl
  ]

  store_outcome :
      (w : World) (n : ℕ)
      → MayAsk env req w.db
      → ContactOutcome env at req w.db
          (body (store_request env encode at req) (record w { statements = n }))
  unfolding store_request insert_request
  store_outcome w n may =
      let P = ContactOutcome env at req w.db in
      on_sql P env _ _ _
        (λ x broken.
          on_row P _ _ _ _ _ (λ q. declined refl refl) (λ y q. declined refl refl) λ a q. cc)
        λ sound.
          elim (Bool-cases
            (any (is_between req.requester_hash_id req.target_hash_id) w.db.friend_requests)) [
              | inl taken ↦
                  rw (taken, insert_request)
                    (on_row P _ _ _ _ _ (λ q. declined refl refl) (λ y q. declined refl refl)
                      λ a q. cc)
              | inr free ↦
                  rw (free, insert_request)
                    (on_row P _ _ _ _ _ (λ q. cc) (λ y q. cc)
                      λ a q. on_act P _ _ _ (on_give P _ _ (asked may free refl (notify-db _))))
            ]

  put_outcome :
      (w : World) (n : ℕ) (existing : DbResult ℕ)
      → MayAsk env req w.db
      → (is_asked_before existing ≡ true
          → any (is_between req.requester_hash_id req.target_hash_id) w.db.friend_requests ≡ true)
      → ContactOutcome env at req w.db
          (body (put_request env encode at req existing) (record w { statements = n }))
  unfolding put_request replace_request
  put_outcome w n existing may asked_before =
      let P = ContactOutcome env at req w.db in
      on_if P (is_asked_before existing) _ _ _
        (λ before.
          on_sql P env _ _ _ (λ x broken. on_give P _ _ (declined refl refl))
            λ sound. on_give P _ _ (repeated may (asked_before before) refl refl))
        λ first. store_outcome w n may

  decide :
      (w : World) (n : ℕ)
      → MayAsk env req w.db
      → ContactOutcome env at req w.db (
          body
            (sql env (select_request_count req.requester_hash_id req.target_hash_id)
              >>= put_request env encode at req)
            (record w { statements = n }))
  unfolding is_asked_before
  decide w n may =
      on_sql (ContactOutcome env at req w.db) env _ _ _
        (λ x broken. put_outcome w _ _ may (λ e. ground arith))
        λ sound. put_outcome w _ _ may (λ e.
          any-counted (is_between req.requester_hash_id req.target_hash_id) w.db.friend_requests
            (ground arith))

  -- A request succeeds only if both users exist, are two, and the requester's identity key has signed
  -- it. It then replaces what the pair's request says, or is appended if the pair has none; nothing
  -- else changes. A request that fails changes no row.
  pub contact_outcome : (w : World) → ContactOutcome env at req w.db (contact env encode at req w)
  unfolding contact
  contact_outcome w =
      let P = ContactOutcome env at req w.db in
      on_reject P _ _ _ w (λ e. declined refl refl)
        λ a.
          on_reject P _ _ _ w (λ e. declined refl refl)
            λ b.
              on_reject P _ _ _ w (λ e. declined refl refl)
                λ c.
                  on_reject P _ _ _ w (λ e. declined refl refl)
                    λ d.
                      on_reject P _ _ _ w (λ e. declined refl refl)
                        λ two.
                          on_reject P _ _ _ w (λ e. declined refl refl)
                            λ f.
                              on_reject P _ _ _ w (λ e. declined refl refl)
                                λ g.
                                  on_sql P env _ _ w
                                    (λ x broken.
                                      on_row P _ _ _ _ _ (λ q. declined refl refl)
                                        (λ y q. declined refl refl) λ u q. cc)
                                    λ sound.
                                      on_row P _ _ _ _ _ (λ q. declined refl refl)
                                        (λ y q. declined refl refl)
                                        λ requester q.
                                          on_sql P env _ _ _
                                            (λ x broken.
                                              on_row P _ _ _ _ _ (λ q. declined refl refl)
                                                (λ y q. declined refl refl) λ u q. cc)
                                            λ sound'.
                                              on_row P _ _ _ _ _ (λ q. declined refl refl)
                                                (λ y q. declined refl refl)
                                                λ target q'.
                                                  on_reject P _ _ _ _ (λ e. declined refl refl)
                                                    λ signed. decide w _ (record {
                                                      requester = requester;
                                                      target = target;
                                                      requester_found =
                                                          first_row_found _ requester q;
                                                      target_found = first_row_found _ target q';
                                                      two = two;
                                                      signed = ground arith;
                                                    })

-- Two requests are of the same pair, in the same direction.
abbrev pub same_pair : FriendRequestModel → FriendRequestModel → Bool
same_pair r = is_between r.requester_hash_id r.target_hash_id

pub same_pair_comm : (r s : FriendRequestModel) → same_pair r s ≡ same_pair s r
same_pair_comm r s = ground (
  arith,
  bytes_eq_comm s.requester_hash_id r.requester_hash_id,
  bytes_eq_comm s.target_hash_id r.target_hash_id,
)

Distinct-updated_requests :
    (req : FriendRequest) (rows : List FriendRequestModel)
    → Distinct same_pair rows
    → Distinct same_pair (updated_requests req rows)
Distinct-updated_requests req [] h = tt
Distinct-updated_requests req (r ∷ rows) h =
    elim (Bool-cases (is_between req.requester_hash_id req.target_hash_id r)) [
      | inl same ↦ rw same (kept, Distinct-updated_requests req rows h.1)
      | inr other ↦ rw other (kept, Distinct-updated_requests req rows h.1)
    ]
  where
    kept : any (is_between r.requester_hash_id r.target_hash_id) (updated_requests req rows) ≡ false
    kept =
        any-update_where (is_between r.requester_hash_id r.target_hash_id)
          (is_between req.requester_hash_id req.target_hash_id) (refreshed req) rows (λ x. refl)
        ∙ h.0

-- However users ask and ask again, the table never holds two requests of one user to one other.
pub contact-Distinct :
    (env : Env) (encode : FriendRequest → Bytes) (at : Readings) (req : FriendRequest) (w : World)
    → Distinct same_pair w.db.friend_requests
    → Distinct same_pair (contact env encode at req w).1.db.friend_requests
contact-Distinct env encode at req w h = elim (contact_outcome env encode at req w) [
  | declined _ same ↦ subst (λ (d : Db). Distinct same_pair d.friend_requests) (sym same) h
  | repeated _ _ _ changed ↦
      subst (λ (d : Db). Distinct same_pair d.friend_requests) (sym changed)
        (Distinct-updated_requests req w.db.friend_requests h)
  | asked _ free _ changed ↦
      subst (λ (d : Db). Distinct same_pair d.friend_requests) (sym changed)
        (Distinct-append same_pair same_pair_comm w.db.friend_requests
          (new_request at req w.db.next_friend_request) free h)
]
