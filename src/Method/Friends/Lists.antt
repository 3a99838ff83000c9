-- ===== src/Method/Friends/Lists.antt =====
-- handlers/method/fetch_friend_requests.rs, fetch_friend_response.rs and fetch_my_accepted.rs: who is
-- shown a list, and that a request of contact.rs is on the list of its target.
use mathlib.Core.Path.{subst}
use zenth_dht.Prelude.{
  ◌-◌, ◌^◌, ◌≡◌, refl, sym, ap, ◌∙◌, ◌⊎◌, inl, inr, Bool, true, ◌&&◌, List, [], ◌∷◌, ◌++◌, map,
  Option, none, some, Bytes, bytes_eq, bytes_eq_refl, any, any-order_by, any-update_where, retain,
  arith,
}
use zenth_dht.Models.{Db, User, FriendRequestModel, NaiveDateTime}
use zenth_dht.Crypto.{verify_dilithium_signature}
use zenth_dht.Server.{ok, Result, done, failed, Env, Readings, World, body}
use zenth_dht.Server.Rules.{on_reject, on_row, on_sql, on_give}
use zenth_dht.Method.Users.{first_row_found, ok_injective, find_user}
use zenth_dht.Method.Inbox.{rank}
use zenth_dht.Method.Contact.{FriendRequest, is_between, refreshed, new_request, contact}
use zenth_dht.Method.Contact.Pairs.{declined, repeated, asked, contact_outcome}
use zenth_dht.Method.Friends.{
  FetchRequest, FetchResponse, ListTexts, list_signed_data, is_newer, requests_to, to_request,
  responses_to, to_response, accepted_by, fetch_list, fetch_friend_requests, fetch_friend_responses,
  fetch_my_accepted,
}

-- The user has signed the request.
pub record MayList (env : Env) (req : FetchRequest) (db : Db) : Type 0 where
  pub user : User
  pub found : find_user req.user_hash db ≡ some user
  pub signed :
      verify_dilithium_signature env.dilithium user.identity_key_dilithium
        (list_signed_data req)
        req.dilithium_signature
      ≡ true

abbrev pub listed : {A : Type 0} → Result (FetchResponse A) → Option (List A)
listed (failed m) = none
listed (done r) = some r.rows

abbrev pub ListOutcome :
    {A : Type 0} → Env → FetchRequest → Db → List A → Result (FetchResponse A) × World → Type 0
ListOutcome env req db rows (r, w') =
    (w'.db ≡ db) × ((listed r ≡ none) ⊎ (MayList env req db × (listed r ≡ some rows)))

fetch_list_outcome :
    {A : Type 0} (env : Env) (at : Readings) (texts : ListTexts) (req : FetchRequest)
    (rows : Db → List A) (w : World)
    → ListOutcome env req w.db
        (rows w.db)
        (body (fetch_list env at texts (λ db. (ok (rows db), db)) req) w)
unfolding fetch_list
fetch_list_outcome env at texts req rows w =
    let P = ListOutcome env req w.db (rows w.db) in
    on_reject P _ _ _ w (λ e. (refl, inl refl))
      λ sealed.
        on_sql P env _ _ w
          (λ x broken.
            on_row P _ _ _ _ _ (λ q. (refl, inl refl)) (λ y q. (refl, inl refl)) λ a q. cc)
          λ sound.
            on_row P _ _ _ _ _ (λ q. (refl, inl refl)) (λ y q. (refl, inl refl))
              λ user q.
                on_reject P _ _ _ _ (λ bad. (refl, inl refl))
                  λ signed.
                    on_sql P env _ _ _
                      (λ x broken.
                        on_row P _ _ _ _ _ (λ q'. (refl, inl refl)) (λ y q'. (refl, inl refl))
                          λ a q'. cc)
                      λ sound'.
                        on_row P _ _ _ _ _ (λ q'. (refl, inl refl)) (λ y q'. (refl, inl refl))
                          λ found q'. on_give P _ _ (
                            refl,
                            inr (
                              record {
                                user = user;
                                found = first_row_found _ user q;
                                signed = ground arith;
                              },
                              ap some (sym (ok_injective _ found q')),
                            ),
                          )

-- The three lists change nothing, and are shown only to a request that the user's identity key has
-- signed: the requests to the user, the answers to the user's requests, and the requests that the
-- user has accepted.
pub fetch_lists_outcome :
    (env : Env) (at : Readings) (latest : NaiveDateTime) (req : FetchRequest) (w : World)
    → ListOutcome env req w.db
        (map to_request (requests_to req.user_hash req.since_timestamp w.db.friend_requests))
        (fetch_friend_requests env at req w)
      × ListOutcome env req w.db
          (map to_response
            (responses_to latest req.user_hash req.since_timestamp w.db.friend_responses))
          (fetch_friend_responses env at latest req w)
      × ListOutcome env req w.db
          (accepted_by latest req.user_hash req.since_timestamp w.db.friend_requests
            w.db.friend_responses)
          (fetch_my_accepted env at latest req w)
unfolding fetch_friend_requests fetch_friend_responses fetch_my_accepted
fetch_lists_outcome env at latest req w = (
  on_reject (ListOutcome env req w.db _) _ _ _ w (λ e. (refl, inl refl))
      λ given.
        on_reject (ListOutcome env req w.db _) _ _ _ w (λ e. (refl, inl refl))
          λ sized.
            fetch_list_outcome env at _ req
              (λ db.
                map to_request (requests_to req.user_hash req.since_timestamp db.friend_requests))
              w,
  on_reject (ListOutcome env req w.db _) _ _ _ w (λ e. (refl, inl refl))
      λ sized.
        fetch_list_outcome env at _ req
          (λ db.
            map to_response
              (responses_to latest req.user_hash req.since_timestamp db.friend_responses))
          w,
  on_reject (ListOutcome env req w.db _) _ _ _ w (λ e. (refl, inl refl))
      λ sized.
        fetch_list_outcome env at _ req
          (λ db.
            accepted_by latest req.user_hash req.since_timestamp db.friend_requests
              db.friend_responses)
          w,
)

abbrev pub is_from : Bytes → FriendRequestModel → Bool
is_from requester r = bytes_eq r.requester_hash_id requester

-- A request of the pair is on the target's list.
on_list :
    (requester target : Bytes) (rows : List FriendRequestModel)
    → any (is_between requester target) rows ≡ true
    → any (is_from requester) (requests_to target 0 rows) ≡ true
unfolding requests_to
on_list requester target rows h =
    any-order_by (λ (r : FriendRequestModel). 2 ^ 64 - rank r.timestamp) (is_from requester)
      (retain (λ r. bytes_eq r.target_hash_id target && is_newer 0 r) rows)
    ∙ kept rows h
  where
    kept :
        (xs : List FriendRequestModel)
        → any (is_between requester target) xs ≡ true
        → any
            (is_from requester)
            (retain (λ r. bytes_eq r.target_hash_id target && is_newer 0 r) xs)
          ≡ true
    kept [] h = cc
    kept (x ∷ xs) h = ground (arith, kept xs)

any-last :
    (p : FriendRequestModel → Bool) (xs : List FriendRequestModel) (x : FriendRequestModel)
    → p x ≡ true
    → any p (xs ++ x ∷ []) ≡ true
any-last p [] x h = ground arith
any-last p (y ∷ xs) x h = ground (arith, any-last p xs x h)

-- After a request of friendship that succeeded, the first or a repeated one, the target's list of all
-- requests shows one of the requester.
pub requests_to-contact :
    (env : Env) (encode : FriendRequest → Bytes) (at : Readings) (req : FriendRequest) (w : World)
    → (contact env encode at req w).0.success ≡ true
    → any
        (is_from req.requester_hash_id)
        (requests_to req.target_hash_id 0 (contact env encode at req w).1.db.friend_requests)
      ≡ true
requests_to-contact env encode at req w granted =
    on_list req.requester_hash_id req.target_hash_id _ (elim (contact_outcome env encode at req w) [
      | declined refused _ ↦ absurd (ground (arith, granted, refused))
      | repeated _ before _ changed ↦ subst Holds (sym changed) (
          any-update_where (is_between req.requester_hash_id req.target_hash_id)
            (is_between req.requester_hash_id req.target_hash_id) (refreshed req)
            w.db.friend_requests (λ x. refl)
          ∙ before)
      | asked _ _ _ changed ↦ subst Holds (sym changed) (
          any-last (is_between req.requester_hash_id req.target_hash_id) w.db.friend_requests
            (new_request at req w.db.next_friend_request)
            (ground (arith, bytes_eq_refl req.requester_hash_id, bytes_eq_refl req.target_hash_id)))
    ])
  where
    Holds : Db → Type 0
    Holds d = any (is_between req.requester_hash_id req.target_hash_id) d.friend_requests ≡ true
