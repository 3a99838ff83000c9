-- ===== src/Method/Delete/Completeness.antt =====
-- handlers/method/delete.rs: what is left of a user after the deletion of the account.
use zenth_dht.Prelude.{
  ℕ, ◌+◌, ◌≡◌, refl, sym, ap, ◌∙◌, ◌⊎◌, inl, inr, Bool, true, false, not, ◌&&◌, List, [], ◌∷◌,
  Option-cases, some, String, Bytes, retain, retain_same, retain-retain, arith,
}
use zenth_dht.Models.{Db, User, FriendRequestModel}
use zenth_dht.Crypto.{verify_dilithium_signature}
use zenth_dht.Timestamp.{is_timestamp_fresh}
use zenth_dht.Server.{
  DbResult, ok, DbError, Message, with_error, Result, done, failed, Env, Readings, World, next,
  return, Handler, ◌>>=◌, act, ◌>>◌, body, row_or, sql, statement,
}
use zenth_dht.Server.Rules.{
  on_reject, on_act, on_row, on_sql, on_give, on_next, on_return, stored, counted,
}
use zenth_dht.Method.Users.{first_row_found, ok_injective, find_user, is_user}
use zenth_dht.Method.Delete.{
  DeleteRequest, DeleteResponse, involves, request_ids, answers_any, is_message_of, delete_requests,
  delete_messages, delete_sessions, delete_challenges, delete_user, is_session_of, is_challenge_of,
  is_prekey_of, disconnect, delete_signed_data, is_failure, failure_reply, or_fail, delete_rows,
  delete_responses_to, delete_user_data, delete_account,
}

-- The database without anything of the user: the rows of every table that do not refer to the user.
abbrev pub erased : Bytes → Db → Db
erased hash db = record db {
  users = retain (λ u. not (is_user hash u)) db.users;
  auth_challenges = retain (λ c. not (is_challenge_of hash c)) db.auth_challenges;
  sessions = retain (λ s. not (is_session_of hash s)) db.sessions;
  friend_requests = retain (λ r. not (involves hash r)) db.friend_requests;
  friend_responses =
      retain (λ r. not (answers_any (request_ids hash db.friend_requests) r)) db.friend_responses;
  one_time_prekeys = retain (λ k. not (is_prekey_of hash k)) db.one_time_prekeys;
  messages = retain (λ m. not (is_message_of hash m)) db.messages;
}

-- A row that a filter has dropped does not come back under the same filter.
retain_twice : {A : Type 0} (p : A → Bool) (xs : List A) → retain p (retain p xs) ≡ retain p xs
retain_twice p xs = retain-retain p p xs ∙ retain_same (λ x. p x && p x) p xs (λ x. ground arith)

retain_all : {A : Type 0} (p : A → Bool) (xs : List A) → ((x : A) → p x ≡ true) → retain p xs ≡ xs
retain_all p [] h = refl
retain_all p (x ∷ xs) h = ground (arith, h x, retain_all p xs h)

-- No request of the user is left once they are deleted, so the cascade finds no response.
request_ids-retain :
    (hash : Bytes) (rows : List FriendRequestModel)
    → request_ids hash (retain (λ r. not (involves hash r)) rows) ≡ []
request_ids-retain hash [] = refl
request_ids-retain hash (r ∷ rows) = ground (arith, request_ids-retain hash rows)

abbrev without_responses : List ℕ → Db → Db
without_responses ids db = record db {
  friend_responses = retain (λ r. not (answers_any ids r)) db.friend_responses;
}

-- The database after the statements that follow the deletion of the responses.
abbrev swept : Bytes → Db → Db
swept hash db =
    (delete_user hash
      (delete_challenges hash
        (delete_sessions hash (delete_messages hash (delete_requests hash db).1).1).1).1).1

swept-without_responses :
    (hash : Bytes) (db : Db)
    → swept hash (without_responses (request_ids hash db.friend_requests) db) ≡ erased hash db
swept-without_responses hash db =
    rw
      (
        retain_twice (λ c. not (is_challenge_of hash c)) db.auth_challenges,
        retain_twice (λ s. not (is_session_of hash s)) db.sessions,
        retain_twice (λ r. not (involves hash r)) db.friend_requests,
        request_ids-retain hash db.friend_requests,
        retain_twice (λ r. not (answers_any (request_ids hash db.friend_requests) r))
            db.friend_responses,
        retain_all (λ r. not (answers_any [] r))
            (retain (λ r. not (answers_any (request_ids hash db.friend_requests) r))
              db.friend_responses)
            (λ x. refl),
      )
      refl

abbrev DataOutcome : Bytes → Db → Result (Unit {0}) × World → Type 0
DataOutcome hash db (r, w') =
    ((is_failure r ≡ true) × (w'.db.users ≡ db.users))
    ⊎ ((is_failure r ≡ false) × (w'.db ≡ erased hash db))

module _ (env : Env) (at : Readings) where
  -- The step that may be skipped removes the responses, or ends the deletion before anything else.
  responses_removed :
      (ids : List ℕ) (w : World)
      → ((n : ℕ) × delete_responses_to env at ids w
            ≡ (next tt, record w { db = without_responses ids w.db; statements = n }))
        ⊎ ((m : Message) × (n : ℕ) × delete_responses_to env at ids w
              ≡ (return (failed m), record w { statements = n }))
  unfolding delete_responses_to act ◌>>=◌ statement row_or
  responses_removed [] w = inl (
    w.statements,
    rw (retain_all (λ r. not (answers_any [] r)) w.db.friend_responses (λ x. refl)) refl,
  )
  responses_removed (id ∷ ids) w = elim (Option-cases (env.fault w.statements)) [
    | inl sound ↦ inl (w.statements + 1, rw (sound, statement) refl)
    | inr (e, broken) ↦ inr (
      with_error "Failed to delete friend responses: {}" e,
      w.statements + 1,
      rw (broken, statement) refl,
    )
  ]

  -- One `DELETE` with its `?`: the deletion ends there, or goes on with the table changed.
  on_delete :
      (P : Result (Unit {0}) × World → Type 0) (q : Db → DbResult (Unit {0}) × Db) (m : String)
      (f : Handler (Result (Unit {0})) (Result (Unit {0}))) (w : World)
      → (q w.db).0 ≡ ok tt
      → ((e : DbError) → P (failed (with_error m e), counted w))
      → P (body f (stored w (q w.db).1))
      → P (body (sql env q >>= λ r. or_fail m r >> f) w)
  on_delete P q m f w answers ends goes_on =
      on_sql P env _ _ w (λ x broken. on_row P _ _ _ _ _ (λ r. cc) (λ y r. ends y) λ a r. cc)
        λ sound. on_row P _ _ _ _ _ (λ r. cc) (λ y r. cc) λ a r. goes_on

  rows_outcome :
      (hash : Bytes) (db : Db) (w : World)
      → w.db.users ≡ db.users
      → swept hash w.db ≡ erased hash db
      → DataOutcome hash db (body (delete_rows env at hash) w)
  unfolding delete_rows
  rows_outcome hash db w same all =
      let P = DataOutcome hash db in
      on_delete P _ _ _ w refl (λ e. inl (refl, same))
        (on_delete P _ _ _ _ refl (λ e. inl (refl, same))
          (on_delete P _ _ _ _ refl (λ e. inl (refl, same))
            (on_delete P _ _ _ _ refl (λ e. inl (refl, same))
              (on_delete P _ _ _ _ refl (λ e. inl (refl, same))
                (on_give P _ _ (inr (refl, all)))))))

  data_outcome : (hash : Bytes) (w : World) → DataOutcome hash w.db (delete_user_data env at hash w)
  unfolding delete_user_data
  data_outcome hash w =
      let P = DataOutcome hash w.db in
      on_sql P env _ _ w
        (λ x broken. on_row P _ _ _ _ _ (λ q. inl (refl, refl)) (λ y q. inl (refl, refl)) λ a q. cc)
        λ sound.
          on_row P _ _ _ _ _ (λ q. inl (refl, refl)) (λ y q. inl (refl, refl))
            λ ids q. elim (responses_removed ids (stored w w.db)) [
              | inr (m, n, ended) ↦ on_return P _ _ _ _ (failed m) ended (inl (refl, refl))
              | inl (n, removed) ↦ on_next P _ _ _ _ tt removed (
                  rows_outcome hash w.db _ refl (
                    ap (λ i. swept hash (without_responses i w.db)) (sym (ok_injective _ ids q))
                    ∙ swept-without_responses hash w.db))
            ]

abbrev pub is_deleted : Result DeleteResponse → Bool
is_deleted (failed m) = false
is_deleted (done r) = r.success

-- The request is fresh, and the user's identity key has signed it.
pub record MayDelete (env : Env) (at : Readings) (req : DeleteRequest) (db : Db) : Type 0 where
  pub user : User
  pub found : find_user req.user_hash_id db ≡ some user
  pub fresh : is_timestamp_fresh at.unix_secs req.timestamp ≡ true
  pub signed :
      verify_dilithium_signature env.dilithium user.identity_key_dilithium
        (delete_signed_data req)
        req.dilithium_signature
      ≡ true

abbrev pub DeleteOutcome :
    Env → Readings → DeleteRequest → Db → Result DeleteResponse × World → Type 0
DeleteOutcome env at req db (r, w') =
    ((is_deleted r ≡ false) × (w'.db.users ≡ db.users))
    ⊎ (MayDelete env at req db × (is_deleted r ≡ true) × (w'.db ≡ erased req.user_hash_id db))

is_deleted-failure_reply : (r : Result (Unit {0})) → is_deleted (failure_reply r) ≡ false
is_deleted-failure_reply (done n) = refl
is_deleted-failure_reply (failed m) = refl

disconnect-db : (hash : Bytes) (w : World) → (disconnect hash w).1.db ≡ w.db
unfolding disconnect
disconnect-db hash w = elim (Option-cases w.manager) [
  | inl unset ↦ rw (unset, disconnect) refl
  | inr (m, set) ↦ rw (set, disconnect) refl
]

-- A deletion that reports success was fresh and signed by the user's identity key, and leaves exactly
-- the rows that do not refer to the user: none of the user's challenges, sessions, requests, responses
-- to these, prekeys and messages is left, and nothing else has changed. A deletion that does not report
-- success leaves every user.
pub delete_account_outcome :
    (env : Env) (at : Readings) (req : DeleteRequest) (w : World)
    → DeleteOutcome env at req w.db (delete_account env at req w)
unfolding delete_account
delete_account_outcome env at req w =
    let P = DeleteOutcome env at req w.db in
    on_reject P _ _ _ w (λ e. inl (refl, refl))
      λ sized.
        on_reject P _ _ _ w (λ e. inl (refl, refl))
          λ sealed.
            on_reject P _ _ _ w (λ e. inl (refl, refl))
              λ fresh.
                on_sql P env _ _ w
                  (λ x broken.
                    on_row P _ _ _ _ _ (λ q. inl (refl, refl)) (λ y q. inl (refl, refl)) λ a q. cc)
                  λ sound.
                    on_row P _ _ _ _ _ (λ q. inl (refl, refl)) (λ y q. inl (refl, refl))
                      λ user q.
                        on_reject P _ _ _ _ (λ e. inl (refl, refl))
                          λ signed.
                            let outcome = data_outcome env at req.user_hash_id (stored w w.db) in
                            on_act P _ _ _ (
                              on_reject P _ _ _ _
                                (λ bad. elim outcome [
                                  | inl (ended, same) ↦ inl (is_deleted-failure_reply _, same)
                                  | inr (finished, all) ↦ cc
                                ])
                                λ good. on_act P _ _ _ (
                                  on_give P _ _ (elim outcome [
                                    | inl (ended, same) ↦ cc
                                    | inr (finished, all) ↦ inr (
                                      record {
                                        user = user;
                                        found = first_row_found _ user q;
                                        fresh = ground arith;
                                        signed = ground arith;
                                      },
                                      refl,
                                      disconnect-db req.user_hash_id _ ∙ all,
                                    )
                                  ])))
