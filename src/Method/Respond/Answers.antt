-- ===== src/Method/Respond/Answers.antt =====
-- handlers/method/respond_friend_request.rs: whose answers are stored, and how.
use zenth_dht.Prelude.{
  any, any-counted, uncounted, ◌⊎◌, ℕ, ◌+◌, ◌≡◌, refl, inl, inr, Option-cases, true, false, ◌&&◌,
  [], ◌∷◌, ◌++◌, some, Bytes, is_empty, update_where, arith,
}
use zenth_dht.Models.{Db, User, FriendRequestModel}
use zenth_dht.Crypto.{verify_dilithium_signature}
use zenth_dht.Server.{DbError, DbResult, Env, Readings, World, ◌>>=◌, body, sql}
use zenth_dht.Server.Rules.{on_act, on_reject, on_row, on_sql, on_give, on_if}
use zenth_dht.Method.Users.{first_row_found, find_user}
use zenth_dht.Method.Contact.{Answer, is_asked_before}
use zenth_dht.Method.Respond.{
  FriendResponse, respond_signed_data, find_request, is_answer_to, revised, new_response,
  select_response_count, notify_friend_response, store_response, replace_response, put_response,
  respond_friend_request,
}

-- The requester has asked the responder, whose identity key has signed the answer; an acceptance
-- brings a bundle.
pub record MayAnswer (env : Env) (req : FriendResponse) (db : Db) (request_id : ℕ) : Type 0 where
  pub responder : User
  pub original : FriendRequestModel
  pub found : find_user req.responder_hash_id db ≡ some responder
  pub request : find_request req.requester_hash_id req.responder_hash_id db ≡ some original
  pub same_id : original.id ≡ request_id
  pub bundle : (req.accepted && is_empty req.pre_key_bundle) ≡ false
  pub signed :
      verify_dilithium_signature env.dilithium responder.identity_key_dilithium
        (respond_signed_data req)
        req.dilithium_signature
      ≡ true

-- The table has no answer to the request, or the database has refused to count: the third statement
-- of the handler.
abbrev pub NoneKnown : Env → World → ℕ → Type 0
NoneKnown env w request_id =
    (any (is_answer_to request_id) w.db.friend_responses ≡ false)
    ⊎ ((e : DbError) × (env.fault (w.statements + 1 + 1) ≡ some e))

pub data Answers (env : Env) (at : Readings) (req : FriendResponse) (w : World) (r : Answer)
    (db' : Db) : Type 0 where
  unanswered : r.success ≡ false → db' ≡ w.db → Answers env at req w r db'
  revises :
      (request_id : ℕ)
      → MayAnswer env req w.db request_id
      → any (is_answer_to request_id) w.db.friend_responses ≡ true
      → r.success ≡ true
      → db' ≡ record w.db {
        friend_responses =
            update_where (is_answer_to request_id) (revised req) w.db.friend_responses;
      }
      → Answers env at req w r db'
  answers :
      (request_id : ℕ)
      → MayAnswer env req w.db request_id
      → NoneKnown env w request_id
      → r.success ≡ true
      → db' ≡ record w.db {
        friend_responses =
            w.db.friend_responses ++ new_response at req request_id w.db.next_friend_response ∷ [];
        next_friend_response = w.db.next_friend_response + 1;
      }
      → Answers env at req w r db'

abbrev pub RespondOutcome : Env → Readings → FriendResponse → World → Answer × World → Type 0
RespondOutcome env at req w (r, w') = Answers env at req w r w'.db

module _ (env : Env) (encode : FriendResponse → Bytes) (at : Readings) (req : FriendResponse) where
  notify-db : (w : World) → (notify_friend_response env encode at req w).1.db ≡ w.db
  unfolding notify_friend_response
  notify-db w = elim (Option-cases w.manager) [
    | inl unset ↦ rw (unset, notify_friend_response) refl
    | inr (m, set) ↦ rw (set, notify_friend_response) refl
  ]

  put_outcome :
      (w : World) (n id : ℕ) (existing : DbResult ℕ)
      → MayAnswer env req w.db id
      → (is_asked_before existing ≡ true → any (is_answer_to id) w.db.friend_responses ≡ true)
      → (is_asked_before existing ≡ false → NoneKnown env w id)
      → RespondOutcome env at req w
          (body (put_response env encode at req id existing) (record w { statements = n }))
  unfolding put_response replace_response store_response
  put_outcome w n id existing may answered unanswered_yet =
      let P = RespondOutcome env at req w in
      on_if P (is_asked_before existing) _ _ _
        (λ before.
          on_sql P env _ _ _ (λ x broken. on_give P _ _ (unanswered refl refl))
            λ sound. on_give P _ _ (revises id may (answered before) refl refl))
        λ first.
          on_sql P env _ _ _
            (λ x broken.
              on_row P _ _ _ _ _ (λ q. unanswered refl refl) (λ y q. unanswered refl refl)
                λ a q. cc)
            λ sound.
              on_row P _ _ _ _ _ (λ q. cc) (λ y q. cc)
                λ a q.
                  on_act P _ _ _
                    (on_give P _ _ (answers id may (unanswered_yet first) refl (notify-db _)))

  decide :
      (w : World) (id : ℕ)
      → MayAnswer env req w.db id
      → RespondOutcome env at req w (
          body
            (sql env (select_response_count id) >>= put_response env encode at req id)
            (record w { statements = w.statements + 1 + 1 }))
  unfolding is_asked_before
  decide w id may =
      on_sql (RespondOutcome env at req w) env _ _ _
        (λ x broken. put_outcome w _ id _ may (λ e. ground arith) (λ e. inr (x, broken)))
        λ sound.
          put_outcome w _ id _ may
            (λ e. any-counted (is_answer_to id) w.db.friend_responses (ground arith))
            (λ e. inl (uncounted (is_answer_to id) w.db.friend_responses (ground arith)))

  -- An answer is stored only if the requester has asked the responder and the responder's identity
  -- key has signed it, and an acceptance only with a bundle: then it revises the answers to that
  -- request where there are any, or is appended where there is none or the database refused to count. An answer without
  -- success changes nothing.
  pub respond_friend_request_outcome :
      (w : World) → RespondOutcome env at req w (respond_friend_request env encode at req w)
  unfolding respond_friend_request
  respond_friend_request_outcome w =
      let P = RespondOutcome env at req w in
      on_reject P _ _ _ w (λ e. unanswered refl refl)
        λ a.
          on_reject P _ _ _ w (λ e. unanswered refl refl)
            λ b.
              on_reject P _ _ _ w (λ e. unanswered refl refl)
                λ c.
                  on_reject P _ _ _ w (λ e. unanswered refl refl)
                    λ d.
                      on_reject P _ _ _ w (λ e. unanswered refl refl)
                        λ f.
                          on_reject P (req.accepted && is_empty req.pre_key_bundle) _ _ w
                            (λ e. unanswered refl refl)
                            λ bundle.
                              on_sql P env _ _ w
                                (λ x broken.
                                  on_row P _ _ _ _ _ (λ q. unanswered refl refl)
                                    (λ y q. unanswered refl refl) λ u q. cc)
                                λ sound.
                                  on_row P _ _ _ _ _ (λ q. unanswered refl refl)
                                    (λ y q. unanswered refl refl)
                                    λ responder q.
                                      on_reject P _ _ _ _ (λ e. unanswered refl refl)
                                        λ signed.
                                          on_sql P env _ _ _
                                            (λ x broken.
                                              on_row P _ _ _ _ _ (λ q. unanswered refl refl)
                                                (λ y q. unanswered refl refl) λ u q. cc)
                                            λ sound'.
                                              on_row P _ _ _ _ _ (λ q. unanswered refl refl)
                                                (λ y q. unanswered refl refl)
                                                λ original q'. decide w original.id (record {
                                                  responder = responder;
                                                  original = original;
                                                  found = first_row_found _ responder q;
                                                  request = first_row_found _ original q';
                                                  same_id = refl;
                                                  bundle = bundle;
                                                  signed = ground arith;
                                                })
