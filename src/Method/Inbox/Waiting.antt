-- ===== src/Method/Inbox/Waiting.antt =====
-- handlers/method/fetch_message.rs: what a fetch shows, what it counts, and the life of a message from
-- sending to its acknowledgement.
use mathlib.Core.Path.{subst}
use mathlib.Core.Option.{some-injective}
use zenth_dht.Prelude.{
  ℕ, ◌+◌, ◌^◌, ◌<◌, ◌≡◌, refl, sym, ap, ◌∙◌, ◌⊎◌, inl, inr, Bool, true, false, not, ◌&&◌, List, [],
  ◌∷◌, ◌++◌, some, Bytes, bytes_eq_refl, length, length-take, length-order_by, any, any-order_by,
  retain, retain_same, take, lt_ℤb, as_i64, arith,
}
use zenth_dht.Models.{Db, User, MessageModel, NaiveDateTime}
use zenth_dht.Crypto.{verify_dilithium_signature}
use zenth_dht.Server.{Result, done, failed, Env, Readings, World}
use zenth_dht.Server.Rules.{on_reject, on_row, on_sql, on_give}
use zenth_dht.Method.Users.{first_row_found, ok_injective, find_user}
use zenth_dht.Method.Message.{
  ZenthSignalEnvelope, Formats, MessageAck, has_message_id, is_message_to, expires_at, new_message,
  send_message, ack_message,
}
use zenth_dht.Method.Message.Sending.{is_sent, refused, accepted, send_message_outcome}
use zenth_dht.Method.Message.Acknowledging.{is_done, ack_message_outcome}
use zenth_dht.Method.Inbox.{
  FetchMessagesRequest, FetchMessagesResponse, Decoder, is_since, is_waiting_for, rank, inbox,
  total_count, page_size, page, fetch_signed_data, remaining, fetch_messages,
}

-- The user has signed the request.
pub record MayFetch (env : Env) (req : FetchMessagesRequest) (db : Db) : Type 0 where
  pub user : User
  pub found : find_user req.user_hash db ≡ some user
  pub signed :
      verify_dilithium_signature env.dilithium user.identity_key_dilithium
        (fetch_signed_data req)
        req.dilithium_signature
      ≡ true

abbrev pub shown_messages : Result FetchMessagesResponse → List ZenthSignalEnvelope
shown_messages (failed m) = []
shown_messages (done r) = r.messages

abbrev pub FetchOutcome :
    Decoder
    → Env
    → Readings
    → FetchMessagesRequest
    → Db
    → Result FetchMessagesResponse × World
    → Type 0
FetchOutcome decoder env at req db (r, w') =
    (w'.db ≡ db)
    × ((shown_messages r ≡ [])
        ⊎ (MayFetch env req db
            × (r
                ≡ done (
                    page decoder env at
                      (total_count req.user_hash req.since_timestamp at.utc db.messages)
                      (take (page_size req.limit)
                        (inbox req.user_hash req.since_timestamp at.utc db.messages))))))

-- A fetch changes nothing in the database, and shows messages only to a request that the user's
-- identity key has signed: the first ones of the user's inbox, up to the size of a page.
pub fetch_messages_outcome :
    (decoder : Decoder) (env : Env) (at : Readings) (req : FetchMessagesRequest) (w : World)
    → FetchOutcome decoder env at req w.db (fetch_messages decoder env at req w)
unfolding fetch_messages
fetch_messages_outcome decoder env at req w =
    let P = FetchOutcome decoder env at req w.db in
    on_sql P env _ _ w
      (λ x broken. on_row P _ _ _ _ _ (λ q. (refl, inl refl)) (λ y q. (refl, inl refl)) λ a q. cc)
      λ sound.
        on_row P _ _ _ _ _ (λ q. (refl, inl refl)) (λ y q. (refl, inl refl))
          λ user q.
            on_reject P _ _ _ _ (λ bad. (refl, inl refl))
              λ signed.
                on_sql P env _ _ _
                  (λ x broken.
                    on_row P _ _ _ _ _ (λ q'. (refl, inl refl)) (λ y q'. (refl, inl refl))
                      λ a q'. cc)
                  λ sound'.
                    on_row P _ _ _ _ _ (λ q'. (refl, inl refl)) (λ y q'. (refl, inl refl))
                      λ total t.
                        on_sql P env _ _ _
                          (λ x broken.
                            on_row P _ _ _ _ _ (λ q'. (refl, inl refl)) (λ y q'. (refl, inl refl))
                              λ a q'. cc)
                          λ sound''.
                            on_row P _ _ _ _ _ (λ q'. (refl, inl refl)) (λ y q'. (refl, inl refl))
                              λ rows p. on_give P _ _ (
                                refl,
                                inr (
                                  record {
                                    user = user;
                                    found = first_row_found _ user q;
                                    signed = ground arith;
                                  },
                                  ap (λ n. done (page decoder env at n rows))
                                        (sym (ok_injective _ total t))
                                      ∙ ap
                                          (λ r. done (
                                            page decoder env at
                                              (total_count req.user_hash req.since_timestamp at.utc
                                                w.db.messages)
                                              r))
                                          (sym (ok_injective _ rows p)),
                                ),
                              )

-- With a positive `since`, what a page of any size shows and what it says remains are together the
-- whole inbox, if fewer than 2^32 messages wait.
pub remaining_exact :
    (hash : Bytes) (since now k : ℕ) (rows : List MessageModel)
    → 0 < since
    → length (inbox hash since now rows) < 2 ^ 32
    → let shown = length (take k (inbox hash since now rows)) in
      shown + remaining (total_count hash since now rows) shown ≡ length (inbox hash since now rows)
unfolding inbox total_count
remaining_exact hash since now k rows positive few =
    let kept = retain (λ m. is_waiting_for hash now m && is_since since m) rows in
    let sorted = length-order_by (λ (m : MessageModel). rank m.server_timestamp) kept in
    let same = ap length (
      retain_same (λ m. is_waiting_for hash now m && lt_ℤb (as_i64 since) m.server_timestamp)
        (λ m. is_waiting_for hash now m && is_since since m) rows (λ m. ground arith)) in
    rw same (omega (arith, sorted, length-take k (inbox hash since now rows)))

last_kept :
    (p q : MessageModel → Bool) (rows : List MessageModel) (m : MessageModel)
    → p m ≡ true
    → q m ≡ true
    → any p (retain q (rows ++ m ∷ [])) ≡ true
last_kept p q [] m hp hq = ground arith
last_kept p q (x ∷ rows) m hp hq = ground (arith, last_kept p q rows m hp hq)

-- A message at the end of the table that has not expired is in its recipient's inbox.
appended_waits :
    (now : NaiveDateTime) (rows : List MessageModel) (m : MessageModel)
    → now < m.expires_at
    → any (has_message_id m.message_id) (inbox m.recipient_hash_id 0 now (rows ++ m ∷ [])) ≡ true
unfolding inbox
appended_waits now rows m early =
    any-order_by (λ (x : MessageModel). rank x.server_timestamp) (has_message_id m.message_id)
      (retain (λ x. is_waiting_for m.recipient_hash_id now x && is_since 0 x) (rows ++ m ∷ []))
    ∙ last_kept (has_message_id m.message_id)
        (λ x. is_waiting_for m.recipient_hash_id now x && is_since 0 x) rows m
        (bytes_eq_refl m.message_id) (ground (arith, bytes_eq_refl m.recipient_hash_id))

-- A message that was sent with success waits in its recipient's inbox until it expires.
pub inbox-send_message :
    (env : Env) (at : Readings) (formats : Formats) (e : ZenthSignalEnvelope) (w : World)
    (expiry now : NaiveDateTime)
    → is_sent (send_message env at formats e w).0 ≡ true
    → expires_at formats at.utc e.sequence_number ≡ some expiry
    → now < expiry
    → any
        (has_message_id e.message_id)
        (inbox e.recipient_hash_id 0 now (send_message env at formats e w).1.db.messages)
      ≡ true
inbox-send_message env at formats e w expiry now sent until early =
    elim (send_message_outcome env at formats e w) [
      | refused unsent _ ↦ absurd (ground (arith, sent, unsent))
      | accepted expiry' may _ changed ↦
          subst
            (λ (d : Db).
              any (has_message_id e.message_id) (inbox e.recipient_hash_id 0 now d.messages) ≡ true)
            (sym changed)
            (appended_waits now w.db.messages (new_message at e expiry' w.db.next_message) (
              subst (λ x. now < x) (some-injective expiry expiry' (sym until ∙ may.expires)) early))
    ]

removed_gone :
    (id hash : Bytes) (since now : ℕ) (rows : List MessageModel)
    → any
        (has_message_id id)
        (inbox hash since now (retain (λ m. not (is_message_to id hash m)) rows))
      ≡ false
unfolding inbox
removed_gone id hash since now rows =
    any-order_by (λ (x : MessageModel). rank x.server_timestamp) (has_message_id id)
      (retain (λ x. is_waiting_for hash now x && is_since since x)
        (retain (λ m. not (is_message_to id hash m)) rows))
    ∙ none_left rows
  where
    none_left :
        (xs : List MessageModel)
        → any (has_message_id id) (
            retain
              (λ x. is_waiting_for hash now x && is_since since x)
              (retain (λ m. not (is_message_to id hash m)) xs))
          ≡ false
    none_left [] = refl
    none_left (x ∷ xs) = ground (arith, none_left xs)

-- Once its recipient has acknowledged a message with success, no inbox of the recipient shows it.
pub inbox-ack_message :
    (env : Env) (at : Readings) (req : MessageAck) (w : World) (since now : ℕ)
    → is_done (ack_message env at req w).0 ≡ true
    → any
        (has_message_id req.message_id)
        (inbox req.recipient_hash_id since now (ack_message env at req w).1.db.messages)
      ≡ false
inbox-ack_message env at req w since now finished = elim (ack_message_outcome env at req w) [
  | inl (unfinished, _) ↦ absurd (ground (arith, finished, unfinished))
  | inr (_, _, changed) ↦
      subst
        (λ (d : Db).
          any (has_message_id req.message_id) (inbox req.recipient_hash_id since now d.messages)
          ≡ false)
        (sym changed) (removed_gone req.message_id req.recipient_hash_id since now w.db.messages)
]
