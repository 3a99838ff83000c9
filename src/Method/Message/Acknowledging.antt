-- ===== src/Method/Message/Acknowledging.antt =====
-- handlers/method/ack_message.rs: what an acknowledgement removes.
use zenth_dht.Prelude.{◌≡◌, refl, ◌⊎◌, inl, inr, Bool, true, false, not, retain, arith, some}
use zenth_dht.Models.{Db, User}
use zenth_dht.Crypto.{verify_dilithium_signature}
use zenth_dht.Server.{Result, done, failed, Env, Readings, World}
use zenth_dht.Server.Rules.{on_reject, on_row, on_sql, on_give}
use zenth_dht.Method.Users.{first_row_found, find_user}
use zenth_dht.Method.Message.{MessageAck, ack_signed_data, is_message_to, ack_message}

abbrev pub is_done : Result (Unit {0}) → Bool
is_done (done n) = true
is_done (failed m) = false

-- The recipient's identity key has signed the acknowledgement.
pub record IsAcknowledged (env : Env) (req : MessageAck) (db : Db) : Type 0 where
  pub user : User
  pub found : find_user req.recipient_hash_id db ≡ some user
  pub signed :
      verify_dilithium_signature env.dilithium user.identity_key_dilithium
        (ack_signed_data req)
        req.dilithium_signature
      ≡ true

abbrev pub without_message : MessageAck → Db → Db
without_message req db = record db {
  messages = retain (λ m. not (is_message_to req.message_id req.recipient_hash_id m)) db.messages;
}

abbrev pub AckOutcome : Env → MessageAck → Db → Result (Unit {0}) × World → Type 0
AckOutcome env req db (r, w') =
    ((is_done r ≡ false) × (w'.db ≡ db))
    ⊎ (IsAcknowledged env req db × (is_done r ≡ true) × (w'.db ≡ without_message req db))

-- An acknowledgement either fails and leaves the database as it was, or the recipient exists and
-- has signed it, and exactly the messages with its id and to this recipient are removed.
pub ack_message_outcome :
    (env : Env) (at : Readings) (req : MessageAck) (w : World)
    → AckOutcome env req w.db (ack_message env at req w)
unfolding ack_message
ack_message_outcome env at req w =
    let P = AckOutcome env req w.db in
    on_reject P _ _ _ w (λ e. inl (refl, refl))
      λ given.
        on_reject P _ _ _ w (λ e. inl (refl, refl))
          λ sealed.
            on_sql P env _ _ w
              (λ x broken.
                on_row P _ _ _ _ _ (λ q. inl (refl, refl)) (λ y q. inl (refl, refl)) λ a q. cc)
              λ sound.
                on_row P _ _ _ _ _ (λ q. inl (refl, refl)) (λ y q. inl (refl, refl))
                  λ user q.
                    on_reject P _ _ _ _ (λ e. inl (refl, refl))
                      λ signed.
                        on_sql P env _ _ _ (λ x broken. on_give P _ _ (inl (refl, refl)))
                          λ sound'. on_give P _ _ (
                            inr (
                              record {
                                user = user;
                                found = first_row_found _ user q;
                                signed = ground arith;
                              },
                              refl,
                              refl,
                            ))
