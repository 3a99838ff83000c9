-- ===== src/Method/Relay/Push.antt =====
-- handlers/method/relay.rs: what `push_relay` does, on every branch.
use mathlib.Core.Path.{subst}
use zenth_dht.Prelude.{
  ℕ, ◌+◌, ◌≤◌, ◌≡◌, refl, sym, ◌<◌, All, All-append, Ascends, Ascends-append, ◌⊎◌, inl, inr, true,
  false, Option, none, some, List, [], ◌∷◌, ◌++◌, length, is_empty, arith, if◌then◌else◌,
}
use zenth_dht.Models.{Db, RelayMessage, seconds}
use zenth_dht.Crypto.{verify_dilithium_signature}
use zenth_dht.Timestamp.{is_timestamp_fresh}
use zenth_dht.Server.{Result, done, failed, Env, Readings, World}
use zenth_dht.Server.Rules.{on_reject, on_act, on_sql, on_give}
use zenth_dht.Method.Relay.{
  RelayPushRequest, RelayPushResponse, push_signed_data, new_relay_message, push_relay,
  relay_push_admitted, insert_relay_message,
}

-- The id that a response reports, if it reports success.
abbrev pub pushed : Result RelayPushResponse → Option ℕ
pushed (failed m) = none
pushed (done r) = if r.success then some r.relay_id else none

-- The request is complete, fresh, within the sender's rate, and signed with the sender's key.
pub record IsPushable (env : Env) (at : Readings) (req : RelayPushRequest) (w : World)
    : Type 0 where
  pub device : is_empty req.for_device_dilithium_pubkey ≡ false
  pub text : is_empty req.ciphertext ≡ false
  pub nonce : length req.nonce ≡ 12
  pub admitted : (relay_push_admitted at req.sender_dilithium_pubkey w).0 ≡ true
  pub fresh : is_timestamp_fresh at.unix_secs req.timestamp ≡ true
  pub signed :
      verify_dilithium_signature env.dilithium req.sender_dilithium_pubkey
        (push_signed_data req)
        req.sender_signature
      ≡ true

abbrev pub with_relay_message : Readings → RelayPushRequest → Db → Db
with_relay_message at req db = record db {
  relay_messages = db.relay_messages ++ new_relay_message at req db.next_relay_message ∷ [];
  next_relay_message = db.next_relay_message + 1;
}

abbrev pub PushOutcome :
    Env → Readings → RelayPushRequest → World → Result RelayPushResponse × World → Type 0
PushOutcome env at req w (r, w') =
    ((pushed r ≡ none) × (w'.db ≡ w.db))
    ⊎ (IsPushable env at req w
        × (pushed r ≡ some w.db.next_relay_message)
        × (w'.db ≡ with_relay_message at req w.db))

-- A push either reports no success and leaves the database as it was, or it was complete, fresh,
-- within the sender's rate and signed by the sender's key, reports the next id, and has appended
-- exactly the message under it.
pub push_relay_outcome :
    (env : Env) (at : Readings) (req : RelayPushRequest) (w : World)
    → PushOutcome env at req w (push_relay env at req w)
unfolding push_relay relay_push_admitted insert_relay_message
push_relay_outcome env at req w =
    let P = PushOutcome env at req w in
    on_reject P _ _ _ w (λ e. inl (refl, refl))
      λ device.
        on_reject P _ _ _ w (λ e. inl (refl, refl))
          λ content.
            on_reject P _ _ _ w (λ e. inl (refl, refl))
              λ sender.
                on_reject P _ _ _ w (λ e. inl (refl, refl))
                  λ fresh. on_act P _ _ w (
                    on_reject P _ _ _ _ (λ e. inl (refl, refl))
                      λ admitted.
                        on_reject P _ _ _ _ (λ e. inl (refl, refl))
                          λ signed.
                            on_sql P env _ _ _ (λ err broken. on_give P _ _ (inl (refl, refl)))
                              λ sound. on_give P _ _ (inr (ground arith, refl, refl)))

-- The lifetime of a stored message is between one minute and one day, whatever the client asks.
pub expires_at_bounds :
    (at : Readings) (req : RelayPushRequest) (id : ℕ)
    → (at.utc + seconds 60 ≤ (new_relay_message at req id).expires_at)
      × ((new_relay_message at req id).expires_at ≤ at.utc + seconds 86_400)
expires_at_bounds at req id = omega arith

-- The ids of the table rise, and stay below the next one.
pub record IsMailbox (db : Db) : Type 0 where
  pub ascends : Ascends (λ (r : RelayMessage). r.id) 0 db.relay_messages
  pub below : All (λ (r : RelayMessage). r.id < db.next_relay_message) db.relay_messages

below_next :
    (n : ℕ) (rows : List RelayMessage) → All (λ r. r.id < n) rows → All (λ r. r.id < n + 1) rows
below_next n [] h = tt
below_next n (r ∷ rows) h = (omega arith, below_next n rows h.1)

with_relay_message-IsMailbox :
    (at : Readings) (req : RelayPushRequest) (db : Db)
    → IsMailbox db
    → IsMailbox (with_relay_message at req db)
with_relay_message-IsMailbox at req db h = record {
  ascends =
      Ascends-append (λ (r : RelayMessage). r.id) 0 db.relay_messages
        (new_relay_message at req db.next_relay_message) (omega arith) h.below h.ascends;
  below =
      All-append (λ (r : RelayMessage). r.id < db.next_relay_message + 1) db.relay_messages
        (new_relay_message at req db.next_relay_message ∷ [])
        (below_next db.next_relay_message db.relay_messages h.below) (omega arith, tt);
}

-- Every push, successful or not, keeps the mailbox in the order of its ids.
pub push_relay-IsMailbox :
    (env : Env) (at : Readings) (req : RelayPushRequest) (w : World)
    → IsMailbox w.db
    → IsMailbox (push_relay env at req w).1.db
push_relay-IsMailbox env at req w h = elim (push_relay_outcome env at req w) [
  | inl (_, same) ↦ subst IsMailbox (sym same) h
  | inr (_, _, changed) ↦ subst IsMailbox (sym changed) (with_relay_message-IsMailbox at req w.db h)
]
