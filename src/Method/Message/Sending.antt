-- ===== src/Method/Message/Sending.antt =====
-- handlers/method/send_message.rs: what is stored and when, and the limits on sizes.
use zenth_dht.Prelude.{
  ℕ, ◌+◌, ◌≤◌, ◌≡◌, refl, inl, inr, Bool-cases, Bool, true, false, [], ◌∷◌, ◌++◌, Option,
  Option-cases, none, some, any, ltb, arith,
}
use zenth_dht.Models.{Db, User, NaiveDateTime}
use zenth_dht.Crypto.{verify_dilithium_signature}
use zenth_dht.RateLimit.{Limiters}
use zenth_dht.Server.{Result, done, failed, Exit, returned, panicked, Env, Readings, World, body}
use zenth_dht.Server.Rules.{on_act, on_reject, on_row, on_sql, on_give}
use zenth_dht.Method.Users.{first_row_found, find_user}
use zenth_dht.Method.Message.{
  ZenthSignalEnvelope, SendMessageResponse, Formats, max_threshold, size_of, envelope_signed_data,
  expires_at, has_message_id, insert_message, new_message, large_admitted, mid_admitted, ask,
  push_to_recipient, store_message, send_message,
}

abbrev pub is_sent : Exit (Result SendMessageResponse) → Bool
is_sent panicked = false
is_sent (returned (failed m)) = false
is_sent (returned (done r)) = r.success

-- A refused request may have drawn a serial number.
abbrev pub SameRows : Db → Db → Type 0
SameRows db db' = record db' { next_message = db.next_message } ≡ db

abbrev pub with_message : Readings → ZenthSignalEnvelope → NaiveDateTime → Db → Db
with_message at e expiry db = record db {
  messages = db.messages ++ new_message at e expiry db.next_message ∷ [];
  next_message = db.next_message + 1;
}

-- Both users exist, the sender's key has signed, the size is within the limits and the sender within
-- the rates of that size, the expiry is a date, and no message has this id yet.
pub record IsSendable (env : Env) (at : Readings) (formats : Formats) (e : ZenthSignalEnvelope)
    (w : World) (expiry : NaiveDateTime) : Type 0 where
  pub sender : User
  pub recipient : User
  pub sender_found : find_user e.sender_hash_id w.db ≡ some sender
  pub recipient_found : find_user e.recipient_hash_id w.db ≡ some recipient
  pub signed :
      verify_dilithium_signature env.dilithium sender.identity_key_dilithium
        (envelope_signed_data e)
        e.dilithium_signature
      ≡ true
  pub size : size_of e ≤ 26_214_400
  pub large : (large_admitted at e.sender_hash_id (size_of e) w.limiters).0 ≡ true
  pub mid :
      (mid_admitted at e.sender_hash_id
        (size_of e)
        (large_admitted at e.sender_hash_id (size_of e) w.limiters).1).0
      ≡ true
  pub expires : expires_at formats at.utc e.sequence_number ≡ some expiry
  pub new_id : any (has_message_id e.message_id) w.db.messages ≡ false

pub data Sends (env : Env) (at : Readings) (formats : Formats) (e : ZenthSignalEnvelope) (w : World)
    (r : Exit (Result SendMessageResponse)) (w' : World) : Type 0 where
  refused : is_sent r ≡ false → SameRows w.db w'.db → Sends env at formats e w r w'
  accepted :
      (expiry : NaiveDateTime)
      → IsSendable env at formats e w expiry
      → is_sent r ≡ true
      → w'.db ≡ with_message at e expiry w.db
      → Sends env at formats e w r w'

abbrev pub SendOutcome :
    Env
    → Readings
    → Formats
    → ZenthSignalEnvelope
    → World
    → Exit (Result SendMessageResponse) × World
    → Type 0
SendOutcome env at formats e w (r, w') = Sends env at formats e w r w'

module _ (env : Env) (at : Readings) (formats : Formats) (e : ZenthSignalEnvelope) where
  pub push-db : (w : World) → (push_to_recipient env at formats e w).1.db ≡ w.db
  unfolding push_to_recipient
  push-db w = elim (Option-cases w.manager) [
    | inl unset ↦ rw (unset, push_to_recipient) refl
    | inr (m, set) ↦ rw (set, push_to_recipient) refl
  ]

  -- The insert of a message that may be sent unless its id is taken.
  insert_outcome :
      (w : World) (n : ℕ) (l : Limiters) (expiry : NaiveDateTime)
      → (any (has_message_id e.message_id) w.db.messages ≡ false
          → IsSendable env at formats e w expiry)
      → SendOutcome env at formats e w (
          body
            (store_message env at formats e (some expiry))
            (record w { statements = n; limiters = l }))
  unfolding store_message insert_message
  insert_outcome w n l expiry sendable =
      let P = SendOutcome env at formats e w in
      on_sql P env _ _ _
        (λ x broken.
          on_row P _ _ _ _ _ (λ q. refused refl refl) (λ y q. refused refl refl) λ a q. cc)
        λ sound. elim (Bool-cases (any (has_message_id e.message_id) w.db.messages)) [
          | inl taken ↦
              rw (taken, insert_message)
                (on_row P _ _ _ _ _ (λ q. refused refl refl) (λ y q. refused refl refl) λ a q. cc)
          | inr free ↦
              rw (free, insert_message)
                (on_row P _ _ _ _ _ (λ q. cc) (λ y q. cc)
                  λ a q.
                    on_act P _ _ _
                      (on_give P _ _ (accepted expiry (sendable free) refl (push-db _))))
        ]

  store_outcome :
      (w : World) (n : ℕ) (l : Limiters) (o : Option NaiveDateTime)
      → ((expiry : NaiveDateTime)
          → o ≡ some expiry
          → any (has_message_id e.message_id) w.db.messages ≡ false
          → IsSendable env at formats e w expiry)
      → SendOutcome env at formats e w
          (body (store_message env at formats e o) (record w { statements = n; limiters = l }))
  unfolding store_message
  store_outcome w n l none sendable =
      on_give (SendOutcome env at formats e w) _ _ (refused refl refl)
  store_outcome w n l (some expiry) sendable = insert_outcome w n l expiry (sendable expiry refl)

  -- A message is stored only if both users exist, the sender's identity key has signed the envelope,
  -- the content is of 25 MiB at most, the limiters of large and of middle sizes admit the sender, the
  -- expiry is a date, and no stored message has this id; then exactly this message is appended, under
  -- the next serial number. In every other case the request reports no success, and all rows of the
  -- database stay as they were.
  pub send_message_outcome :
      (w : World) → SendOutcome env at formats e w (send_message env at formats e w)
  unfolding send_message ask
  send_message_outcome w =
      let P = SendOutcome env at formats e w in
      on_sql P env _ _ w
        (λ x broken.
          on_row P _ _ _ _ _ (λ q. refused refl refl) (λ y q. refused refl refl) λ a q. cc)
        λ sound.
          on_row P _ _ _ _ _ (λ q. refused refl refl) (λ y q. refused refl refl)
            λ sender q.
              on_reject P _ _ _ _ (λ bad. refused refl refl)
                λ signed.
                  on_sql P env _ _ _
                    (λ x broken.
                      on_row P _ _ _ _ _ (λ q. refused refl refl) (λ y q. refused refl refl)
                        λ a q. cc)
                    λ sound'.
                      on_row P _ _ _ _ _ (λ q. refused refl refl) (λ y q. refused refl refl)
                        λ recipient q'.
                          on_reject P (ltb max_threshold (size_of e)) _ _ _
                            (λ bad. refused refl refl)
                            λ small. on_act P _ _ _ (
                              on_reject P _ _ _ _ (λ bad. refused refl refl)
                                λ large. on_act P _ _ _ (
                                  on_reject P _ _ _ _ (λ bad. refused refl refl)
                                    λ mid. store_outcome w _ _ _ λ expiry expires free. record {
                                      sender = sender;
                                      recipient = recipient;
                                      sender_found = first_row_found _ sender q;
                                      recipient_found = first_row_found _ recipient q';
                                      signed = ground arith;
                                      size = ground arith;
                                      large = ground arith;
                                      mid = ground arith;
                                      expires = expires;
                                      new_id = free;
                                    }))
