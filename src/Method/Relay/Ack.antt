-- ===== src/Method/Relay/Ack.antt =====
-- handlers/method/relay.rs: what `ack_relay` removes.
use zenth_dht.Prelude.{
  ℕ, ◌≡◌, refl, ap, ◌∙◌, ◌⊎◌, inl, inr, Bool, true, false, not, ◌&&◌, List, Bytes, ℤ, pos, lt_ℤb,
  le_ℤb, bytes_eq, bytes_eq_iff, retain, retain_same, retain-retain, order_by, ltb, arith,
}
use zenth_dht.Models.{RelayMessage}
use zenth_dht.Crypto.{verify_dilithium_signature}
use zenth_dht.Timestamp.{is_timestamp_fresh}
use zenth_dht.Server.{Result, done, failed, Env, Readings, World}
use zenth_dht.Server.Rules.{on_reject, on_sql, on_give}
use zenth_dht.Method.Relay.{
  RelayAckRequest, RelayAckResponse, pending, is_acknowledged, ack_signed_data, ack_relay,
}

-- The rows that an acknowledgement leaves.
abbrev pub unacknowledged : Bytes → ℤ → List RelayMessage → List RelayMessage
unacknowledged device up_to = retain (λ r. not (is_acknowledged device up_to r))

abbrev pub acknowledged : Result RelayAckResponse → Bool
acknowledged (failed m) = false
acknowledged (done r) = r.success

-- The device has signed the acknowledgement with its own key.
pub record IsAckable (env : Env) (at : Readings) (req : RelayAckRequest) : Type 0 where
  pub fresh : is_timestamp_fresh at.unix_secs req.timestamp ≡ true
  pub signed :
      verify_dilithium_signature env.dilithium req.for_device_dilithium_pubkey
        (ack_signed_data req)
        req.signature
      ≡ true

abbrev pub AckOutcome :
    Env → Readings → RelayAckRequest → World → Result RelayAckResponse × World → Type 0
AckOutcome env at req w (r, w') =
    ((acknowledged r ≡ false) × (w'.db ≡ w.db))
    ⊎ (IsAckable env at req
        × (acknowledged r ≡ true)
        × (w'.db ≡ record w.db {
          relay_messages =
              unacknowledged req.for_device_dilithium_pubkey req.up_to_id w.db.relay_messages;
        }))

-- An acknowledgement either fails and leaves the database as it was, or it is fresh, signed with the
-- device's own key, and removes exactly the device's messages up to the given id.
pub ack_relay_outcome :
    (env : Env) (at : Readings) (req : RelayAckRequest) (w : World)
    → AckOutcome env at req w (ack_relay env at req w)
unfolding ack_relay
ack_relay_outcome env at req w =
    let P = AckOutcome env at req w in
    on_reject P _ _ _ w (λ e. inl (refl, refl))
      λ device.
        on_reject P _ _ _ w (λ e. inl (refl, refl))
          λ signature.
            on_reject P _ _ _ w (λ e. inl (refl, refl))
              λ fresh.
                on_reject P _ _ _ w (λ e. inl (refl, refl))
                  λ signed.
                    on_sql P env _ _ w (λ err broken. on_give P _ _ (inl (refl, refl)))
                      λ sound. on_give P _ _ (inr (ground arith, refl, refl))

-- Once messages up to an id are acknowledged, a fetch from before that id shows what a fetch from
-- that id showed, and the mailbox of every other device shows what it showed.
pub pending-unacknowledged :
    (device other : Bytes) (since up_to : ℤ) (now : ℕ) (rows : List RelayMessage)
    → le_ℤb since up_to ≡ true
    → (pending device since now (unacknowledged device up_to rows) ≡ pending device up_to now rows)
      × (bytes_eq device other ≡ false
          → pending other since now (unacknowledged device up_to rows)
            ≡ pending other since now rows)
unfolding pending is_acknowledged
pending-unacknowledged device other since up_to now rows le = (
  ap (order_by (λ r. r.id)) (retain-retain _ _ rows ∙ retain_same _ _ rows mine),
  λ differ.
      ap (order_by (λ r. r.id)) (retain-retain _ _ rows ∙ retain_same _ _ rows (theirs differ)),
)
  where
    mine :
        (r : RelayMessage)
        → (not (bytes_eq r.for_device_dilithium_pubkey device && le_ℤb (pos r.id) up_to)
            && (bytes_eq r.for_device_dilithium_pubkey device
                && lt_ℤb since (pos r.id)
                && ltb now r.expires_at))
          ≡ (bytes_eq r.for_device_dilithium_pubkey device
              && lt_ℤb up_to (pos r.id)
              && ltb now r.expires_at)
    mine r = ground arith

    theirs :
        bytes_eq device other ≡ false
        → (r : RelayMessage)
        → (not (bytes_eq r.for_device_dilithium_pubkey device && le_ℤb (pos r.id) up_to)
            && (bytes_eq r.for_device_dilithium_pubkey other
                && lt_ℤb since (pos r.id)
                && ltb now r.expires_at))
          ≡ (bytes_eq r.for_device_dilithium_pubkey other
              && lt_ℤb since (pos r.id)
              && ltb now r.expires_at)
    theirs differ r = ground (
      arith,
      bytes_eq_iff r.for_device_dilithium_pubkey device,
      bytes_eq_iff r.for_device_dilithium_pubkey other,
      bytes_eq_iff device other,
    )
