-- ===== src/Method/SyncBlob/Outcomes.antt =====
-- handlers/method/sync_blob.rs: what the three handlers do, on every branch.
use zenth_dht.Prelude.{
  ◌+◌, ◌<◌, ◌≡◌, refl, ap, ◌∙◌, ◌⊎◌, inl, inr, Bool, true, false, not, Option, none, some, Bytes,
  bytes_eq_refl, is_empty, retain, lt→ltb, arith, if◌then◌else◌,
}
use zenth_dht.Models.{Db, SyncBlob, seconds}
use zenth_dht.Crypto.{verify_dilithium_signature}
use zenth_dht.Timestamp.{is_timestamp_fresh}
use zenth_dht.Server.{Result, done, failed, Env, Readings, World}
use zenth_dht.Server.Rules.{on_reject, on_act, on_sql, on_give}
use zenth_dht.Method.SyncBlob.{
  SyncPushBlobRequest, SyncResponse, SyncBlobRequest, SyncFetchBlobResponse, is_for, put_blob,
  push_signed_data, new_blob, verify_key, blob_signed_data, current_blob, blob_push_admitted,
  push_blob, fetch_blob, delete_blob, blob_ttl,
}
use zenth_dht.Method.SyncBlob.Blobs.{current_blob-put_blob}

abbrev pub succeeded : Result SyncResponse → Bool
succeeded (failed m) = false
succeeded (done r) = r.success

-- The ciphertext and the signature that a response carries, if it reports success.
abbrev pub shown : Result SyncFetchBlobResponse → Option (Bytes × Bytes)
shown (failed m) = none
shown (done r) = if r.success then some (r.ciphertext, r.signature) else none

abbrev pub contents : Option SyncBlob → Option (Bytes × Bytes)
contents none = none
contents (some b) = some (b.ciphertext, b.signature)

pub record IsPushable (env : Env) (at : Readings) (req : SyncPushBlobRequest) (w : World)
    : Type 0 where
  pub device : is_empty req.for_device_dilithium_pubkey ≡ false
  pub text : is_empty req.ciphertext ≡ false
  pub fresh : is_timestamp_fresh at.unix_secs req.timestamp ≡ true
  pub admitted : (blob_push_admitted at req.sender_dilithium_pubkey w).0 ≡ true
  pub signed :
      verify_dilithium_signature env.dilithium req.sender_dilithium_pubkey
        (push_signed_data req)
        req.auth_signature
      ≡ true

-- The request is fresh and signed with the requester's key, or the device's where none is given.
pub record IsRequest (env : Env) (at : Readings) (req : SyncBlobRequest) : Type 0 where
  pub device : is_empty req.for_device_dilithium_pubkey ≡ false
  pub given : is_empty req.signature ≡ false
  pub fresh : is_timestamp_fresh at.unix_secs req.timestamp ≡ true
  pub signed :
      verify_dilithium_signature env.dilithium (verify_key req) (blob_signed_data req) req.signature
      ≡ true

abbrev pub PushOutcome :
    Env → Readings → SyncPushBlobRequest → World → Result SyncResponse × World → Type 0
PushOutcome env at req w (r, w') =
    ((succeeded r ≡ false) × (w'.db ≡ w.db))
    ⊎ (IsPushable env at req w
        × (succeeded r ≡ true)
        × (w'.db ≡ record w.db { sync_blobs = put_blob (new_blob at req) w.db.sync_blobs }))

-- A push either fails and leaves the database as it was, or it was complete, fresh, within the
-- sender's rate and signed by the sender's key, and has put exactly its blob.
pub push_blob_outcome :
    (env : Env) (at : Readings) (req : SyncPushBlobRequest) (w : World)
    → PushOutcome env at req w (push_blob env at req w)
unfolding push_blob blob_push_admitted
push_blob_outcome env at req w =
    let P = PushOutcome env at req w in
    on_reject P _ _ _ w (λ e. inl (refl, refl))
      λ device.
        on_reject P _ _ _ w (λ e. inl (refl, refl))
          λ content.
            on_reject P _ _ _ w (λ e. inl (refl, refl))
              λ sender.
                on_reject P _ _ _ w (λ e. inl (refl, refl))
                  λ fresh. on_act P _ _ w (
                    on_reject P _ _ _ _ (λ e. inl (refl, refl))
                      λ admitted.
                        on_reject P _ _ _ _ (λ e. inl (refl, refl))
                          λ signed.
                            on_sql P env _ _ _ (λ err broken. on_give P _ _ (inl (refl, refl)))
                              λ sound. on_give P _ _ (inr (ground arith, refl, refl)))

abbrev pub DeleteOutcome :
    Env → Readings → SyncBlobRequest → World → Result SyncResponse × World → Type 0
DeleteOutcome env at req w (r, w') =
    ((succeeded r ≡ false) × (w'.db ≡ w.db))
    ⊎ (IsRequest env at req
        × (succeeded r ≡ true)
        × (w'.db ≡ record w.db {
          sync_blobs = retain (λ b. not (is_for req.for_device_dilithium_pubkey b)) w.db.sync_blobs;
        }))

-- A deletion either fails and leaves the database as it was, or it was fresh and signed, and has
-- removed exactly the device's blob.
pub delete_blob_outcome :
    (env : Env) (at : Readings) (req : SyncBlobRequest) (w : World)
    → DeleteOutcome env at req w (delete_blob env at req w)
unfolding delete_blob
delete_blob_outcome env at req w =
    let P = DeleteOutcome env at req w in
    on_reject P _ _ _ w (λ e. inl (refl, refl))
      λ device.
        on_reject P _ _ _ w (λ e. inl (refl, refl))
          λ given.
            on_reject P _ _ _ w (λ e. inl (refl, refl))
              λ fresh.
                on_reject P _ _ _ w (λ e. inl (refl, refl))
                  λ signed.
                    on_sql P env _ _ w (λ err broken. on_give P _ _ (inl (refl, refl)))
                      λ sound. on_give P _ _ (inr (ground arith, refl, refl))

abbrev ServedOutcome :
    Readings → SyncBlobRequest → World → Result SyncFetchBlobResponse × World → Type 0
ServedOutcome at req w (r, w') =
    shown r ≡ contents (current_blob req.for_device_dilithium_pubkey at.utc w.db.sync_blobs)

-- A fresh and signed fetch, if the database answers, shows what the device's row holds.
fetch_blob_served :
    (env : Env) (at : Readings) (req : SyncBlobRequest) (w : World)
    → IsRequest env at req
    → env.fault w.statements ≡ none
    → ServedOutcome at req w (fetch_blob env at req w)
unfolding fetch_blob
fetch_blob_served env at req w h sound =
    let P = ServedOutcome at req w in
    on_reject P _ _ _ w (λ e. ground (arith, h.device))
      λ device.
        on_reject P _ _ _ w (λ e. ground (arith, h.given))
          λ given.
            on_reject P _ _ _ w (λ e. ground (arith, h.fresh))
              λ fresh.
                on_reject P _ _ _ w (λ e. ground (arith, h.signed))
                  λ signed.
                    on_sql P env _ _ w (λ err broken. cc) λ sound. on_give P _ _ (ground arith)

-- What was pushed for a device with success is what a fresh and signed fetch for the device shows,
-- until the blob's lifetime is over, if the database answers the fetch.
pub fetch_blob-push_blob :
    (env env' : Env) (at at' : Readings) (req : SyncPushBlobRequest) (req' : SyncBlobRequest)
    (w : World)
    → succeeded (push_blob env at req w).0 ≡ true
    → IsRequest env' at' req'
    → req'.for_device_dilithium_pubkey ≡ req.for_device_dilithium_pubkey
    → env'.fault (push_blob env at req w).1.statements ≡ none
    → at'.utc < at.utc + seconds (blob_ttl req.ttl_secs)
    → shown (fetch_blob env' at' req' (push_blob env at req w).1).0
      ≡ some (req.ciphertext, req.signature)
fetch_blob-push_blob env env' at at' req req' w pushed h same sound early =
    elim (push_blob_outcome env at req w) [
      | inl (refused, _) ↦ absurd (ground (arith, pushed, refused))
      | inr (_, _, changed) ↦
          fetch_blob_served env' at' req' (push_blob env at req w).1 h sound
          ∙ ap
              (λ (d : Db).
                contents (current_blob req'.for_device_dilithium_pubkey at'.utc d.sync_blobs))
              changed
          ∙ ap contents (
              current_blob-put_blob req'.for_device_dilithium_pubkey at'.utc (new_blob at req)
                w.db.sync_blobs)
          ∙ rw same (rw (bytes_eq_refl req.for_device_dilithium_pubkey) (rw (lt→ltb _ _ early)))
    ]
