-- ===== src/Decompose/Footprint.antt =====
-- handlers/decompose.rs: a request leaves every table alone that its method is not listed to write.
pub mod Accounts
pub mod Exchange
use mathlib.Core.Path.{subst}
use zenth_dht.Prelude.{◌≡◌, ◌∙◌, refl, sym, Bool, false, ℕ, ℤ}
use zenth_dht.Models.{Db}
use zenth_dht.Server.{Env, Readings, World}
use zenth_dht.Server.Keeps.{Keeps}
use zenth_dht.Decompose.{process_request, method_send_friend_request, method_contact}
use zenth_dht.Decompose.Codecs.{DhtRequest, Handled, Packages}
use zenth_dht.Decompose.Keeps.{process_request_keeps}
use zenth_dht.Decompose.Tables.{
  Table, users, auth_challenges, sessions, friend_requests, friend_responses, one_time_prekeys,
  messages, relay_messages, sync_blobs, app_config, Same, writes,
}
use zenth_dht.Decompose.Footprint.Accounts.{
  register-Same, login-Same, delete_account-Same, publish_recovery_key-Same, recovery_claim-Same,
}
use zenth_dht.Decompose.Footprint.Exchange.{
  contact-Same, respond_friend_request-Same, send_message-Same, ack_message-Same,
  upload_prekeys-Same, replenish_prekeys-Same, fetch_prekey_bundle-Same, push_blob-Same,
  delete_blob-Same, push_relay-Same, ack_relay-Same,
}

Same-refl : (t : Table) (db : Db) → Same t db db
Same-refl users db = refl
Same-refl auth_challenges db = refl
Same-refl sessions db = refl
Same-refl friend_requests db = (refl, refl)
Same-refl friend_responses db = (refl, refl)
Same-refl one_time_prekeys db = (refl, refl)
Same-refl messages db = (refl, refl)
Same-refl relay_messages db = (refl, refl)
Same-refl sync_blobs db = refl
Same-refl app_config db = refl

-- The two methods for a request of friendship write the same tables.
asks_same : (t : Table) → writes t method_send_friend_request ≡ writes t method_contact
asks_same users = refl
asks_same auth_challenges = refl
asks_same sessions = refl
asks_same friend_requests = refl
asks_same friend_responses = refl
asks_same one_time_prekeys = refl
asks_same messages = refl
asks_same relay_messages = refl
asks_same sync_blobs = refl
asks_same app_config = refl

-- A request leaves every table alone that its method is not listed to write, its serial numbers
-- included: users are written only by registration, deletion and recovery, sessions only by login,
-- deletion and recovery, messages only by sending, acknowledgement and deletion, prekeys only by
-- uploading, replenishing, the fetch of a bundle and deletion, and so on; the lookup, the lists, the
-- count of prekeys, the fetches of messages, blobs and mailboxes, the updates, and unknown methods
-- write no table at all.
pub process_request_footprint :
    (env : Env) (packages : Packages) (at : Readings) (answered_at : ℕ) (req : DhtRequest)
    (w : World) (t : Table)
    → writes t req.method ≡ false
    → Same t (process_request env packages at answered_at req w).1.db w.db
process_request_footprint env packages at answered_at req w t alone =
    let may_not : (m : ℤ) → req.method ≡ m → writes t m ≡ false =
      λ m e. subst (λ x. writes t x ≡ false) e alone in
    process_request_keeps (λ db. Same t db w.db) env packages at answered_at req w
      (record {
        registers = λ e req. register-Same w.db env at t req (may_not _ e);
        logs_in = λ e req. login-Same w.db env at t req (may_not _ e);
        deletes = λ e req. delete_account-Same w.db env at t req (may_not _ e);
        contacts =
            λ e req. contact-Same w.db env at packages.encode_friend_request t req (may_not _ e);
        befriends = λ e req.
            contact-Same w.db env at packages.encode_friend_request t req
              (sym (asks_same t) ∙ may_not _ e);
        responds = λ e req.
            respond_friend_request-Same w.db env at packages.encode_friend_response t req
              (may_not _ e);
        sends = λ e req. send_message-Same w.db env at packages.formats t req (may_not _ e);
        uploads =
            λ e req. upload_prekeys-Same w.db env at packages.decode_bundle t req (may_not _ e);
        delivers = λ e req.
            fetch_prekey_bundle-Same w.db env at packages.decode_bundle t req (may_not _ e);
        replenishes =
            λ e req. replenish_prekeys-Same w.db env at packages.decode_bundle t req (may_not _ e);
        puts_blob = λ e req. push_blob-Same w.db env at t req (may_not _ e);
        deletes_blob = λ e req. delete_blob-Same w.db env at t req (may_not _ e);
        relays = λ e req. push_relay-Same w.db env at t req (may_not _ e);
        acks_relay = λ e req. ack_relay-Same w.db env at t req (may_not _ e);
        acks_message = λ e req. ack_message-Same w.db env at t req (may_not _ e);
        publishes = λ e req. publish_recovery_key-Same w.db env at t req (may_not _ e);
        claims = λ e req. recovery_claim-Same w.db env at t req (may_not _ e);
      })
      (Same-refl t w.db)
