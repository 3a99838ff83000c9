-- ===== src/Decompose.antt =====
-- handlers/decompose.rs: a request is decoded, dispatched on its method number to its handler, and
-- answered. prost is the parameter Codecs; an i32 is a ℤ. `at` are the readings of the clocks while the
-- handler runs, and `answered_at` is the one for the response.
pub mod Codecs
pub mod Serve
pub mod Handlers
pub mod Dispatch
pub mod Keeps
pub mod Tables
pub mod Samples
mod Tests
pub mod Clear
pub mod Replies
pub mod Footprint
use zenth_dht.Prelude.{
  ℕ, Bool, true, false, List, [], ◌∷◌, Bytes, ℤ, pos, negsuc, ◌==◌, if◌then◌else◌,
}
use zenth_dht.Server.{Message, text, with_text, Exit, returned, map_exit, Env, Readings, World}
use zenth_dht.Decompose.Codecs.{
  DhtRequest, DhtResponse, Handled, Decoded, parsed, malformed, Packages,
}
use zenth_dht.Decompose.Serve.{refused}
use zenth_dht.Decompose.Handlers.{
  handle_register, handle_login, handle_delete, handle_block, handle_group, handle_contact,
  handle_report, handle_lookup_user, handle_fetch_friend_requests, handle_respond_friend_request,
  handle_send_message, handle_fetch_messages, handle_fetch_friend_responses, handle_upload_prekeys,
  handle_fetch_prekey_bundle, handle_check_prekey_count, handle_replenish_prekeys,
  handle_get_update_manifest, handle_get_update_chunk, handle_sync_push_blob,
  handle_sync_fetch_blob, handle_sync_delete_blob, handle_relay_push, handle_relay_fetch,
  handle_relay_ack, handle_fetch_my_accepted, handle_ack_message, handle_publish_recovery_key,
  handle_recovery_claim,
}

abbrev pub method_unknown : ℤ
method_unknown = pos 0

abbrev pub method_register : ℤ
method_register = pos 1

abbrev pub method_login : ℤ
method_login = pos 2

abbrev pub method_delete : ℤ
method_delete = pos 3

abbrev pub method_block : ℤ
method_block = pos 4

abbrev pub method_group : ℤ
method_group = pos 5

abbrev pub method_contact : ℤ
method_contact = pos 6

abbrev pub method_report : ℤ
method_report = pos 7

abbrev pub method_lookup_user : ℤ
method_lookup_user = pos 8

abbrev pub method_send_friend_request : ℤ
method_send_friend_request = pos 9

abbrev pub method_fetch_friend_requests : ℤ
method_fetch_friend_requests = pos 10

abbrev pub method_respond_friend_request : ℤ
method_respond_friend_request = pos 11

abbrev pub method_send_message : ℤ
method_send_message = pos 12

abbrev pub method_fetch_messages : ℤ
method_fetch_messages = pos 13

abbrev pub method_fetch_friend_responses : ℤ
method_fetch_friend_responses = pos 14

abbrev pub method_upload_prekeys : ℤ
method_upload_prekeys = pos 15

abbrev pub method_fetch_prekey_bundle : ℤ
method_fetch_prekey_bundle = pos 16

abbrev pub method_check_prekey_count : ℤ
method_check_prekey_count = pos 17

abbrev pub method_replenish_prekeys : ℤ
method_replenish_prekeys = pos 18

abbrev pub method_get_update_manifest : ℤ
method_get_update_manifest = pos 19

abbrev pub method_get_update_chunk : ℤ
method_get_update_chunk = pos 20

abbrev pub method_sync_push_blob : ℤ
method_sync_push_blob = pos 21

abbrev pub method_sync_fetch_blob : ℤ
method_sync_fetch_blob = pos 22

abbrev pub method_sync_delete_blob : ℤ
method_sync_delete_blob = pos 23

abbrev pub method_relay_push : ℤ
method_relay_push = pos 24

abbrev pub method_relay_fetch : ℤ
method_relay_fetch = pos 25

abbrev pub method_relay_ack : ℤ
method_relay_ack = pos 26

abbrev pub method_fetch_my_accepted : ℤ
method_fetch_my_accepted = pos 27

abbrev pub method_ack_message : ℤ
method_ack_message = pos 28

abbrev pub method_publish_recovery_key : ℤ
method_publish_recovery_key = pos 29

abbrev pub method_recovery_claim : ℤ
method_recovery_claim = pos 30

-- An arm of the `match` on the method: the constant, and the handler of a payload.
abbrev pub Arm : Type 0
Arm = ℤ × (Bytes → World → Exit Handled × World)

-- A handler that does not panic.
abbrev pub returning : (Bytes → World → Handled × World) → Bytes → World → Exit Handled × World
returning handle payload w = let (h, w') = handle payload w in (returned h, w')

abbrev pub same_method : ℤ → ℤ → Bool
same_method (pos a) (pos b) = a == b
same_method (negsuc a) (negsuc b) = a == b
same_method _ _ = false

-- The first arm with the method's number, or the last one, `_`.
unfoldable pub match_arm : ℤ → List Arm → Bytes → World → Exit Handled × World
match_arm method [] = λ payload w. (returned (refused (text "Unknown method")), w)
match_arm method ((number, handle) ∷ arms) =
    let rest = match_arm method arms in if same_method method number then handle else rest

pub data StatusCode : Type 0 where
  status_ok : StatusCode
  bad_request : StatusCode

module _ (env : Env) (packages : Packages) (at : Readings) where
  unfoldable pub arms : List Arm
  arms =
      (method_register, returning (handle_register env packages at))
      ∷ (method_login, returning (handle_login env packages at))
      ∷ (method_delete, returning (handle_delete env packages at))
      ∷ (method_block, returning (handle_block env packages at))
      ∷ (method_group, returning (handle_group env packages at))
      ∷ (method_contact, returning (handle_contact env packages at))
      ∷ (method_report, returning (handle_report env packages at))
      ∷ (method_lookup_user, returning (handle_lookup_user env packages at))
      ∷ (method_send_friend_request, returning (handle_contact env packages at))
      ∷ (method_fetch_friend_requests, returning (handle_fetch_friend_requests env packages at))
      ∷ (method_respond_friend_request, returning (handle_respond_friend_request env packages at))
      ∷ (method_send_message, handle_send_message env packages at)
      ∷ (method_fetch_messages, returning (handle_fetch_messages env packages at))
      ∷ (method_fetch_friend_responses, returning (handle_fetch_friend_responses env packages at))
      ∷ (method_upload_prekeys, returning (handle_upload_prekeys env packages at))
      ∷ (method_fetch_prekey_bundle, returning (handle_fetch_prekey_bundle env packages at))
      ∷ (method_check_prekey_count, returning (handle_check_prekey_count env packages at))
      ∷ (method_replenish_prekeys, returning (handle_replenish_prekeys env packages at))
      ∷ (method_get_update_manifest, returning (handle_get_update_manifest env packages at))
      ∷ (method_get_update_chunk, returning (handle_get_update_chunk env packages at))
      ∷ (method_sync_push_blob, returning (handle_sync_push_blob env packages at))
      ∷ (method_sync_fetch_blob, returning (handle_sync_fetch_blob env packages at))
      ∷ (method_sync_delete_blob, returning (handle_sync_delete_blob env packages at))
      ∷ (method_relay_push, returning (handle_relay_push env packages at))
      ∷ (method_relay_fetch, returning (handle_relay_fetch env packages at))
      ∷ (method_relay_ack, returning (handle_relay_ack env packages at))
      ∷ (method_fetch_my_accepted, returning (handle_fetch_my_accepted env packages at))
      ∷ (method_ack_message, returning (handle_ack_message env packages at))
      ∷ (method_publish_recovery_key, returning (handle_publish_recovery_key env packages at))
      ∷ (method_recovery_claim, returning (handle_recovery_claim env packages at))
      ∷ []

  module _ (answered_at : ℕ) where
    abbrev pub respond : DhtRequest → Handled → DhtResponse
    respond req h = record {
      success = h.success;
      method = req.method;
      payload = h.payload;
      error_message = h.error_message;
      timestamp = answered_at;
      request_id = req.request_id;
    }

    unfoldable pub process_request : DhtRequest → World → Exit DhtResponse × World
    process_request req w =
        let (h, w') = match_arm req.method arms req.payload w in (map_exit (respond req) h, w')

    -- The response to a body that is no request.
    abbrev pub undecodable : Message → DhtResponse
    undecodable m = record {
      success = false;
      method = method_unknown;
      payload = [];
      error_message = m;
      timestamp = answered_at;
      request_id = [];
    }

    abbrev pub status : Bool → StatusCode
    status success = if success then status_ok else bad_request

    abbrev pub reply : DhtResponse → StatusCode × Bytes
    reply response = (status response.success, packages.codecs.encode_response response)

    -- A panic ends the task of the connection: no answer is sent.
    unfoldable pub handle_post : Bytes → World → Exit (StatusCode × Bytes) × World
    handle_post body w = elim (packages.codecs.decode_request body) [
      | malformed e ↦ (
        returned (
          bad_request,
          packages.codecs.encode_response (undecodable (with_text "Error decodage: {}" e)),
        ),
        w,
      )
      | parsed req ↦ (let (response, w') = process_request req w in (map_exit reply response, w'))
    ]
