-- ===== src/Decompose/Clear.antt =====
-- handlers/decompose.rs: no success comes with an error message, and when a request panics.
use zenth_dht.Prelude.{◌≡◌, refl, Bool, true, false, String, Bytes, none}
use zenth_dht.Server.{
  DbResult, ok, not_found, err, Message, with_message, no_message, Result, done, failed, Exit,
  returned, panicked, Env, Readings, World,
}
use zenth_dht.Server.Ends.{Answers, ends_rules}
use zenth_dht.Method.Contact as Contact
use zenth_dht.Method.Contact.{
  Answer, FriendRequest, store_request, replace_request, put_request, contact,
}
use zenth_dht.Method.Respond as Respond
use zenth_dht.Method.Respond.{
  FriendResponse, store_response, replace_response, put_response, respond_friend_request,
}
use zenth_dht.Method.Message.{ZenthSignalEnvelope, SendMessageResponse, expires_at, send_message}
use zenth_dht.Method.Message.Panics.{send_message_panics}
use zenth_dht.Decompose.{arms, match_arm, method_send_message}
use zenth_dht.Decompose.Codecs.{DhtRequest, Handled, Decoded, parsed, malformed, Codec, Packages}
use zenth_dht.Decompose.Serve.{
  plain, answered, answered_exit, decoded, decoded_exit, serve, serve_exit, explained, triple,
  acknowledged,
}
use zenth_dht.Decompose.Handlers.{
  handle_ack_message, handle_block, handle_check_prekey_count, handle_contact, handle_delete,
  handle_fetch_friend_requests, handle_fetch_friend_responses, handle_fetch_messages,
  handle_fetch_my_accepted, handle_fetch_prekey_bundle, handle_get_update_chunk,
  handle_get_update_manifest, handle_group, handle_login, handle_lookup_user,
  handle_publish_recovery_key, handle_recovery_claim, handle_register, handle_relay_ack,
  handle_relay_fetch, handle_relay_push, handle_replenish_prekeys, handle_report,
  handle_respond_friend_request, handle_send_message, handle_sync_delete_blob,
  handle_sync_fetch_blob, handle_sync_push_blob, handle_upload_prekeys,
}
use zenth_dht.Decompose.Dispatch.{◌also◌, on_match}

-- A success comes without an error message.
abbrev pub IsClear : Answer → Type 0
IsClear a = a.success ≡ true → a.error_message ≡ no_message

declined-IsClear : (m : Message) → IsClear (Contact.declined m)
declined-IsClear m h = cc

granted-IsClear : IsClear Contact.granted
granted-IsClear h = refl

contact_update-IsClear : (q : DbResult (Unit {0})) → IsClear (Contact.update_reply q)
contact_update-IsClear (ok n) h = refl
contact_update-IsClear not_found h = cc
contact_update-IsClear (err e) h = cc

respond_update-IsClear : (q : DbResult (Unit {0})) → IsClear (Respond.update_reply q)
respond_update-IsClear (ok n) h = refl
respond_update-IsClear not_found h = cc
respond_update-IsClear (err e) h = cc

contact-IsClear :
    (env : Env) (encode : FriendRequest → Bytes) (at : Readings) (req : FriendRequest)
    → Answers IsClear (contact env encode at req)
unfolding contact put_request store_request replace_request
contact-IsClear env encode at req =
    search (ends_rules, declined-IsClear, granted-IsClear, contact_update-IsClear) depth 60

respond-IsClear :
    (env : Env) (encode : FriendResponse → Bytes) (at : Readings) (req : FriendResponse)
    → Answers IsClear (respond_friend_request env encode at req)
unfolding respond_friend_request put_response store_response replace_response
respond-IsClear env encode at req =
    search (ends_rules, declined-IsClear, granted-IsClear, respond_update-IsClear) depth 60

abbrev pub IsClearHandled : Handled → Type 0
IsClearHandled h = h.success ≡ true → h.error_message ≡ no_message

explained_clear :
    (success : Bool) (m : Message) (b : Bytes) → IsClearHandled (explained success m b)
explained_clear true m b h = refl
explained_clear false m b h = cc

answered_clear :
    {B : Type 0} (encode : B → Bytes) (reply : B → Bytes → Handled) (shown : Message → Message)
    (r : Result B × World)
    → ((x : B) (b : Bytes) → IsClearHandled (reply x b))
    → IsClearHandled (answered encode reply shown r).0
unfolding answered
answered_clear encode reply shown (done x, w) clear = clear x (encode x)
answered_clear encode reply shown (failed e, w) clear = λ h. cc

serve_clear :
    {A B : Type 0} (m : String → Message) (codec : Codec A B) (run : A → World → Result B × World)
    (reply : B → Bytes → Handled) (shown : Message → Message) (payload : Bytes) (w : World)
    → ((x : B) (b : Bytes) → IsClearHandled (reply x b))
    → IsClearHandled (serve m codec run reply shown payload w).0
unfolding serve decoded
serve_clear m codec run reply shown payload w clear = by_payload (codec.decode payload)
  where
    by_payload :
        (d : Decoded _)
        → IsClearHandled
            (decoded m d (λ req w'. answered codec.encode reply shown (run req w')) w).0
    by_payload (malformed e) = λ h. cc
    by_payload (parsed req) = answered_clear codec.encode reply shown (run req w) clear

triple_clear :
    {A : Type 0} (m : String → Message) (d : Decoded A) (run : A → World → Answer × World)
    (w : World)
    → ((req : A) → Answers IsClear (run req))
    → IsClearHandled (decoded m d (λ req w'. triple (run req w')) w).0
unfolding decoded
triple_clear m (malformed e) run w clear h = cc
triple_clear m (parsed req) run w clear h = (clear req).at w h

clear_acknowledgement : (r : Result (Unit {0}) × World) → IsClearHandled (acknowledged r).0
clear_acknowledgement (done n, w) h = refl
clear_acknowledgement (failed e, w) h = cc

acknowledged_clear :
    {A : Type 0} (m : String → Message) (d : Decoded A)
    (run : A → World → Result (Unit {0}) × World) (w : World)
    → IsClearHandled (decoded m d (λ req w'. acknowledged (run req w')) w).0
unfolding decoded
acknowledged_clear m (malformed e) run w = λ h. cc
acknowledged_clear m (parsed req) run w = clear_acknowledgement (run req w)

module _ (env : Env) (packages : Packages) (at : Readings) where
  -- The only panic: a message is sent whose expiry is no date.
  pub record IsUnsendable (req : DhtRequest) : Type 0 where
    pub envelope : ZenthSignalEnvelope
    pub sends : req.method ≡ method_send_message
    pub decoded : packages.codecs.send_message.decode req.payload ≡ parsed envelope
    pub undated : expires_at packages.formats at.utc envelope.sequence_number ≡ none

  abbrev pub Clears : DhtRequest → Exit Handled → Type 0
  Clears req (returned h) = IsClearHandled h
  Clears req panicked = IsUnsendable req

  send_clear :
      (req : DhtRequest) (w : World)
      → req.method ≡ method_send_message
      → Clears req (handle_send_message env packages at req.payload w).0
  unfolding handle_send_message serve_exit decoded_exit answered_exit answered
  send_clear req w sends = by_payload (packages.codecs.send_message.decode req.payload) refl
    where
      by_end :
          (e : ZenthSignalEnvelope) (r : Exit (Result SendMessageResponse))
          → packages.codecs.send_message.decode req.payload ≡ parsed e
          → (send_message env at packages.formats e w).0 ≡ r
          → Clears req
              (answered_exit packages.codecs.send_message.encode
                (λ x. plain x.success)
                (with_message "Send message error: {}")
                (r, (send_message env at packages.formats e w).1)).0
      by_end e (returned (done x)) good h = λ q. refl
      by_end e (returned (failed m)) good h = λ q. cc
      by_end e panicked good h = record {
        envelope = e;
        sends = sends;
        decoded = good;
        undated = send_message_panics env at packages.formats e w h;
      }

      by_payload :
          (d : Decoded ZenthSignalEnvelope)
          → packages.codecs.send_message.decode req.payload ≡ d
          → Clears req (handle_send_message env packages at req.payload w).0
      by_payload (malformed e) bad = rw bad λ q. cc
      by_payload (parsed e) good =
          rw good (by_end e (send_message env at packages.formats e w).0 good refl)

  pub handled_clear :
      (req : DhtRequest) (w : World)
      → Clears req (match_arm req.method (arms env packages at) req.payload w).0
  unfolding arms handle_ack_message handle_block handle_check_prekey_count handle_contact
      handle_delete handle_fetch_friend_requests handle_fetch_friend_responses handle_fetch_messages
      handle_fetch_my_accepted handle_fetch_prekey_bundle handle_get_update_chunk
      handle_get_update_manifest handle_group handle_login handle_lookup_user
      handle_publish_recovery_key handle_recovery_claim handle_register handle_relay_ack
      handle_relay_fetch handle_relay_push handle_replenish_prekeys handle_report
      handle_respond_friend_request handle_send_message handle_sync_delete_blob
      handle_sync_fetch_blob handle_sync_push_blob handle_upload_prekeys
  handled_clear req w =
      on_match (λ r. Clears req r.0) req.method req.payload w _ (λ h. cc)
        ((λ e. serve_clear _ _ _ _ _ _ w (λ r b h. refl))
          also (λ e. serve_clear _ _ _ _ _ _ w (λ r b h. refl))
          also (λ e. serve_clear _ _ _ _ _ _ w (λ r b. explained_clear r.success r.error_message b))
          also (λ e h. cc)
          also (λ e h. cc)
          also (λ e.
              triple_clear _ _ _ w
                (λ req. contact-IsClear env packages.encode_friend_request at req))
          also (λ e h. cc)
          also (λ e. serve_clear _ _ _ _ _ _ w (λ r b h. refl))
          also (λ e.
              triple_clear _ _ _ w
                (λ req. contact-IsClear env packages.encode_friend_request at req))
          also (λ e. serve_clear _ _ _ _ _ _ w (λ r b h. refl))
          also (λ e.
              triple_clear _ _ _ w
                (λ req. respond-IsClear env packages.encode_friend_response at req))
          also (λ e. send_clear req w e)
          also (λ e. serve_clear _ _ _ _ _ _ w (λ r b h. refl))
          also (λ e. serve_clear _ _ _ _ _ _ w (λ r b h. refl))
          also (λ e. serve_clear _ _ _ _ _ _ w (λ r b. explained_clear r.success r.error_message b))
          also (λ e. serve_clear _ _ _ _ _ _ w (λ r b. explained_clear r.success r.error_message b))
          also (λ e. serve_clear _ _ _ _ _ _ w (λ r b. explained_clear r.success r.error_message b))
          also (λ e. serve_clear _ _ _ _ _ _ w (λ r b. explained_clear r.success r.error_message b))
          also (λ e. serve_clear _ _ _ _ _ _ w (λ r b h. refl))
          also (λ e. serve_clear _ _ _ _ _ _ w (λ r b h. refl))
          also (λ e. serve_clear _ _ _ _ _ _ w (λ r b. explained_clear r.success r.error_message b))
          also (λ e. serve_clear _ _ _ _ _ _ w (λ r b. explained_clear r.success r.error_message b))
          also (λ e. serve_clear _ _ _ _ _ _ w (λ r b. explained_clear r.success r.error_message b))
          also (λ e. serve_clear _ _ _ _ _ _ w (λ r b. explained_clear r.success r.error_message b))
          also (λ e. serve_clear _ _ _ _ _ _ w (λ r b h. refl))
          also (λ e. serve_clear _ _ _ _ _ _ w (λ r b. explained_clear r.success r.error_message b))
          also (λ e. serve_clear _ _ _ _ _ _ w (λ r b h. refl))
          also (λ e. acknowledged_clear _ _ _ w)
          also (λ e. serve_clear _ _ _ _ _ _ w (λ r b. explained_clear r.success r.error_message b))
          also (λ e. serve_clear _ _ _ _ _ _ w (λ r b. explained_clear r.success r.error_message b))
          also tt)
