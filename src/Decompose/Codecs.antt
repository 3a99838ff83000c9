-- ===== src/Decompose/Codecs.antt =====
-- handlers/decompose.rs: the messages of zenth_dto around a request, and what the handlers take from
-- the packages that they call.
use zenth_dht.Prelude.{ℕ, Bool, Option, String, Bytes, ℤ}
use zenth_dht.Models.{NaiveDateTime}
use zenth_dht.Server.{Message}
use zenth_dht.Method.Register.{RegistrationRequest, RegistrationResponse}
use zenth_dht.Method.Login.{LoginRequest, LoginResponse}
use zenth_dht.Method.Delete.{DeleteRequest, DeleteResponse}
use zenth_dht.Method.Contact.{FriendRequest}
use zenth_dht.Method.Lookup.{LookupUserRequest, LookupUserResponse}
use zenth_dht.Method.Friends.{FetchRequest, FetchResponse}
use zenth_dht.Method.Respond.{FriendResponse}
use zenth_dht.Method.Message.{ZenthSignalEnvelope, SendMessageResponse, MessageAck, Formats}
use zenth_dht.Method.Inbox.{Decoder, FetchMessagesRequest, FetchMessagesResponse}
use zenth_dht.Method.Prekeys.{
  PreKeysRequest, PreKeysResponse, PreKeyBundle, CheckPreKeyCountRequest, CheckPreKeyCountResponse,
  FetchPreKeyBundleRequest, FetchPreKeyBundleResponse,
}
use zenth_dht.Method.Updates.{
  Storage, UpdateManifestRequest, UpdateManifestResponse, UpdateChunkRequest, UpdateChunkResponse,
}
use zenth_dht.Method.SyncBlob.{
  SyncPushBlobRequest, SyncBlobRequest, SyncResponse, SyncFetchBlobResponse,
}
use zenth_dht.Method.Relay.{
  RelayPushRequest, RelayPushResponse, RelayFetchRequest, RelayFetchResponse, RelayAckRequest,
  RelayAckResponse,
}
use zenth_dht.Method.Recovery.{
  PublishRecoveryKeyRequest, PublishRecoveryKeyResponse, RecoveryClaimRequest,
  RecoveryClaimResponse,
}

pub record DhtRequest : Type 0 where
  pub method : ℤ
  pub payload : Bytes
  pub request_id : Bytes

pub record DhtResponse : Type 0 where
  pub success : Bool
  pub method : ℤ
  pub payload : Bytes
  pub error_message : Message
  pub timestamp : ℕ
  pub request_id : Bytes

-- `(bool, Vec<u8>, String)`
pub record Handled : Type 0 where
  pub success : Bool
  pub payload : Bytes
  pub error_message : Message

-- `Result<A, DecodeError>`, with the error as its text.
pub data Decoded (A : Type 0) : Type 0 where
  parsed : A → Decoded A
  malformed : String → Decoded A

-- prost's `decode` and `encode` for the messages of each method. A Vec<u8> takes all that is encoded,
-- so `encode` does not fail.
pub record Codec (A B : Type 0) : Type 0 where
  pub decode : Bytes → Decoded A
  pub encode : B → Bytes

pub record Codecs : Type 0 where
  pub decode_request : Bytes → Decoded DhtRequest
  pub encode_response : DhtResponse → Bytes
  pub registration : Codec RegistrationRequest RegistrationResponse
  pub login : Codec LoginRequest LoginResponse
  pub delete : Codec DeleteRequest DeleteResponse
  pub decode_friend_request : Bytes → Decoded FriendRequest
  pub lookup_user : Codec LookupUserRequest LookupUserResponse
  pub fetch_friend_requests : Codec FetchRequest (FetchResponse FriendRequest)
  pub decode_friend_response : Bytes → Decoded FriendResponse
  pub send_message : Codec ZenthSignalEnvelope SendMessageResponse
  pub fetch_messages : Codec FetchMessagesRequest FetchMessagesResponse
  pub fetch_friend_responses : Codec FetchRequest (FetchResponse FriendResponse)
  pub upload_prekeys : Codec PreKeysRequest PreKeysResponse
  pub fetch_prekey_bundle : Codec FetchPreKeyBundleRequest FetchPreKeyBundleResponse
  pub check_prekey_count : Codec CheckPreKeyCountRequest CheckPreKeyCountResponse
  pub replenish_prekeys : Codec PreKeysRequest PreKeysResponse
  pub update_manifest : Codec UpdateManifestRequest UpdateManifestResponse
  pub update_chunk : Codec UpdateChunkRequest UpdateChunkResponse
  pub sync_push_blob : Codec SyncPushBlobRequest SyncResponse
  pub sync_fetch_blob : Codec SyncBlobRequest SyncFetchBlobResponse
  pub sync_delete_blob : Codec SyncBlobRequest SyncResponse
  pub relay_push : Codec RelayPushRequest RelayPushResponse
  pub relay_fetch : Codec RelayFetchRequest RelayFetchResponse
  pub relay_ack : Codec RelayAckRequest RelayAckResponse
  pub decode_message_ack : Bytes → Decoded MessageAck
  pub publish_recovery_key : Codec PublishRecoveryKeyRequest PublishRecoveryKeyResponse
  pub recovery_claim : Codec RecoveryClaimRequest RecoveryClaimResponse

-- What the handlers take from the packages that they call.
pub record Packages : Type 0 where
  pub codecs : Codecs
  pub encode_friend_request : FriendRequest → Bytes
  pub encode_friend_response : FriendResponse → Bytes
  pub decode_bundle : Bytes → Option PreKeyBundle
  pub formats : Formats
  pub decoder : Decoder
  pub storage : Storage
  pub latest : NaiveDateTime
