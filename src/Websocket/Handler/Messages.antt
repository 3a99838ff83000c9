-- ===== src/Websocket/Handler/Messages.antt =====
-- websocket/handler.rs: one request of a socket, the messages of file transfers among them. prost and
-- the numbers of its enums are the parameter WsPackages.
use zenth_dht.Prelude.{
  ℕ, Bool, true, false, [], Option, none, some, Bytes, ℤ, pos, is_empty, if◌then◌else◌,
}
use zenth_dht.Server.{
  Message, text, with_text, no_message, Exit, returned, map_exit, Env, Readings, World,
}
use zenth_dht.Websocket.ConnectionManager.{ConnectionManager, new, send_to_user, is_connected}
use zenth_dht.Websocket.FileRelay.{register, get_sender, parse_transfer_id}
use zenth_dht.Decompose.{process_request}
use zenth_dht.Decompose.Codecs.{DhtRequest, parsed, malformed, Packages}

-- The methods that the handler tells apart; every other number is `other_method`.
pub data WsMethod : Type 0 where
  available : WsMethod
  chunk_request : WsMethod
  chunk : WsMethod
  check_online : WsMethod
  other_method : WsMethod

pub data NotificationType : Type 0 where
  file_chunk_request : NotificationType
  file_chunk : NotificationType

pub record WsFileChunkRequest : Type 0 where
  pub transfer_id : Bytes
  pub chunk_index : ℕ
  pub requester_hash : Bytes

-- A chunk; `content` are the fields that the server passes on unread.
pub record WsFileChunkResponse : Type 0 where
  pub recipient_hash : Bytes
  pub content : Bytes

pub record WsNotification : Type 0 where
  pub notification_type : ℤ
  pub timestamp : ℕ
  pub payload : Bytes

pub record WsPackages : Type 0 where
  pub method_of : ℤ → WsMethod
  pub method_number : WsMethod → ℤ
  pub notification_number : NotificationType → ℤ
  pub decode_file_available : Bytes → Option Bytes
  pub decode_chunk_request : Bytes → Option WsFileChunkRequest
  pub encode_chunk_request : WsFileChunkRequest → Bytes
  pub decode_chunk : Bytes → Option WsFileChunkResponse
  pub encode_chunk : WsFileChunkResponse → Bytes
  pub decode_check_online : Bytes → Option Bytes
  pub encode_check_online : Bool → Bytes
  pub encode_notification : WsNotification → Bytes

-- main hands the socket the manager that it has made the global one.
abbrev pub manager_of : World → ConnectionManager
manager_of w = elim w.manager [ none ↦ new | some m ↦ m ]

-- `send_to_user`, whose result the code ignores.
unfoldable pub send : Env → Bytes → Bytes → World → World
send env recipient payload w = record w {
  manager = some (send_to_user env.listening recipient payload (manager_of w)).1;
}

module _ (env : Env) (packages : Packages) (ws : WsPackages) (at : Readings) (answered_at : ℕ) where
  unfoldable pub build_notification : NotificationType → Bytes → Bytes
  build_notification kind payload = ws.encode_notification (record {
    notification_type = ws.notification_number kind;
    timestamp = at.unix_secs;
    payload = payload;
  })

  unfoldable pub encode_response : WsMethod → Bytes → Bytes → Bytes
  encode_response method request_id payload = packages.codecs.encode_response (record {
    success = true;
    method = ws.method_number method;
    payload = payload;
    error_message = no_message;
    timestamp = answered_at;
    request_id = request_id;
  })

  abbrev pub encode_ok : WsMethod → Bytes → Bytes
  encode_ok method payload = encode_response method [] payload

  unfoldable pub encode_error : Message → Bytes
  encode_error m = packages.codecs.encode_response (record {
    success = false;
    method = pos 0;
    payload = [];
    error_message = m;
    timestamp = answered_at;
    request_id = [];
  })

  -- The registry once a sender has announced a transfer, if its id is one.
  unfoldable pub announce : Option Bytes → Bytes → World → World
  announce none user_hash w = w
  announce (some raw) user_hash w = elim (parse_transfer_id raw) [
    | none ↦ w
    | some tid ↦ record w { registry = register tid user_hash at.instant w.registry }
  ]

  unfoldable pub ws_file_available : Bytes → Bytes → World → Bytes × World
  ws_file_available payload user_hash w =
      (encode_ok available [], announce (ws.decode_file_available payload) user_hash w)

  -- The request for a chunk as it goes to the sender.
  abbrev pub forward : WsFileChunkRequest → Bytes → WsFileChunkRequest
  forward req requester_hash = record req { requester_hash = requester_hash }

  unfoldable pub ask_sender : WsFileChunkRequest → Bytes → Bytes → World → Bytes × World
  ask_sender req requester_hash tid w = elim (get_sender tid at.instant_read w.registry) [
    | none ↦ (encode_error (text "transfert inconnu ou expéditeur hors ligne"), w)
    | some sender_hash ↦ (
      encode_ok chunk_request [],
      send env sender_hash
          (build_notification file_chunk_request
            (ws.encode_chunk_request (forward req requester_hash)))
          w,
    )
  ]

  unfoldable pub ws_file_chunk_request : Bytes → Bytes → World → Bytes × World
  ws_file_chunk_request payload requester_hash w = elim (ws.decode_chunk_request payload) [
    | none ↦ (encode_error (text "payload WsFileChunkRequest invalide"), w)
    | some req ↦ elim (parse_transfer_id req.transfer_id) [
      | none ↦ (encode_error (text "transfer_id invalide (doit être 16 bytes)"), w)
      | some tid ↦ ask_sender req requester_hash tid w
    ]
  ]

  unfoldable pub ws_file_chunk : Bytes → World → Bytes × World
  ws_file_chunk payload w = elim (ws.decode_chunk payload) [
    | none ↦ (encode_error (text "payload WsFileChunkResponse invalide"), w)
    | some c ↦
        (if is_empty c.recipient_hash then (encode_error (text "recipient_hash manquant"), w) else (
          encode_ok chunk [],
          send env c.recipient_hash (build_notification file_chunk (ws.encode_chunk c)) w,
        ))
  ]

  unfoldable pub ws_check_online : Bytes → Bytes → World → Bytes × World
  ws_check_online payload request_id w = elim (ws.decode_check_online payload) [
    | none ↦ (encode_error (text "payload WsCheckOnlineRequest invalide"), w)
    | some target ↦ (
      encode_response check_online request_id
          (ws.encode_check_online (is_connected target (manager_of w))),
      w,
    )
  ]

  -- The messages of file transfers do not panic.
  abbrev replying : Bytes × World → Exit Bytes × World
  replying (response, w) = (returned response, w)

  unfoldable pub by_method : WsMethod → DhtRequest → Bytes → World → Exit Bytes × World
  by_method available req user_hash w = replying (ws_file_available req.payload user_hash w)
  by_method chunk_request req user_hash w = replying (ws_file_chunk_request req.payload user_hash w)
  by_method chunk req user_hash w = replying (ws_file_chunk req.payload w)
  by_method check_online req user_hash w = replying (ws_check_online req.payload req.request_id w)
  by_method other_method req user_hash w =
      let (response, w') = process_request env packages at answered_at req w in
      (map_exit packages.codecs.encode_response response, w')

  unfoldable pub process_ws_request : Bytes → Bytes → World → Exit Bytes × World
  process_ws_request user_hash frame w = elim (packages.codecs.decode_request frame) [
    | malformed e ↦ (returned (encode_error (with_text "Décodage DhtRequest échoué: {}" e)), w)
    | parsed req ↦ by_method (ws.method_of req.method) req user_hash w
  ]
