-- ===== src/Websocket/Handler/Samples.antt =====
-- The packages of the sockets of a small server: a transfer id, a hash and a chunk are encoded as
-- themselves, and no method is one of the socket's own.
use zenth_dht.Prelude.{some, [], pos}
use zenth_dht.Websocket.Handler.Messages.{WsPackages, other_method}

abbrev pub ws : WsPackages
ws = record {
  method_of = λ m. other_method;
  method_number = λ m. pos 31;
  notification_number = λ n. pos 1;
  decode_file_available = some;
  decode_chunk_request =
      λ b. some (record { transfer_id = b; chunk_index = 0; requester_hash = [] });
  encode_chunk_request = λ r. r.requester_hash;
  decode_chunk = λ b. some (record { recipient_hash = b; content = [] });
  encode_chunk = λ c. c.recipient_hash;
  decode_check_online = some;
  encode_check_online = λ b. [];
  encode_notification = λ n. n.payload;
}
