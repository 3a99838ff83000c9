-- ===== src/Decompose/Samples.antt =====
-- The packages of a small server: a request is the number of its method followed by its payload, and
-- any payload of a login, a deletion or a message is that of `Method.Samples`.
use zenth_dht.Prelude.{true, none, [], ◌∷◌, Bytes, pos, if◌then◌else◌}
use zenth_dht.Method.Samples.{answering, deleting, greeting, formats}
use zenth_dht.Method.Updates.{unreachable}
use zenth_dht.Decompose.Codecs.{DhtRequest, Decoded, parsed, malformed, Codec, Codecs, Packages}

abbrev pub refusing : {A B : Type 0} → Codec A B
refusing = record { decode = λ b. malformed "unexpected"; encode = λ r. [] }

abbrev pub accepting : {A B : Type 0} → A → Codec A B
accepting a = record { decode = λ b. parsed a; encode = λ r. 1 ∷ [] }

abbrev split_request : Bytes → Decoded DhtRequest
split_request [] = malformed "empty"
split_request (n ∷ payload) =
    parsed (record { method = pos n; payload = payload; request_id = 9 ∷ [] })

abbrev pub sample_codecs : Codecs
sample_codecs = record {
  decode_request = split_request;
  encode_response = λ r. (if r.success then 1 else 0) ∷ r.request_id;
  registration = refusing;
  login = accepting answering;
  delete = accepting deleting;
  decode_friend_request = λ b. malformed "unexpected";
  lookup_user = refusing;
  fetch_friend_requests = refusing;
  decode_friend_response = λ b. malformed "unexpected";
  send_message = accepting greeting;
  fetch_messages = refusing;
  fetch_friend_responses = refusing;
  upload_prekeys = refusing;
  fetch_prekey_bundle = refusing;
  check_prekey_count = refusing;
  replenish_prekeys = refusing;
  update_manifest = refusing;
  update_chunk = refusing;
  sync_push_blob = refusing;
  sync_fetch_blob = refusing;
  sync_delete_blob = refusing;
  relay_push = refusing;
  relay_fetch = refusing;
  relay_ack = refusing;
  decode_message_ack = λ b. malformed "unexpected";
  publish_recovery_key = refusing;
  recovery_claim = refusing;
}

abbrev pub sample_packages : Packages
sample_packages = record {
  codecs = sample_codecs;
  encode_friend_request = λ r. [];
  encode_friend_response = λ r. [];
  decode_bundle = λ b. none;
  formats = formats;
  decoder = record {
    decode_prekey = λ b. none;
    has_base_key_or_message = λ b. true;
    decode_regular_or_default = λ b. b;
  };
  storage = record {
    get_manifest = unreachable;
    get_range = λ u a b. unreachable;
    parse_manifest = λ b. none;
    decode_base64 = λ s. none;
  };
  latest = 8_000_000_000_000_000_000;
}

-- A message from Alice to Bob, as a request.
abbrev pub sending : DhtRequest
sending = record { method = pos 12; payload = []; request_id = 9 ∷ [] }
