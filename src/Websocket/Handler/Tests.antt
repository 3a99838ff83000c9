-- ===== src/Websocket/Handler/Tests.antt =====
-- websocket/handler.rs on a small server.
use zenth_dht.Prelude.{
  ◌≡◌, ◌↔◌, ◌⊎◌, ◌++◌, refl, ℕ, true, some, List, [], ◌∷◌, Bytes, pos, replicate, bytes_eq,
  no_entries, insert, arith,
}
use zenth_dht.Models.{Session}
use zenth_dht.Crypto.{verify_dilithium_signature}
use zenth_dht.Server.{World, Message, statement, act, body, give, reject_if, row_or, ◌>>=◌}
use zenth_dht.Server.Samples.{
  sample_env, noon, alice_hash, bob_hash, sample_token, sample_db, sample_world,
}
use zenth_dht.Method.Users.{find_user}
use zenth_dht.Method.Login.{
  second_step, handle_proof_verification, check_proof, insert_session, find_challenge, is_outdated,
  login,
}
use zenth_dht.Method.Login.Proof.{issued}
use zenth_dht.Method.Samples.{answering, greeting}
use zenth_dht.Method.Message.{
  expires_at, large_admitted, mid_admitted, ask, store_message, send_message,
}
use zenth_dht.Decompose.{arms, match_arm, process_request}
use zenth_dht.Decompose.Codecs.{Packages}
use zenth_dht.Decompose.Handlers.{handle_send_message}
use zenth_dht.Decompose.Serve.{answered_exit, decoded_exit, serve_exit}
use zenth_dht.Decompose.Samples.{accepting, sample_codecs, sample_packages}
use zenth_dht.Websocket.ConnectionManager.{new, is_connected, register}
use zenth_dht.Websocket.Handler.{
  Event, Frame, binary, received, close, binary_first, find_session, verify_session_token,
  authenticate, join, leave, serve_socket, serve_user, handle_websocket,
}
use zenth_dht.Websocket.Handler.Authentication.{Admits, authenticate_iff}
use zenth_dht.Websocket.Handler.AfterLogin.{Served, serve_all, login_opens_socket}
use zenth_dht.Websocket.Handler.Panics.{Panics}
use zenth_dht.Websocket.Handler.Endings.{SessionEnds, handle_websocket_outcome}
use zenth_dht.Websocket.Handler.Messages.{
  file_chunk_request, file_chunk, manager_of, build_notification, encode_error, by_method,
  process_ws_request, ws_file_available, ws_file_chunk_request, ws_file_chunk,
}
use zenth_dht.Websocket.Handler.Samples.{ws}
use zenth_dht.Websocket.Handler.Transfers.{
  Forwarded, chunk_request_outcome, delivered, transfer_goes_through,
}

abbrev of_alice : Session
of_alice = record {
  session_token = sample_token;
  user_hash_id = alice_hash;
  session_expiry = 2_000_000_000;
  created_at = 0;
}

abbrev logged_in : World
logged_in = record sample_world { db = record sample_db { sessions = of_alice ∷ [] } }

authenticate_iff_example :
    ((authenticate sample_env noon (binary_first (alice_hash ++ sample_token)) logged_in).0
      ≡ some alice_hash)
    ↔ Admits sample_env noon (binary_first (alice_hash ++ sample_token)) logged_in alice_hash
authenticate_iff_example =
    authenticate_iff sample_env noon (binary_first (alice_hash ++ sample_token)) logged_in
      alice_hash

login_issues : issued (login sample_env noon answering sample_world).0 ≡ some sample_token
unfolding login second_step handle_proof_verification check_proof insert_session find_challenge
    is_outdated verify_dilithium_signature find_user bytes_eq statement act body give reject_if
    row_or ◌>>=◌
login_issues = refl

-- An unknown method in between.
abbrev in_between : List Served
in_between =
    record {
      at = noon;
      answered_at = 1_001;
      request = record { method = pos 99; payload = []; request_id = [] };
    }
    ∷ []

login_opens_socket_example :
    (authenticate sample_env noon (binary_first (alice_hash ++ sample_token)) (
      serve_all sample_env sample_packages in_between
        (login sample_env noon answering sample_world).1)).0
    ≡ some alice_hash
login_opens_socket_example =
    login_opens_socket sample_env sample_packages noon noon answering sample_world sample_token
      in_between login_issues refl (omega arith) (refl, tt) (omega arith) refl

abbrev transfer : Bytes
transfer = replicate 16 5

abbrev both_connected : World
both_connected = record sample_world {
  manager = some (record {
    connections = insert alice_hash 0 (insert bob_hash 1 no_entries);
    opened = 2;
    log = [];
  });
}

abbrev announced_world : World
announced_world =
    (ws_file_available sample_env sample_packages ws noon 1_001 transfer alice_hash
      both_connected).1

transfer_goes_through_example :
    (manager_of
      (ws_file_chunk sample_env sample_packages ws noon 1_003 bob_hash
        (ws_file_chunk_request sample_env sample_packages ws noon 1_002 transfer bob_hash
          announced_world).1).1).log
    ≡ delivered 1 bob_hash
        (build_notification sample_env sample_packages ws noon 1_003 file_chunk bob_hash)
      ∷ delivered 0 alice_hash
          (build_notification sample_env sample_packages ws noon 1_002 file_chunk_request bob_hash)
      ∷ []
unfolding bytes_eq
transfer_goes_through_example =
    transfer_goes_through sample_env sample_packages ws noon noon noon 1_001 1_002 1_003 alice_hash
      bob_hash transfer transfer bob_hash
      (record { transfer_id = transfer; chunk_index = 0; requester_hash = [] })
      (record { recipient_hash = bob_hash; content = [] }) 0 1 both_connected refl refl refl refl
      refl refl (omega arith) refl refl refl refl

chunk_request_outcome_example :
    let (r, w') =
      ws_file_chunk_request sample_env sample_packages ws noon 1_002 transfer bob_hash
        announced_world in
    ((w' ≡ announced_world)
      × ((m : Message) × (r ≡ encode_error sample_env sample_packages ws noon 1_002 m)))
    ⊎ Forwarded sample_env sample_packages ws noon 1_002 transfer bob_hash announced_world r w'
chunk_request_outcome_example =
    chunk_request_outcome sample_env sample_packages ws noon 1_002 transfer bob_hash announced_world

abbrev one_message : List Event
one_message = received (1 ∷ []) true ∷ close ∷ []

handle_websocket_outcome_example :
    let (frames, w') =
      handle_websocket sample_env sample_packages ws
        (λ x. x)
        noon
        (binary_first (alice_hash ++ sample_token))
        one_message
        logged_in in
    ((frames ≡ []) × ((n : ℕ) × (w' ≡ record logged_in { statements = n })))
    ⊎ ((u : Bytes) × Admits sample_env noon (binary_first (alice_hash ++ sample_token)) logged_in u
        × (let (_, ending, v) = serve_socket sample_env sample_packages ws u one_message (
              join u
                (authenticate sample_env noon
                  (binary_first (alice_hash ++ sample_token))
                  logged_in).1) in
            SessionEnds (Panics sample_env sample_packages ws one_message) u (λ x. x) v w' ending))
handle_websocket_outcome_example =
    handle_websocket_outcome sample_env sample_packages ws (λ x. x) noon
      (binary_first (alice_hash ++ sample_token)) one_message logged_in

-- A message that is to last 2^62 hours.
abbrev everlasting : Packages
everlasting = record sample_packages {
  codecs = record sample_codecs {
    send_message = accepting (record greeting { sequence_number = 4_611_686_018_427_387_904 });
  };
}

-- Alice's socket sends it.
abbrev after_panic : List Frame × World
after_panic =
    handle_websocket sample_env everlasting ws (λ x. x) noon
      (binary_first (alice_hash ++ sample_token)) (binary noon 1_001 (12 ∷ []) true ∷ close ∷ [])
      logged_in

-- It gets no reply, and she is still registered as connected.
panic_leaves_connected :
    (after_panic.0 ≡ []) × (is_connected alice_hash (manager_of after_panic.1) ≡ true)
unfolding handle_websocket serve_user serve_socket authenticate verify_session_token find_session
    process_ws_request by_method process_request match_arm arms handle_send_message serve_exit
    decoded_exit answered_exit send_message store_message expires_at large_admitted mid_admitted ask
    verify_dilithium_signature find_user bytes_eq statement act body give reject_if row_or ◌>>=◌
    join leave is_connected register new
panic_leaves_connected = (refl, refl)
