-- ===== src/Websocket/Handler/Transfers.antt =====
-- websocket/handler.rs: the way of a file transfer, from its announcement to the chunk that arrives.
use zenth_dht.Prelude.{
  ℕ, ◌-◌, ◌<◌, ◌≡◌, refl, ◌∙◌, ◌⊎◌, inl, inr, true, false, Option-cases, Bool-cases, List, [], ◌∷◌,
  some, Bytes, Map, ap, bytes_eq_refl, ==_iff, length, is_empty, ◌==◌, arith,
}
use zenth_dht.Server.{Message, Env, Readings, World}
use zenth_dht.Websocket.ConnectionManager.{Sent, ConnectionManager, send_to_user}
use zenth_dht.Websocket.FileRelay.{Registry, transfer_ttl, register, get_sender, parse_transfer_id}
use zenth_dht.Decompose.Codecs.{Packages}
use zenth_dht.Websocket.Handler.Messages.{
  WsPackages, WsFileChunkRequest, WsFileChunkResponse, file_chunk_request, file_chunk,
  chunk_request, manager_of, send, build_notification, encode_ok, encode_error, announce,
  ask_sender, ws_file_available, ws_file_chunk_request, ws_file_chunk,
}

-- A request for a chunk was passed on: of a transfer that a sender has announced, to this sender.
pub record Forwarded (env : Env) (packages : Packages) (ws : WsPackages) (at : Readings)
    (answered_at : ℕ) (payload requester : Bytes) (w : World) (r : Bytes) (w' : World)
    : Type 0 where
  pub request : WsFileChunkRequest
  pub sender : Bytes
  pub decoded : ws.decode_chunk_request payload ≡ some request
  pub is_id : length request.transfer_id ≡ 16
  pub announced : get_sender request.transfer_id at.instant_read w.registry ≡ some sender
  pub passed_on :
      w'
      ≡ send env sender
          (build_notification env packages ws at answered_at file_chunk_request
            (ws.encode_chunk_request (record request { requester_hash = requester })))
          w
  pub reply : r ≡ encode_ok env packages ws at answered_at chunk_request []

module _ (env : Env) (packages : Packages) (ws : WsPackages) (at : Readings) (answered_at : ℕ) where
  -- A request for a chunk is refused with an error and changes nothing, or it is of an announced
  -- transfer, and its sender alone is sent the request, with the hash of the socket's own user as the
  -- requester, whatever the client has put there.
  pub chunk_request_outcome :
      (payload requester : Bytes) (w : World)
      → let (r, w') = ws_file_chunk_request env packages ws at answered_at payload requester w in
        ((w' ≡ w) × ((m : Message) × (r ≡ encode_error env packages ws at answered_at m)))
        ⊎ Forwarded env packages ws at answered_at payload requester w r w'
  unfolding ws_file_chunk_request ask_sender parse_transfer_id
  chunk_request_outcome payload requester w =
      elim (Option-cases (ws.decode_chunk_request payload)) [
        | inl bad ↦ rw (bad, ws_file_chunk_request) (inl (refl, (_, refl)))
        | inr (req, parsed) ↦ elim (Bool-cases (length req.transfer_id == 16)) [
          | inl sized ↦
              elim (Option-cases (get_sender req.transfer_id at.instant_read w.registry)) [
                | inl unknown ↦
                    rw (parsed, ws_file_chunk_request)
                      (rw sized (rw (unknown, ask_sender) (inl (refl, (_, refl)))))
                | inr (s, known) ↦
                    rw (parsed, ws_file_chunk_request)
                      (rw sized (
                        rw (known, ask_sender)
                          (inr (record {
                            request = req;
                            sender = s;
                            decoded = parsed;
                            is_id = ground arith;
                            announced = known;
                            passed_on = refl;
                            reply = refl;
                          }))))
              ]
          | inr other ↦ rw (parsed, ws_file_chunk_request) (rw other (inl (refl, (_, refl))))
        ]
      ]

abbrev pub delivered : ℕ → Bytes → Bytes → Sent
delivered c recipient payload = record {
  channel = c;
  message = record { recipient_hash = recipient; payload = payload };
}

-- A message to a connected user goes on the user's channel, and connects nobody.
send_connected :
    (env : Env) (u payload : Bytes) (c : ℕ) (w : World)
    → (manager_of w).connections u ≡ some c
    → env.listening c ≡ true
    → ((manager_of (send env u payload w)).log ≡ delivered c u payload ∷ (manager_of w).log)
      × ((manager_of (send env u payload w)).connections ≡ (manager_of w).connections)
unfolding send send_to_user
send_connected env u payload c w connected heard =
    rw (connected, send_to_user) (rw heard (refl, refl))

-- An announcement is seen until the lifetime of a transfer is over, and sends nothing.
announced :
    (env : Env) (packages : Packages) (ws : WsPackages) (at : Readings) (answered_at : ℕ)
    (payload user tid : Bytes) (w : World)
    → ws.decode_file_available payload ≡ some tid
    → length tid ≡ 16
    → let w' = (ws_file_available env packages ws at answered_at payload user w).1 in
      (w'.manager ≡ w.manager) × (w'.registry ≡ register tid user at.instant w.registry)
unfolding ws_file_available announce parse_transfer_id
announced env packages ws at answered_at payload user tid w parsed sized =
    rw (parsed, announce) (ground arith)

module _ (env : Env) (packages : Packages) (ws : WsPackages) (at : Readings) (answered_at : ℕ) where
  requested :
      (payload requester sender : Bytes) (req : WsFileChunkRequest) (w : World)
      → ws.decode_chunk_request payload ≡ some req
      → length req.transfer_id ≡ 16
      → get_sender req.transfer_id at.instant_read w.registry ≡ some sender
      → (ws_file_chunk_request env packages ws at answered_at payload requester w).1
        ≡ send env sender
            (build_notification env packages ws at answered_at file_chunk_request
              (ws.encode_chunk_request (record req { requester_hash = requester })))
            w
  unfolding ws_file_chunk_request ask_sender parse_transfer_id
  requested payload requester sender req w parsed sized known =
      rw (parsed, ws_file_chunk_request) (rw ((==_iff _ 16).1 sized) (rw (known, ask_sender) refl))

  handed_over :
      (payload : Bytes) (c : WsFileChunkResponse) (w : World)
      → ws.decode_chunk payload ≡ some c
      → is_empty c.recipient_hash ≡ false
      → (ws_file_chunk env packages ws at answered_at payload w).1
        ≡ send env c.recipient_hash
            (build_notification env packages ws at answered_at file_chunk (ws.encode_chunk c))
            w
  unfolding ws_file_chunk
  handed_over payload c w parsed named = rw (parsed, ws_file_chunk) (rw named refl)

known_after :
    (tid user : Bytes) (now read : ℕ) (m : Registry)
    → read - now < transfer_ttl
    → get_sender tid read (register tid user now m) ≡ some user
unfolding get_sender register
known_after tid user now read m h = ground (arith, bytes_eq_refl tid)

-- A file transfer goes through: when user `u` has announced a transfer and user `v` asks for a chunk
-- of it within its lifetime, both connected to channels that are heard, the request arrives on the
-- channel of `u` with `v` as the requester; and when `u` then sends the chunk for `v`, it arrives on
-- the channel of `v`. Nothing else is sent.
pub transfer_goes_through :
    (env : Env) (packages : Packages) (ws : WsPackages) (at at' at'' : Readings) (n n' n'' : ℕ)
    (u v announcement payload payload' : Bytes) (req : WsFileChunkRequest)
    (part : WsFileChunkResponse) (c d : ℕ) (w : World)
    → ws.decode_file_available announcement ≡ some req.transfer_id
    → length req.transfer_id ≡ 16
    → ws.decode_chunk_request payload ≡ some req
    → ws.decode_chunk payload' ≡ some part
    → part.recipient_hash ≡ v
    → is_empty v ≡ false
    → at'.instant_read - at.instant < transfer_ttl
    → (manager_of w).connections u ≡ some c
    → env.listening c ≡ true
    → (manager_of w).connections v ≡ some d
    → env.listening d ≡ true
    → let w1 = (ws_file_available env packages ws at n announcement u w).1 in
      let w2 = (ws_file_chunk_request env packages ws at' n' payload v w1).1 in
      let w3 = (ws_file_chunk env packages ws at'' n'' payload' w2).1 in
      (manager_of w3).log
      ≡ delivered d v
          (build_notification env packages ws at'' n'' file_chunk (ws.encode_chunk part))
        ∷ delivered c u (
            build_notification env packages ws at' n' file_chunk_request
              (ws.encode_chunk_request (record req { requester_hash = v })))
        ∷ (manager_of w).log
transfer_goes_through env packages ws at at' at'' n n' n'' u v announcement payload payload' req
      part c d w parsed sized parsed' parsed'' for_v named in_time u_connected u_heard v_connected
      v_heard =
    let w1 = (ws_file_available env packages ws at n announcement u w).1 in
    let w2 = (ws_file_chunk_request env packages ws at' n' payload v w1).1 in
    let start = announced env packages ws at n announcement u req.transfer_id w parsed sized in
    let same : manager_of w1 ≡ manager_of w = ground (arith, start) in
    let seen : get_sender req.transfer_id at'.instant_read w1.registry ≡ some u =
      rw (start.1) (known_after req.transfer_id u at.instant at'.instant_read w.registry in_time) in
    let asked = requested env packages ws at' n' payload v u req w1 parsed' sized seen in
    let note =
      build_notification env packages ws at' n' file_chunk_request
        (ws.encode_chunk_request (record req { requester_hash = v })) in
    let first =
      send_connected env u note c w1
        (ap (λ (m : ConnectionManager). m.connections u) same ∙ u_connected) u_heard in
    let v_still : (manager_of w2).connections part.recipient_hash ≡ some d =
      ap (λ (x : World). (manager_of x).connections part.recipient_hash) asked
      ∙ ap (λ (m : Map ℕ). m part.recipient_hash) first.1
      ∙ ap (λ (m : ConnectionManager). m.connections part.recipient_hash) same
      ∙ ap (manager_of w).connections for_v
      ∙ v_connected in
    let handed =
      handed_over env packages ws at'' n'' payload' part w2 parsed'' (ap is_empty for_v ∙ named) in
    let note' = build_notification env packages ws at'' n'' file_chunk (ws.encode_chunk part) in
    let second = send_connected env part.recipient_hash note' d w2 v_still v_heard in
    ap (λ (x : World). (manager_of x).log) handed
    ∙ second.0
    ∙ ap (λ (r : Bytes). delivered d r note' ∷ (manager_of w2).log) for_v
    ∙ ap (λ (l : List Sent). delivered d v note' ∷ l)
        (ap (λ (x : World). (manager_of x).log) asked
          ∙ first.0
          ∙ ap (λ (m : ConnectionManager). delivered c u note ∷ m.log) same)
