-- ===== src/System/Invariant.antt =====
-- main.rs: what every request and every round of the cleanup keeps of the database holds in every state
-- that the server reaches.
use mathlib.Core.Path.{subst}
use zenth_dht.Prelude.{◌≡◌, ◌∙◌, refl, sym, ℕ, Bool, Bytes, arith}
use zenth_dht.Models.{Db}
use zenth_dht.Server.{Env, Readings, World}
use zenth_dht.Server.Keeps.{Keeps}
use zenth_dht.Cleanup.{clean_round}
use zenth_dht.Decompose.{process_request, handle_post}
use zenth_dht.Decompose.Codecs.{Decoded, parsed, malformed, DhtRequest, Packages}
use zenth_dht.System.{
  Step, posted, spoken, judged, joined, left, forgotten, cleaned, Reach, here, then,
}
use zenth_dht.Websocket.Handler.{join, leave_manager, leave_registry}
use zenth_dht.Websocket.Handler.Endings.{authenticate_untouched}
use zenth_dht.Websocket.Handler.Messages.{
  WsPackages, WsMethod, available, chunk_request, chunk, check_online, other_method, send, announce,
  ask_sender, ws_file_available, ws_file_chunk_request, ws_file_chunk, ws_check_online, by_method,
  process_ws_request,
}

module _ (I : Db → Type 0) (env : Env) (packages : Packages)
    (requested : (at : Readings) (answered_at : ℕ) (req : DhtRequest) (w : World)
      → I w.db
      → I (process_request env packages at answered_at req w).1.db) where
  module _ (at : Readings) (answered_at : ℕ) (w : World) (kept : I w.db) where
    handle_post_keeps : (body : Bytes) → I (handle_post env packages at answered_at body w).1.db
    unfolding handle_post
    handle_post_keeps body = by_request (packages.codecs.decode_request body) refl
      where
        by_request :
            (d : Decoded DhtRequest)
            → packages.codecs.decode_request body ≡ d
            → I (handle_post env packages at answered_at body w).1.db
        by_request (malformed e) bad = rw (bad, handle_post) kept
        by_request (parsed req) good = rw (good, handle_post) (requested at answered_at req w kept)

    module _ (ws : WsPackages) where
      available-db :
          (payload user_hash : Bytes)
          → (ws_file_available env packages ws at answered_at payload user_hash w).1.db ≡ w.db
      unfolding ws_file_available announce
      available-db payload user_hash = ground arith

      chunk_request-db :
          (payload user_hash : Bytes)
          → (ws_file_chunk_request env packages ws at answered_at payload user_hash w).1.db ≡ w.db
      unfolding ws_file_chunk_request ask_sender send
      chunk_request-db payload user_hash = ground arith

      chunk-db :
          (payload : Bytes) → (ws_file_chunk env packages ws at answered_at payload w).1.db ≡ w.db
      unfolding ws_file_chunk send
      chunk-db payload = ground arith

      check_online-db :
          (payload request_id : Bytes)
          → (ws_check_online env packages ws at answered_at payload request_id w).1.db ≡ w.db
      unfolding ws_check_online
      check_online-db payload request_id = ground arith

      by_method_keeps :
          (m : WsMethod) (req : DhtRequest) (user_hash : Bytes)
          → I (by_method env packages ws at answered_at m req user_hash w).1.db
      unfolding by_method
      by_method_keeps available req user_hash =
          subst I (sym (available-db req.payload user_hash)) kept
      by_method_keeps chunk_request req user_hash =
          subst I (sym (chunk_request-db req.payload user_hash)) kept
      by_method_keeps chunk req user_hash = subst I (sym (chunk-db req.payload)) kept
      by_method_keeps check_online req user_hash =
          subst I (sym (check_online-db req.payload req.request_id)) kept
      by_method_keeps other_method req user_hash = requested at answered_at req w kept

      process_ws_request_keeps :
          (user_hash frame : Bytes)
          → I (process_ws_request env packages ws at answered_at user_hash frame w).1.db
      unfolding process_ws_request
      process_ws_request_keeps user_hash frame =
          by_request (packages.codecs.decode_request frame) refl
        where
          by_request :
              (d : Decoded DhtRequest)
              → packages.codecs.decode_request frame ≡ d
              → I (process_ws_request env packages ws at answered_at user_hash frame w).1.db
          by_request (malformed e) bad = rw (bad, process_ws_request) kept
          by_request (parsed req) good =
              rw (good, process_ws_request)
                (by_method_keeps (ws.method_of req.method) req user_hash)

  module _ (ws : WsPackages)
      (rounds : (at : Readings) (tick : ℕ) (connected : Bool)
        → Keeps I (clean_round env at tick connected)) where
    step_keeps : (w w' : World) → Step env packages ws w w' → I w.db → I w'.db
    unfolding join leave_manager leave_registry
    step_keeps w w' (posted at n body e) h =
        subst (λ (x : World). I x.db) (sym e) (handle_post_keeps at n w h body)
    step_keeps w w' (spoken at n u frame e) h =
        subst (λ (x : World). I x.db) (sym e) (process_ws_request_keeps at n w h ws u frame)
    step_keeps w w' (judged at first e) h =
        subst (λ (x : World). I x.db) (sym (e ∙ (authenticate_untouched env at first w).1)) h
    step_keeps w w' (joined u e) h = subst (λ (x : World). I x.db) (sym e) h
    step_keeps w w' (left u e) h = subst (λ (x : World). I x.db) (sym e) h
    step_keeps w w' (forgotten u e) h = subst (λ (x : World). I x.db) (sym e) h
    step_keeps w w' (cleaned at tick connected e) h =
        subst (λ (x : World). I x.db) (sym e) ((rounds at tick connected).at w h)

    pub reach_keeps : (w w' : World) → I w.db → Reach env packages ws w w' → I w'.db
    reach_keeps w w' h here = h
    reach_keeps w w' h (then {v} r step) = step_keeps v w' step (reach_keeps w v h r)
