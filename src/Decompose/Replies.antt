-- ===== src/Decompose/Replies.antt =====
-- handlers/decompose.rs: what a client can rely on in a response.
use zenth_dht.Prelude.{◌≡◌, refl, ℕ, Bool, true, false, String, Bytes, ◌↔◌}
use zenth_dht.Server.{no_message, Exit, returned, panicked, map_exit, Env, Readings, World}
use zenth_dht.Decompose.{
  StatusCode, status_ok, bad_request, status, respond, reply, process_request, handle_post,
}
use zenth_dht.Decompose.Codecs.{
  DhtRequest, DhtResponse, Handled, Decoded, parsed, malformed, Packages,
}
use zenth_dht.Decompose.Clear.{Clears, IsUnsendable, handled_clear}

module _ (env : Env) (packages : Packages) (at : Readings) (answered_at : ℕ) where
  -- The answer to a body that is a request.
  pub record IsAnswer (req : DhtRequest) (response : DhtResponse) (status : StatusCode)
      : Type 0 where
    pub same_method : response.method ≡ req.method
    pub same_id : response.request_id ≡ req.request_id
    pub accepted : (status ≡ status_ok) ↔ (response.success ≡ true)
    pub clear : response.success ≡ true → response.error_message ≡ no_message

  status_iff : (b : Bool) → (status env packages at answered_at b ≡ status_ok) ↔ (b ≡ true)
  status_iff true = (λ h. refl, λ h. refl)
  status_iff false = (λ h. cc, λ h. cc)

  -- How a body is answered.
  pub data Posts (posted : Bytes) (w : World) (r : Exit (StatusCode × Bytes)) (w' : World)
      : Type 0 where
    undecoded :
        (e : String) (bytes_out : Bytes)
        → packages.codecs.decode_request posted ≡ malformed e
        → r ≡ returned (bad_request, bytes_out)
        → w' ≡ w
        → Posts posted w r w'
    answers :
        (req : DhtRequest) (response : DhtResponse) (code : StatusCode)
        → packages.codecs.decode_request posted ≡ parsed req
        → r ≡ returned (code, packages.codecs.encode_response response)
        → IsAnswer req response code
        → Posts posted w r w'
    unanswered :
        (req : DhtRequest)
        → packages.codecs.decode_request posted ≡ parsed req
        → r ≡ panicked
        → IsUnsendable env packages at req
        → Posts posted w r w'

  abbrev pub PostOutcome : Bytes → World → Exit (StatusCode × Bytes) × World → Type 0
  PostOutcome posted w (r, w') = Posts posted w r w'

  by_exit :
      (posted : Bytes) (w w' : World) (req : DhtRequest) (r : Exit Handled)
      → packages.codecs.decode_request posted ≡ parsed req
      → Clears env packages at req r
      → Posts posted w
          (map_exit
            (reply env packages at answered_at)
            (map_exit (respond env packages at answered_at req) r))
          w'
  by_exit posted w w' req (returned h) good clear =
      answers req (respond env packages at answered_at req h) _ good refl
        (record { same_method = refl; same_id = refl; accepted = status_iff _; clear = clear })
  by_exit posted w w' req panicked good unsendable = unanswered req good refl unsendable

  by_body :
      (d : Decoded DhtRequest) (posted : Bytes) (w : World)
      → packages.codecs.decode_request posted ≡ d
      → PostOutcome posted w (handle_post env packages at answered_at posted w)
  unfolding handle_post process_request
  by_body (malformed e) posted w bad = rw (bad, handle_post) (undecoded e _ bad refl refl)
  by_body (parsed req) posted w good =
      rw (good, handle_post) (by_exit posted w _ req _ good (handled_clear env packages at req w))

  -- A body that is no request is answered with Bad Request and changes nothing. The answer to a request
  -- names its method and its id; its status is OK exactly if it reports success, and no success carries
  -- an error message, whatever the method and the state. Only a request to send a message whose expiry
  -- is no date gets no answer, since its handler panics.
  pub handle_post_outcome :
      (posted : Bytes) (w : World)
      → PostOutcome posted w (handle_post env packages at answered_at posted w)
  handle_post_outcome posted w = by_body (packages.codecs.decode_request posted) posted w refl
