-- ===== src/Decompose/Serve.antt =====
-- handlers/decompose.rs: what the handle_* functions have in common.
use zenth_dht.Prelude.{Bool, true, false, [], String, Bytes, if◌then◌else◌}
use zenth_dht.Server.{Message, no_message, Result, done, failed, Exit, returned, panicked, World}
use zenth_dht.Method.Contact.{Answer}
use zenth_dht.Decompose.Codecs.{Handled, Decoded, parsed, malformed, Codec}

abbrev pub refused : Message → Handled
refused m = record { success = false; payload = []; error_message = m }

-- `(success, buf, String::new())`
abbrev pub plain : Bool → Bytes → Handled
plain success payload = record { success = success; payload = payload; error_message = no_message }

-- `(success, buf, if success { String::new() } else { error_message })`
abbrev pub explained : Bool → Message → Bytes → Handled
explained success m payload = record {
  success = success;
  payload = payload;
  error_message = if success then no_message else m;
}

module _ {B : Type 0} where
  -- `match result { Ok(response) => reply, Err(e) => (false, vec![], shown(e)) }`
  unfoldable pub answered :
      (B → Bytes) → (B → Bytes → Handled) → (Message → Message) → Result B × World → Handled × World
  answered encode reply shown (done r, w) = (reply r (encode r), w)
  answered encode reply shown (failed e, w) = (refused (shown e), w)

module _ {A : Type 0} where
  -- `match A::decode(payload) { Ok(req) => .., Err(e) => (false, vec![], format!(m, e)) }`
  unfoldable pub decoded :
      (String → Message) → Decoded A → (A → World → Handled × World) → World → Handled × World
  decoded m (parsed req) run w = run req w
  decoded m (malformed e) run w = (refused (m e), w)

module _ {A B : Type 0} where
  -- What the handlers have in common.
  unfoldable pub serve :
      (String → Message)
      → Codec A B
      → (A → World → Result B × World)
      → (B → Bytes → Handled)
      → (Message → Message)
      → Bytes
      → World
      → Handled × World
  serve m codec run reply shown payload =
      decoded m (codec.decode payload) λ req w. answered codec.encode reply shown (run req w)

-- The same for a handler that may panic.
module _ {B : Type 0} where
  unfoldable pub answered_exit :
      (B → Bytes)
      → (B → Bytes → Handled)
      → (Message → Message)
      → Exit (Result B) × World
      → Exit Handled × World
  answered_exit encode reply shown (returned r, w) =
      let (h, w') = answered encode reply shown (r, w) in (returned h, w')
  answered_exit encode reply shown (panicked, w) = (panicked, w)

module _ {A : Type 0} where
  unfoldable pub decoded_exit :
      (String → Message)
      → Decoded A
      → (A → World → Exit Handled × World)
      → World
      → Exit Handled × World
  decoded_exit m (parsed req) run w = run req w
  decoded_exit m (malformed e) run w = (returned (refused (m e)), w)

module _ {A B : Type 0} where
  unfoldable pub serve_exit :
      (String → Message)
      → Codec A B
      → (A → World → Exit (Result B) × World)
      → (B → Bytes → Handled)
      → (Message → Message)
      → Bytes
      → World
      → Exit Handled × World
  serve_exit m codec run reply shown payload =
      decoded_exit m (codec.decode payload)
        λ req w. answered_exit codec.encode reply shown (run req w)

-- `contact` and `respond_friend_request` return the triple themselves.
abbrev pub triple : Answer × World → Handled × World
triple (a, w) = (record { success = a.success; payload = []; error_message = a.error_message }, w)

-- `Ok(()) => (true, vec![], String::new())`
abbrev pub acknowledged : Result (Unit {0}) × World → Handled × World
acknowledged (done n, w) = (plain true [], w)
acknowledged (failed e, w) = (refused e, w)
