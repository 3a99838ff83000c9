-- ===== src/Websocket/FileRelay.antt =====
-- websocket/file_relay.rs: the registry of transfers that a sender has announced.
-- An `Instant` is a number of nanoseconds; each operation takes its reading of the clock.
pub mod Views
pub mod History
use zenth_dht.Prelude.{
  ℕ, ◌-◌, ◌*◌, Bool, not, Option, none, some, Bytes, Map, no_entries, insert, remove, retain_values,
  kept, length, bytes_eq, ltb, ◌==◌, if◌then◌else◌,
}

-- 10 minutes
abbrev pub transfer_ttl : ℕ
transfer_ttl = 10 * 60 * 1_000_000_000

pub record Entry : Type 0 where
  pub sender_hash : Bytes
  pub inserted_at : ℕ

abbrev pub Registry : Type 0
Registry = Map Entry

abbrev pub init : Registry
init = no_entries

-- `entry.inserted_at.elapsed() < TRANSFER_TTL`
abbrev pub is_alive : ℕ → Entry → Bool
is_alive read e = ltb (read - e.inserted_at) transfer_ttl

unfoldable pub register : Bytes → Bytes → ℕ → Registry → Registry
register transfer_id sender_hash now =
    insert transfer_id (record { sender_hash = sender_hash; inserted_at = now })

unfoldable pub unregister : Bytes → Registry → Registry
unregister transfer_id = remove transfer_id

unfoldable pub unregister_by_sender : Bytes → Registry → Registry
unregister_by_sender sender_hash = retain_values (λ e. not (bytes_eq e.sender_hash sender_hash))

abbrev sender_of : Option Entry → Option Bytes
sender_of none = none
sender_of (some e) = some e.sender_hash

unfoldable pub get_sender : Bytes → ℕ → Registry → Option Bytes
get_sender transfer_id read m = sender_of (kept (is_alive read) (m transfer_id))

unfoldable pub cleanup_expired : ℕ → Registry → Registry
cleanup_expired read = retain_values (is_alive read)

-- `raw.try_into().ok()` into `[u8; 16]`
unfoldable pub parse_transfer_id : Bytes → Option Bytes
parse_transfer_id raw = if length raw == 16 then some raw else none
