-- ===== src/Websocket/ConnectionManager.antt =====
-- websocket/connection_manager.rs: one broadcast channel for each connected user.
-- A channel of tokio's `broadcast` is a number, and the manager keeps the log of what was sent, the
-- last message first. Whether a channel has receivers is the parameter `listening`: tokio's `send`
-- fails exactly when there is none.
pub mod Routing
pub mod Closing
use zenth_dht.Prelude.{
  ℕ, ◌+◌, Bool, true, false, Option, none, some, List, [], ◌∷◌, Bytes, Map, no_entries, insert,
  remove, if◌then◌else◌,
}

pub record BroadcastMessage : Type 0 where
  pub recipient_hash : Bytes
  pub payload : Bytes

-- What was sent on a channel.
pub record Sent : Type 0 where
  pub channel : ℕ
  pub message : BroadcastMessage

pub record ConnectionManager : Type 0 where
  pub connections : Map ℕ
  pub opened : ℕ
  pub log : List Sent

unfoldable pub new : ConnectionManager
new = record { connections = no_entries; opened = 0; log = [] }

-- The result is the channel to which the receiver subscribes.
unfoldable pub register : Bytes → ConnectionManager → ℕ × ConnectionManager
register user_hash m = elim (m.connections user_hash) [
  | some sender ↦ (sender, m)
  | none ↦ (
    m.opened,
    record m { connections = insert user_hash m.opened m.connections; opened = m.opened + 1 },
  )
]

unfoldable pub unregister : Bytes → ConnectionManager → ConnectionManager
unregister user_hash m = record m { connections = remove user_hash m.connections }

unfoldable pub send_to_user :
    (ℕ → Bool) → Bytes → Bytes → ConnectionManager → Bool × ConnectionManager
send_to_user listening recipient_hash payload m = elim (m.connections recipient_hash) [
  | none ↦ (false, m)
  | some sender ↦
      (let msg : BroadcastMessage = record { recipient_hash = recipient_hash; payload = payload } in
        if listening sender
        then (true, record m { log = record { channel = sender; message = msg } ∷ m.log })
        else (false, m))
]

unfoldable pub is_connected : Bytes → ConnectionManager → Bool
is_connected user_hash m = elim (m.connections user_hash) [ none ↦ false | some sender ↦ true ]

-- The global manager: `GLOBAL_CONNECTION_MANAGER.set(manager).ok()`, where the first one stays.
unfoldable pub init_global : ConnectionManager → Option ConnectionManager → Option ConnectionManager
init_global manager none = some manager
init_global manager (some old) = some old
