-- ===== src/Websocket/FileRelay/Views.antt =====
-- websocket/file_relay.rs: what `get_sender` shows after each operation of the registry.
use zenth_dht.Prelude.{
  ℕ, ◌-◌, ◌≤◌, ◌≡◌, refl, Option, none, some, Bytes, bytes_eq, arith, ltb, if◌then◌else◌,
}
use zenth_dht.Websocket.FileRelay.{
  Registry, Entry, transfer_ttl, register, unregister, unregister_by_sender, get_sender,
  cleanup_expired,
}

-- A transfer that is announced at `now` is known under its sender for ten minutes and no longer,
-- whoever had announced it before; no other transfer changes.
pub get_sender-register :
    (tid tid' sender : Bytes) (now read : ℕ) (m : Registry)
    → get_sender tid' read (register tid sender now m) ≡ (
        if bytes_eq tid tid'
        then (if ltb (read - now) transfer_ttl then some sender else none)
        else get_sender tid' read m)
unfolding get_sender register
get_sender-register tid tid' sender now read m = ground arith

-- After `unregister` the transfer is unknown, and no other transfer changes.
pub get_sender-unregister :
    (tid tid' : Bytes) (read : ℕ) (m : Registry)
    → get_sender tid' read (unregister tid m)
      ≡ (if bytes_eq tid tid' then none else get_sender tid' read m)
unfolding get_sender unregister
get_sender-unregister tid tid' read m = ground arith

abbrev pub without_sender : Bytes → Option Bytes → Option Bytes
without_sender sender none = none
without_sender sender (some s) = if bytes_eq s sender then none else some s

kept_without :
    (sender : Bytes) (read : ℕ) (o : Option Entry) (m : Registry) (tid : Bytes)
    → m tid ≡ o
    → get_sender tid read (unregister_by_sender sender m)
      ≡ without_sender sender (get_sender tid read m)
unfolding get_sender unregister_by_sender
kept_without sender read none m tid h = ground arith
kept_without sender read (some e) m tid h = ground arith

-- When a sender disconnects, exactly the transfers that show that sender become unknown.
pub get_sender-unregister_by_sender :
    (sender tid : Bytes) (read : ℕ) (m : Registry)
    → get_sender tid read (unregister_by_sender sender m)
      ≡ without_sender sender (get_sender tid read m)
get_sender-unregister_by_sender sender tid read m = kept_without sender read (m tid) m tid refl

cleaned_same :
    (tid : Bytes) (r read : ℕ) (m : Registry) (o : Option Entry)
    → r ≤ read
    → m tid ≡ o
    → get_sender tid read (cleanup_expired r m) ≡ get_sender tid read m
unfolding get_sender cleanup_expired
cleaned_same tid r read m none h e = ground arith
cleaned_same tid r read m (some x) h e = ground arith

-- The periodic cleanup changes nothing that a later `get_sender` shows.
pub get_sender-cleanup_expired :
    (tid : Bytes) (r read : ℕ) (m : Registry)
    → r ≤ read
    → get_sender tid read (cleanup_expired r m) ≡ get_sender tid read m
get_sender-cleanup_expired tid r read m h = cleaned_same tid r read m (m tid) h refl

-- What is known of a transfer after each operation of the registry: an announcement is known under its
-- sender for ten minutes and replaces an earlier one; an end makes the transfer unknown; the end of a
-- sender makes the sender's transfers unknown; the cleanup changes nothing that is seen later. No
-- operation touches another transfer.
pub get_sender_after :
    (tid tid' sender : Bytes) (now r read : ℕ) (m : Registry)
    → r ≤ read
    → (get_sender tid' read (register tid sender now m) ≡ (
        if bytes_eq tid tid'
        then (if ltb (read - now) transfer_ttl then some sender else none)
        else get_sender tid' read m))
      × (get_sender tid' read (unregister tid m)
          ≡ (if bytes_eq tid tid' then none else get_sender tid' read m))
      × (get_sender tid' read (unregister_by_sender sender m)
          ≡ without_sender sender (get_sender tid' read m))
      × (get_sender tid' read (cleanup_expired r m) ≡ get_sender tid' read m)
get_sender_after tid tid' sender now r read m h = (
  get_sender-register tid tid' sender now read m,
  get_sender-unregister tid tid' read m,
  get_sender-unregister_by_sender sender tid' read m,
  get_sender-cleanup_expired tid' r read m h,
)
