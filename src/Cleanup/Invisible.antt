-- ===== src/Cleanup/Invisible.antt =====
-- main.rs: what an inbox, a mailbox, a blob and a transfer show before and after a round of the
-- cleanup.
use zenth_dht.Prelude.{
  ℕ, ◌%◌, ◌≤◌, ◌≡◌, refl, ap, ◌∙◌, Bool, not, ◌&&◌, ◌==◌, List, [], ◌∷◌, Bytes, ℤ, pos, lt_ℤb,
  bytes_eq, retain, retain_same, retain-retain, order_by, ltb, arith,
}
use zenth_dht.Models.{MessageModel, RelayMessage, SyncBlob}
use zenth_dht.Websocket.FileRelay.{get_sender}
use zenth_dht.Websocket.FileRelay.Views.{get_sender-cleanup_expired}
use zenth_dht.Server.{Env, Readings, World, ◌>>◌, body, give, sql}
use zenth_dht.Server.Rules.{on_act, on_sql, on_give, on_if}
use zenth_dht.Method.Inbox.{inbox, is_waiting_for, is_since, rank}
use zenth_dht.Method.Relay.{pending}
use zenth_dht.Method.SyncBlob.{current_blob}
use zenth_dht.Cleanup.{
  delete_expired_relay_messages, delete_expired_sync_blobs, clean_memory, clean_tables, clean_round,
}

inbox-expired :
    (hash : Bytes) (since now later : ℕ) (rows : List MessageModel)
    → now ≤ later
    → inbox hash since later (retain (λ m. not (ltb m.expires_at now)) rows)
      ≡ inbox hash since later rows
unfolding inbox
inbox-expired hash since now later rows h =
    ap (order_by (λ m. rank m.server_timestamp))
      (retain-retain _ _ rows ∙ retain_same _ _ rows (λ m. shown m))
  where
    shown :
        (m : MessageModel)
        → (not (ltb m.expires_at now) && (is_waiting_for hash later m && is_since since m))
          ≡ (is_waiting_for hash later m && is_since since m)
    shown m = ground arith

pending-expired :
    (device : Bytes) (since : ℤ) (now later : ℕ) (rows : List RelayMessage)
    → now ≤ later
    → pending device since later (retain (λ m. not (ltb m.expires_at now)) rows)
      ≡ pending device since later rows
unfolding pending
pending-expired device since now later rows h =
    ap (order_by (λ r. r.id)) (retain-retain _ _ rows ∙ retain_same _ _ rows (λ r. shown r))
  where
    shown :
        (r : RelayMessage)
        → (not (ltb r.expires_at now)
            && (bytes_eq r.for_device_dilithium_pubkey device
                && lt_ℤb since (pos r.id)
                && ltb later r.expires_at))
          ≡ (bytes_eq r.for_device_dilithium_pubkey device
              && lt_ℤb since (pos r.id)
              && ltb later r.expires_at)
    shown r = ground arith

current_blob-expired :
    (device : Bytes) (now later : ℕ) (rows : List SyncBlob)
    → now ≤ later
    → current_blob device later (retain (λ b. not (ltb b.expires_at now)) rows)
      ≡ current_blob device later rows
unfolding current_blob
current_blob-expired device now later [] h = refl
current_blob-expired device now later (b ∷ rows) h =
    ground (arith, current_blob-expired device now later rows h)

-- What a user and a device can see at time `later`, and a socket at the reading `read`.
pub record LooksTheSame (user device transfer : Bytes) (since : ℕ) (since_id : ℤ) (later read : ℕ)
    (w w' : World) : Type 0 where
  pub messages : inbox user since later w'.db.messages ≡ inbox user since later w.db.messages
  pub mailbox :
      pending device since_id later w'.db.relay_messages
      ≡ pending device since_id later w.db.relay_messages
  pub blob : current_blob device later w'.db.sync_blobs ≡ current_blob device later w.db.sync_blobs
  pub sender : get_sender transfer read w'.registry ≡ get_sender transfer read w.registry

module _ (env : Env) (at : Readings) (user device transfer : Bytes) (since : ℕ) (since_id : ℤ)
    (later read : ℕ) (after : at.utc ≤ later) (w : World) where
  abbrev Unseen : Unit {0} × World → Type 0
  Unseen (n, w') = LooksTheSame user device transfer since since_id later read w w'

  blobs-Unseen :
      (v : World)
      → Unseen (tt, v)
      → LooksTheSame user device transfer since since_id later read w (record v {
        db = record v.db {
          sync_blobs = retain (λ b. not (ltb b.expires_at at.utc)) v.db.sync_blobs;
        };
      })
  blobs-Unseen v h = record {
    messages = h.messages;
    mailbox = h.mailbox;
    blob = current_blob-expired device at.utc later v.db.sync_blobs after ∙ h.blob;
    sender = h.sender;
  }

  relay-Unseen :
      (v : World)
      → Unseen (tt, v)
      → LooksTheSame user device transfer since since_id later read w (record v {
        db = record v.db {
          relay_messages = retain (λ m. not (ltb m.expires_at at.utc)) v.db.relay_messages;
        };
      })
  relay-Unseen v h = record {
    messages = h.messages;
    mailbox = pending-expired device since_id at.utc later v.db.relay_messages after ∙ h.mailbox;
    blob = h.blob;
    sender = h.sender;
  }

  messages-Unseen :
      (v : World)
      → Unseen (tt, v)
      → LooksTheSame user device transfer since since_id later read w (record v {
        db = record v.db { messages = retain (λ m. not (ltb m.expires_at at.utc)) v.db.messages };
      })
  messages-Unseen v h = record {
    messages = inbox-expired user since at.utc later v.db.messages after ∙ h.messages;
    mailbox = h.mailbox;
    blob = h.blob;
    sender = h.sender;
  }

  -- A statement's number is not seen.
  recounted : (v : World) (n : ℕ) → Unseen (tt, v) → Unseen (tt, record v { statements = n })
  recounted v n h = record {
    messages = h.messages;
    mailbox = h.mailbox;
    blob = h.blob;
    sender = h.sender;
  }

  last_step :
      (v : World)
      → Unseen (tt, v)
      → Unseen (body (sql env (delete_expired_sync_blobs at.utc) >> give tt) v)
  last_step v h =
      on_sql Unseen env _ _ v (λ x broken. on_give Unseen _ _ (recounted v _ h))
        λ sound. on_give Unseen _ _ (recounted _ _ (blobs-Unseen v h))

  tables-Unseen : (v : World) → Unseen (tt, v) → Unseen (body (clean_tables env at) v)
  unfolding clean_tables
  tables-Unseen v h =
      on_sql Unseen env _ _ v (λ x broken. rest _ (recounted v _ h))
        λ sound. rest _ (recounted _ _ (messages-Unseen v h))
    where
      rest :
          (u : World)
          → Unseen (tt, u)
          → Unseen (
              body
                (sql env (delete_expired_relay_messages at.utc)
                  >> (sql env (delete_expired_sync_blobs at.utc) >> give tt))
                u)
      rest u k =
          on_sql Unseen env _ _ u (λ x broken. last_step _ (recounted u _ k))
            λ sound. last_step _ (recounted _ _ (relay-Unseen u k))

  memory-Unseen : at.instant_read ≤ read → Unseen (tt, (clean_memory at w).1)
  unfolding clean_memory
  memory-Unseen h = record {
    messages = refl;
    mailbox = refl;
    blob = refl;
    sender = get_sender-cleanup_expired transfer at.instant_read read w.registry h;
  }

-- A round of the cleanup changes nothing that can be seen afterwards: no user's inbox, no device's
-- mailbox or blob, and no transfer, whichever statements the database refuses.
pub clean_round-LooksTheSame :
    (env : Env) (at : Readings) (tick : ℕ) (connected : Bool) (user device transfer : Bytes)
    (since : ℕ) (since_id : ℤ) (later read : ℕ) (w : World)
    → at.utc ≤ later
    → at.instant_read ≤ read
    → LooksTheSame user device transfer since since_id later read w
        (clean_round env at tick connected w).1
unfolding clean_round
clean_round-LooksTheSame env at tick connected user device transfer since since_id later read w
      after after_read =
    let P = Unseen env at user device transfer since since_id later read after w in
    let h =
      memory-Unseen env at user device transfer since since_id later read after w after_read in
    on_act P (clean_memory at) _ w (
      on_if P (tick % 12 == 0 && connected) _ _ _
        (λ yes_case.
          tables-Unseen env at user device transfer since since_id later read after w _ h)
        λ no_case. on_give P _ _ h)
