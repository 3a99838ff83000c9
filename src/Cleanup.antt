-- ===== src/Cleanup.antt =====
-- main.rs: the task that runs every five minutes and removes what has expired, the rows of the database
-- in every twelfth round. What it prints is left out.
pub mod Invisible
pub mod Keeps
mod Tests
use zenth_dht.Prelude.{ℕ, ◌+◌, ◌%◌, Bool, true, false, not, retain, ltb, ◌==◌, ◌&&◌, if◌then◌else◌}
use zenth_dht.Models.{Db, NaiveDateTime}
use zenth_dht.RateLimit.{cleanup_all}
use zenth_dht.Websocket.FileRelay.{cleanup_expired}
use zenth_dht.Server.{
  DbResult, ok, Env, Readings, World, Handler, ◌>>=◌, ◌>>◌, act, body, give, sql,
}

-- `DELETE FROM messages WHERE expires_at < now`
abbrev pub delete_expired_messages : NaiveDateTime → Db → DbResult (Unit {0}) × Db
delete_expired_messages now db =
    (ok tt, record db { messages = retain (λ m. not (ltb m.expires_at now)) db.messages })

abbrev pub delete_expired_relay_messages : NaiveDateTime → Db → DbResult (Unit {0}) × Db
delete_expired_relay_messages now db = (
  ok tt,
  record db { relay_messages = retain (λ m. not (ltb m.expires_at now)) db.relay_messages },
)

abbrev pub delete_expired_sync_blobs : NaiveDateTime → Db → DbResult (Unit {0}) × Db
delete_expired_sync_blobs now db =
    (ok tt, record db { sync_blobs = retain (λ b. not (ltb b.expires_at now)) db.sync_blobs })

unfoldable pub clean_memory : Readings → World → Unit {0} × World
clean_memory at w = (
  tt,
  record w {
    limiters = cleanup_all w.limiters at.instant_read;
    registry = cleanup_expired at.instant_read w.registry;
  },
)

module _ (env : Env) (at : Readings) where
  unfoldable pub clean_tables : Handler (Unit {0}) (Unit {0})
  clean_tables = do
    sql env (delete_expired_messages at.utc)
    sql env (delete_expired_relay_messages at.utc)
    sql env (delete_expired_sync_blobs at.utc)
    give tt

  -- One round of the loop, the `tick`-th; `connected` is whether the pool gives a connection.
  unfoldable pub clean_round : ℕ → Bool → World → Unit {0} × World
  clean_round tick connected =
      body do act (clean_memory at); if tick % 12 == 0 && connected then clean_tables else give tt
