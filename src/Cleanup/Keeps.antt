-- ===== src/Cleanup/Keeps.antt =====
-- main.rs: what a round of the cleanup keeps of the database, if each of its statements does.
use zenth_dht.Prelude.{Bool, ℕ}
use zenth_dht.Models.{Db, NaiveDateTime}
use zenth_dht.Server.{Env, Readings}
use zenth_dht.Server.Keeps.{Keeps, keeps_rules}
use zenth_dht.Cleanup.{
  delete_expired_messages, delete_expired_relay_messages, delete_expired_sync_blobs, clean_memory,
  clean_tables, clean_round,
}

module _ (I : Db → Type 0) where
  clean_memory-Keeps : (at : Readings) → Keeps I (clean_memory at)
  unfolding clean_memory
  clean_memory-Keeps at = record { at = λ w h. h }

  pub clean_round-Keeps :
      ((now : NaiveDateTime) (db : Db) → I db → I (delete_expired_messages now db).1)
      → ((now : NaiveDateTime) (db : Db) → I db → I (delete_expired_relay_messages now db).1)
      → ((now : NaiveDateTime) (db : Db) → I db → I (delete_expired_sync_blobs now db).1)
      → (env : Env) (at : Readings) (tick : ℕ) (connected : Bool)
      → Keeps I (clean_round env at tick connected)
  unfolding clean_round clean_tables
  clean_round-Keeps messages relays blobs env at tick connected =
      search (keeps_rules, clean_memory-Keeps) depth 60
