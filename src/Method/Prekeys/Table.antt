-- ===== src/Method/Prekeys/Table.antt =====
-- handlers/method/upload_prekeys.rs, replenish_prekeys.rs, check_prekey_count.rs and
-- fetch_prekey_bundle.rs: the table of one-time prekeys and the statements on it.
-- The casts of a prekey's id between u32 and i32 keep its 32 bits, so an id is its u32 everywhere.
use zenth_dht.Prelude.{
  ℕ, ◌+◌, Bool, true, false, not, ◌&&◌, List, [], ◌∷◌, ◌++◌, Option, none, some, Bytes, bytes_eq,
  length, retain, any, update_where, order_by, ◌==◌, if◌then◌else◌,
}
use zenth_dht.Models.{Db, OneTimePrekey, NaiveDateTime}
use zenth_dht.Server.{DbResult, ok}

-- A prekey as the client sends it.
pub record PreKey : Type 0 where
  pub pre_key_id : ℕ
  pub public_key : Bytes

abbrev pub is_prekey : Bytes → ℕ → OneTimePrekey → Bool
is_prekey hash id k = bytes_eq k.user_hash_id hash && k.prekey_id == id

abbrev pub is_unused_of : Bytes → OneTimePrekey → Bool
is_unused_of hash k = bytes_eq k.user_hash_id hash && not k.used

abbrev pub new_prekey : Bytes → NaiveDateTime → ℕ → PreKey → OneTimePrekey
new_prekey hash now id pk = record {
  id = id;
  user_hash_id = hash;
  prekey_id = pk.pre_key_id;
  public_key = pk.public_key;
  used = false;
  created_at = now;
}

-- The table of prekeys with its next serial number.
pub record Stock : Type 0 where
  pub rows : List OneTimePrekey
  pub next_id : ℕ

-- `INSERT ... ON CONFLICT (user_hash_id, prekey_id) DO NOTHING`, and the number of rows inserted.
-- A row in conflict has drawn its serial number too.
unfoldable pub add_prekeys : Bytes → NaiveDateTime → List PreKey → Stock → ℕ × Stock
add_prekeys hash now [] s = (0, s)
add_prekeys hash now (pk ∷ pks) s =
    let held = any (is_prekey hash pk.pre_key_id) s.rows in
    let rows' = if held then s.rows else s.rows ++ new_prekey hash now s.next_id pk ∷ [] in
    let (n, s') = add_prekeys hash now pks (record { rows = rows'; next_id = s.next_id + 1 }) in
    ((if held then 0 else 1) + n, s')

abbrev pub stock : Db → Stock
stock db = record { rows = db.one_time_prekeys; next_id = db.next_prekey }

abbrev pub with_stock : Db → Stock → Db
with_stock db s = record db { one_time_prekeys = s.rows; next_prekey = s.next_id }

abbrev pub insert_prekeys : Bytes → NaiveDateTime → List PreKey → Db → DbResult ℕ × Db
insert_prekeys hash now pks db =
    let (n, s) = add_prekeys hash now pks (stock db) in (ok n, with_stock db s)

unfoldable pub count_unused : Bytes → List OneTimePrekey → ℕ
count_unused hash rows = length (retain (is_unused_of hash) rows)

abbrev pub select_unused_count : Bytes → Db → DbResult ℕ × Db
select_unused_count hash db = (ok (count_unused hash db.one_time_prekeys), db)

abbrev pub first_of : List OneTimePrekey → Option OneTimePrekey
first_of [] = none
first_of (k ∷ rows) = some k

-- The unused prekey of the user with the least serial number.
unfoldable pub next_unused : Bytes → List OneTimePrekey → Option OneTimePrekey
next_unused hash rows = first_of (order_by (λ k. k.id) (retain (is_unused_of hash) rows))

-- `.first(conn).optional()`
abbrev pub select_unused : Bytes → Db → DbResult (Option OneTimePrekey) × Db
select_unused hash db = (ok (next_unused hash db.one_time_prekeys), db)

abbrev pub use_up : OneTimePrekey → OneTimePrekey
use_up k = record k { used = true }

unfoldable pub mark_used : ℕ → List OneTimePrekey → List OneTimePrekey
mark_used id = update_where (λ k. k.id == id) use_up

abbrev pub update_used : ℕ → Db → DbResult (Unit {0}) × Db
update_used id db = (ok tt, record db { one_time_prekeys = mark_used id db.one_time_prekeys })
