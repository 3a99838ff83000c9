-- ===== src/Method/Users.antt =====
-- The query for a user that most handlers begin with:
-- `users::table.filter(user_hash_id.eq(hash)).select(User::as_select()).first(conn)`.
use zenth_dht.Prelude.{◌≡◌, Bool, Option, none, some, Bytes, bytes_eq, find, arith}
use zenth_dht.Models.{Db, User}
use zenth_dht.Server.{DbResult, ok, not_found}

-- The first row of a query that may be empty.
abbrev pub first_row : {A : Type 0} → Option A → DbResult A
first_row none = not_found
first_row (some a) = ok a

abbrev pub is_user : Bytes → User → Bool
is_user hash u = bytes_eq u.user_hash_id hash

unfoldable pub find_user : Bytes → Db → Option User
find_user hash db = find (is_user hash) db.users

abbrev pub select_user : Bytes → Db → DbResult User × Db
select_user hash db = (first_row (find_user hash db), db)

-- A row that a query returns is the row of the user.
pub first_row_found : {A : Type 0} (o : Option A) (a : A) → first_row o ≡ ok a → o ≡ some a
first_row_found none a h = ground arith
first_row_found (some b) a h = ground arith

pub ok_injective : {A : Type 0} (a b : A) → ok a ≡ ok b → a ≡ b
ok_injective a b h = cc
