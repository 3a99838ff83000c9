-- ===== src/Server.antt =====
-- What the handlers of handlers/method share: the state of the process and of its database, the
-- statements that they send, Rust's early `return`, and panics.
pub mod Rules
pub mod Keeps
pub mod Ends
pub mod Samples
use zenth_dht.Prelude.{ℕ, ◌+◌, Bool, true, false, Option, none, some, String, Bytes}
use zenth_dht.Models.{Db, NaiveDateTime}
use zenth_dht.Crypto.{Dilithium2}
use zenth_dht.RateLimit.{Limiters}
use zenth_dht.Websocket.ConnectionManager.{ConnectionManager}
use zenth_dht.Websocket.FileRelay.{Registry}

-- `diesel::result::Error` but `NotFound`: a violated constraint, or a failure of the connection.
pub data DbError : Type 0 where
  unique_violation : DbError
  connection_failure : String → DbError

-- `QueryResult<A>`
pub data DbResult {ℓ} (A : Type ℓ) : Type ℓ where
  ok : A → DbResult A
  not_found : DbResult A
  err : DbError → DbResult A

-- An error text, with what `format!` puts into it.
pub data Message : Type 0 where
  text : String → Message
  with_number : String → ℕ → Message
  with_error : String → DbError → Message
  with_text : String → String → Message
  with_message : String → Message → Message

abbrev pub no_message : Message
no_message = text ""

-- `Result<A, String>`
pub data Result {ℓ} (A : Type ℓ) : Type ℓ where
  done : A → Result A
  failed : Message → Result A

-- How a call ends: it returns, or it panics.
pub data Exit {ℓ} (A : Type ℓ) : Type ℓ where
  returned : A → Exit A
  panicked : Exit A

abbrev pub map_exit {ℓ} : {A B : Type ℓ} → (A → B) → Exit A → Exit B
map_exit f (returned a) = returned (f a)
map_exit f panicked = panicked

-- What the process does not compute: the signature scheme, which statements the database refuses
-- to run (numbered through the life of the process), and which channels have a receiver.
pub record Env : Type 1 where
  pub dilithium : Dilithium2
  pub fault : ℕ → Option DbError
  pub listening : ℕ → Bool

-- The readings of the clocks and the random bytes of one request.
pub record Readings : Type 0 where
  pub unix_secs : ℕ
  pub unix_millis : ℕ
  pub utc : NaiveDateTime
  pub utc_later : NaiveDateTime
  pub db_now : NaiveDateTime
  pub instant : ℕ
  pub instant_read : ℕ
  pub random_id : Bytes
  pub random_nonce : Bytes
  pub random_token : Bytes

pub record World : Type 0 where
  pub db : Db
  pub statements : ℕ
  pub limiters : Limiters
  pub manager : Option ConnectionManager
  pub registry : Registry

-- How a step of a handler ends: it goes on with a value, or the handler returns.
pub data Flow {ℓ} (R A : Type ℓ) : Type ℓ where
  next : A → Flow R A
  return : R → Flow R A

abbrev pub Handler {ℓ} : Type ℓ → Type ℓ → Type ℓ
Handler R A = World → Flow R A × World

module _ {R A B : Type 0} where
  abbrev pub after : Flow R A → (A → Handler R B) → Handler R B
  after (next a) f w = f a w
  after (return r) f w = (return r, w)

  infixl 5 ◌>>=◌ ◌>>◌
  unfoldable pub ◌>>=◌ : Handler R A → (A → Handler R B) → Handler R B
  ◌>>=◌ m f w = let (r, w') = m w in after r f w'

  abbrev pub ◌>>◌ : Handler R A → Handler R B → Handler R B
  m >> n = m >>= λ _. n

-- A call of a function that reads and changes the state.
unfoldable pub act : {R A : Type 0} → (World → A × World) → Handler R A
act f w = let (a, w') = f w in (next a, w')

-- `if bad { return r; }`
unfoldable pub reject_if : {R : Type 0} → Bool → R → Handler R (Unit {0})
reject_if true r w = (return r, w)
reject_if false r w = (next tt, w)

-- `match q { Ok(a) => a, Err(NotFound) => return r, Err(e) => return f(e) }`
unfoldable pub row_or : {R A : Type 0} → DbResult A → R → (DbError → R) → Handler R A
row_or (ok a) r f w = (next a, w)
row_or not_found r f w = (return r, w)
row_or (err e) r f w = (return (f e), w)

module _ {R : Type 0} where
  -- The value of the last expression, when no `return` came before it.
  unfoldable pub give : R → Handler R R
  give r w = (next r, w)

  abbrev settle : Flow R R → R
  settle (next r) = r
  settle (return r) = r

  -- What the handler returns.
  unfoldable pub body : Handler R R → World → R × World
  body m w = let (r, w') = m w in (settle r, w')

module _ (env : Env) where
  -- One statement: the database refuses it and stays as it is, or answers and changes.
  unfoldable pub statement : {A : Type 0} → (Db → DbResult A × Db) → World → DbResult A × World
  statement q w = elim (env.fault w.statements) [
    | some e ↦ (err e, record w { statements = w.statements + 1 })
    | none ↦ (let (r, db') = q w.db in (r, record w { db = db'; statements = w.statements + 1 }))
  ]

  abbrev pub sql : {R A : Type 0} → (Db → DbResult A × Db) → Handler R (DbResult A)
  sql q = act (statement q)
