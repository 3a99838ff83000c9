-- ===== src/Websocket/Handler/Authentication.antt =====
-- websocket/handler.rs: which first frames open a session of a socket.
use zenth_dht.Prelude.{
  ◌+◌, ◌<◌, ◌≡◌, ◌↔◌, refl, sym, ap, ◌∙◌, true, false, Bool-cases, Option-cases, inl, inr, none,
  some, Bytes, take, drop, length, ltb, leb, arith, if◌then◌else◌,
}
use mathlib.Core.Path.{subst}
use zenth_dht.Models.{Session}
use zenth_dht.Server.{DbError, Env, Readings, World, statement}
use zenth_dht.Method.Users.{first_row}
use zenth_dht.Websocket.Handler.Sessions.{IsFirst, IsFirst-of_found, find-IsFirst}
use zenth_dht.Websocket.Handler.{
  FirstFrame, binary_first, no_binary, user_hash_size, find_session, verify_session_token,
  authenticate,
}

-- What a first frame has to be for the socket to be the user's: more than 32 bytes in time, and after
-- the user's hash the token of a session of this user that has not expired, if the database answers.
pub record Admits (env : Env) (at : Readings) (first : FirstFrame) (w : World) (user_hash : Bytes)
    : Type 0 where
  pub frame : Bytes
  pub session : Session
  pub is_binary : first ≡ binary_first frame
  pub is_long : user_hash_size < length frame
  pub names_user : user_hash ≡ take user_hash_size frame
  pub answers : env.fault w.statements ≡ none
  pub stored : IsFirst (drop user_hash_size frame) user_hash session w.db.sessions
  pub in_time : at.utc < session.session_expiry

module _ (env : Env) (at : Readings) (token hash : Bytes) (w : World) where
  abbrev IsVerified : Type 0
  IsVerified = (verify_session_token env at token hash w).0 ≡ true

  verify_stored :
      (s : Session)
      → env.fault w.statements ≡ none
      → find_session token hash w.db ≡ some s
      → (verify_session_token env at token hash w).0 ≡ ltb at.utc s.session_expiry
  unfolding verify_session_token statement
  verify_stored s sound found = rw (sound, statement) (rw (found, first_row) refl)

  not_refused : (e : DbError) → env.fault w.statements ≡ some e → ¬ IsVerified
  unfolding verify_session_token statement
  not_refused e broken = rw (broken, statement) (λ h. cc)

  not_missing : env.fault w.statements ≡ none → find_session token hash w.db ≡ none → ¬ IsVerified
  unfolding verify_session_token statement
  not_missing sound absent = rw (sound, statement) (rw (absent, first_row) (λ h. cc))

  stored_of_verified :
      IsVerified
      → (env.fault w.statements ≡ none)
        × ((s : Session) × (find_session token hash w.db ≡ some s)
            × (ltb at.utc s.session_expiry ≡ true))
  stored_of_verified h = elim (Option-cases (env.fault w.statements)) [
    | inr (e, broken) ↦ absurd (not_refused e broken h)
    | inl sound ↦ elim (Option-cases (find_session token hash w.db)) [
      | inl absent ↦ absurd (not_missing sound absent h)
      | inr (s, found) ↦ (sound, (s, found, sym (verify_stored s sound found) ∙ h))
    ]
  ]

  -- Whatever the token, only the statement is counted.
  pub verify_untouched :
      (verify_session_token env at token hash w).1 ≡ record w { statements = w.statements + 1 }
  unfolding verify_session_token statement
  verify_untouched = elim (Option-cases (env.fault w.statements)) [
    | inl sound ↦ rw (sound, statement) refl
    | inr (e, broken) ↦ rw (broken, statement) refl
  ]

module _ (env : Env) (at : Readings) (frame : Bytes) (w : World) where
  abbrev hash_of_frame : Bytes
  hash_of_frame = take user_hash_size frame

  abbrev token_of_frame : Bytes
  token_of_frame = drop user_hash_size frame

  authenticate_short :
      leb (length frame) user_hash_size ≡ true
      → (authenticate env at (binary_first frame) w).0 ≡ none
  unfolding authenticate
  authenticate_short short = rw short refl

  authenticate_long :
      leb (length frame) user_hash_size ≡ false
      → (authenticate env at (binary_first frame) w).0 ≡ (
          if (verify_session_token env at token_of_frame hash_of_frame w).0
          then some hash_of_frame
          else none)
  unfolding authenticate
  authenticate_long long = rw long refl

  Admits-of_some :
      (u : Bytes)
      → (authenticate env at (binary_first frame) w).0 ≡ some u
      → Admits env at (binary_first frame) w u
  unfolding find_session
  Admits-of_some u h = elim (Bool-cases (leb (length frame) user_hash_size)) [
    | inl short ↦ cc (authenticate_short short)
    | inr long ↦ elim (Bool-cases (verify_session_token env at token_of_frame hash_of_frame w).0) [
      | inr unverified ↦ ground (arith, authenticate_long long)
      | inl verified ↦
          (let (sound, (s, found, fresh)) =
              stored_of_verified env at token_of_frame hash_of_frame w verified in
            let named : u ≡ hash_of_frame = ground (arith, authenticate_long long) in
            record {
              frame = frame;
              session = s;
              is_binary = refl;
              is_long = ground arith;
              names_user = named;
              answers = sound;
              stored =
                  subst (λ x. IsFirst token_of_frame x s w.db.sessions) (sym named)
                    (IsFirst-of_found token_of_frame hash_of_frame w.db.sessions s found);
              in_time = ground arith;
            })
    ]
  ]

  some_of_Admits :
      (u : Bytes)
      → Admits env at (binary_first frame) w u
      → (authenticate env at (binary_first frame) w).0 ≡ some u
  unfolding find_session
  some_of_Admits u a =
      let same : a.frame ≡ frame = cc (a.is_binary) in
      let named : u ≡ hash_of_frame = a.names_user ∙ ap (take user_hash_size) same in
      let found : find_session token_of_frame hash_of_frame w.db ≡ some a.session =
        subst (λ f. find_session (drop user_hash_size f) hash_of_frame w.db ≡ some a.session) same
          (subst (λ x. find_session (drop user_hash_size a.frame) x w.db ≡ some a.session) named
            (find-IsFirst (drop user_hash_size a.frame) u w.db.sessions a.session a.stored)) in
      authenticate_long (ground (arith, a.is_long, ap length same))
      ∙ rw (verify_stored env at token_of_frame hash_of_frame w a.session a.answers found)
          (ground (arith, a.in_time))

-- A socket is admitted as a user exactly if its first frame comes in time, is binary and longer than a
-- hash, begins with the user's hash, and goes on with a token such that the first session stored under
-- this token for this user has not expired; a database that refuses the query admits nobody.
pub authenticate_iff :
    (env : Env) (at : Readings) (first : FirstFrame) (w : World) (user_hash : Bytes)
    → ((authenticate env at first w).0 ≡ some user_hash) ↔ Admits env at first w user_hash
unfolding authenticate
authenticate_iff env at no_binary w u = (λ h. cc, λ a. cc (a.is_binary))
authenticate_iff env at (binary_first frame) w u =
    (Admits-of_some env at frame w u, some_of_Admits env at frame w u)
