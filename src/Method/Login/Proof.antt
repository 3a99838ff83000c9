-- ===== src/Method/Login/Proof.antt =====
-- handlers/method/login.rs: which proofs open a session, and that a proof opens one session only.
use zenth_dht.Prelude.{
  ℕ, ◌+◌, ◌≤◌, ◌≡◌, ◌≢◌, refl, ◌⊎◌, inl, inr, Bool-cases, Bool, true, false, not, List, [], ◌∷◌,
  ◌++◌, Option, none, some, String, Bytes, bytes_eq, retain, any, ltb, arith, if◌then◌else◌,
}
use zenth_dht.Models.{Db, User, AuthChallenge}
use zenth_dht.Crypto.{verify_dilithium_signature}
use zenth_dht.Server.{
  DbResult, ok, not_found, err, Result, done, failed, Env, Readings, World, ◌>>=◌, body, row_or,
  sql, text,
}
use zenth_dht.Server.Rules.{on_reject, on_row, on_if, on_sql, on_give, stored, counted}
use zenth_dht.Method.Users.{first_row_found, find_user, select_user}
use zenth_dht.Method.Login.{
  AuthProof, LoginRequest, LoginResponse, has_challenge_id, find_challenge, insert_challenge,
  insert_session, proof_signed_data, new_session, check_proof, handle_proof_verification,
  handle_challenge_request, second_step, login, session_reply, refused, outdated_reply,
}

-- The session token that a response carries.
abbrev pub issued : Result LoginResponse → Option Bytes
issued (failed m) = none
issued (done r) =
    if r.success then elim r.challenge [ none ↦ some r.session_token | some c ↦ none ] else none

abbrev pub without_challenge : Bytes → List AuthChallenge → List AuthChallenge
without_challenge id = retain (λ c. not (has_challenge_id id c))

-- A session was opened on database `db`, whose statement `n` looked for the challenge.
pub record Opens (env : Env) (at : Readings) (req : LoginRequest) (db : Db) (n : ℕ)
    (r : Result LoginResponse) (db' : Db) : Type 0 where
  pub user : User
  pub proof : AuthProof
  pub challenge : AuthChallenge
  pub sent : req.proof ≡ some proof
  pub asked_no_challenge : req.request_challenge ≡ false
  pub found : find_user req.user_hash_id db ≡ some user
  pub posed : find_challenge proof.challenge_id user.user_hash_id db ≡ some challenge
  pub in_time : at.utc ≤ challenge.expires_at
  pub signed :
      verify_dilithium_signature env.dilithium user.identity_key_dilithium
        (proof_signed_data challenge user proof)
        proof.proof
      ≡ true
  pub token : issued r ≡ some at.random_token
  pub new_token : any (λ s. bytes_eq s.session_token at.random_token) db.sessions ≡ false
  pub sessions : db'.sessions ≡ db.sessions ++ new_session env at user ∷ []
  pub users : db'.users ≡ db.users
  pub consumed :
      (db'.auth_challenges ≡ without_challenge proof.challenge_id db.auth_challenges)
      ⊎ (env.fault (n + 1) ≢ none)

abbrev pub LoginOutcome :
    Env → Readings → LoginRequest → Db → ℕ → Result LoginResponse × World → Type 0
LoginOutcome env at req db n (r, w') =
    ((issued r ≡ none) × (w'.db.sessions ≡ db.sessions) × (w'.db.users ≡ db.users))
    ⊎ Opens env at req db n r w'.db

issued-outdated_reply : (q : DbResult String) → issued (outdated_reply q) ≡ none
issued-outdated_reply (ok required) = refl
issued-outdated_reply not_found = refl
issued-outdated_reply (err e) = refl

module _ (env : Env) (at : Readings) (req : LoginRequest) where
  challenge_outcome :
      (user : User) (w : World)
      → LoginOutcome env at req w.db w.statements
          (body (handle_challenge_request env at req.user_hash_id user.proof_type) w)
  unfolding handle_challenge_request insert_challenge
  challenge_outcome user w =
      let P = LoginOutcome env at req w.db w.statements in
      on_sql P env _ _ w
        (λ err broken.
          on_sql P env _ _ _ (λ err broken. on_give P _ _ (inl (refl, refl, refl)))
            λ sound. on_give P _ _ (inl (ground arith, ground arith, ground arith)))
        λ sound.
          on_sql P env _ _ _ (λ err broken. on_give P _ _ (inl (refl, refl, refl)))
            λ sound. on_give P _ _ (inl (ground arith, ground arith, ground arith))

  module _ (user : User) (proof : AuthProof) (c : AuthChallenge) (w : World)
      (sent : req.proof ≡ some proof) (unasked : req.request_challenge ≡ false)
      (found : find_user req.user_hash_id w.db ≡ some user)
      (posed : find_challenge proof.challenge_id user.user_hash_id w.db ≡ some c) where
    -- The state that the deletion of the challenge leaves, whether it went through or not.
    abbrev left_with : List AuthChallenge → Db
    left_with left = record w.db { auth_challenges = left }

    session_outcome :
        (left : List AuthChallenge)
        → at.utc ≤ c.expires_at
        → verify_dilithium_signature env.dilithium user.identity_key_dilithium
            (proof_signed_data c user proof)
            proof.proof
          ≡ true
        → (left ≡ without_challenge proof.challenge_id w.db.auth_challenges)
          ⊎ (env.fault (w.statements + 1) ≢ none)
        → let q = insert_session (new_session env at user) (left_with left) in
          LoginOutcome env at req w.db w.statements (session_reply env at q.0, stored w q.1)
    unfolding insert_session
    session_outcome left in_time signed consumed =
        elim (Bool-cases (any (λ s. bytes_eq s.session_token at.random_token) w.db.sessions)) [
          | inl taken ↦ rw (taken, insert_session) (inl (refl, refl, refl))
          | inr free ↦
              rw (free, insert_session)
                (inr (record {
                  user = user;
                  proof = proof;
                  challenge = c;
                  sent = sent;
                  asked_no_challenge = unasked;
                  found = found;
                  posed = posed;
                  in_time = in_time;
                  signed = signed;
                  token = refl;
                  new_token = free;
                  sessions = refl;
                  users = refl;
                  consumed = consumed;
                }))
        ]

    check_outcome :
        LoginOutcome env at req w.db w.statements
          (body (check_proof env at user proof c) (stored w w.db))
    unfolding check_proof
    check_outcome =
        let P = LoginOutcome env at req w.db w.statements in
        let signed_by_user =
          verify_dilithium_signature env.dilithium user.identity_key_dilithium
            (proof_signed_data c user proof) proof.proof in
        on_if P (ltb c.expires_at at.utc) _ _ _
          (λ late.
            on_sql P env _ _ _ (λ err broken. on_give P _ _ (inl (refl, refl, refl)))
              λ sound. on_give P _ _ (inl (refl, refl, refl)))
          λ early.
            on_reject P (not signed_by_user) _ _ _ (λ bad. inl (refl, refl, refl))
              λ signed.
                on_sql P env _ _ _
                  (λ err broken.
                    on_sql P env _ _ _ (λ err broken. on_give P _ _ (inl (refl, refl, refl)))
                      λ sound. on_give P _ _ (
                        session_outcome w.db.auth_challenges (ground arith) (ground arith)
                          (inr (λ e. cc))))
                  λ sound.
                    on_sql P env _ _ _ (λ err broken. on_give P _ _ (inl (refl, refl, refl)))
                      λ sound'. on_give P _ _ (
                        session_outcome (without_challenge proof.challenge_id w.db.auth_challenges)
                          (ground arith) (ground arith) (inl refl))

  proof_outcome :
      (user : User) (proof : AuthProof) (w : World)
      → req.proof ≡ some proof
      → req.request_challenge ≡ false
      → find_user req.user_hash_id w.db ≡ some user
      → LoginOutcome env at req w.db w.statements
          (body (handle_proof_verification env at user proof) w)
  unfolding handle_proof_verification
  proof_outcome user proof w sent unasked found =
      let P = LoginOutcome env at req w.db w.statements in
      on_sql P env _ _ w
        (λ err broken.
          on_row P _ _ _ _ _ (λ e. inl (refl, refl, refl)) (λ x e. inl (refl, refl, refl))
            λ c e. cc)
        λ sound.
          on_row P _ _ _ _ _ (λ e. inl (refl, refl, refl)) (λ x e. inl (refl, refl, refl))
            λ c e. check_outcome user proof c w sent unasked found (first_row_found _ c e)

  second_outcome :
      (asked : Bool) (proof : Option AuthProof) (user : User) (w : World)
      → req.proof ≡ proof
      → req.request_challenge ≡ asked
      → find_user req.user_hash_id w.db ≡ some user
      → LoginOutcome env at req w.db w.statements
          (body (second_step env at req.user_hash_id asked proof user) w)
  unfolding second_step
  second_outcome true proof user w p a found = challenge_outcome user w
  second_outcome false (some proof) user w p a found = proof_outcome user proof w p a found
  second_outcome false none user w p a found =
      on_give (LoginOutcome env at req w.db w.statements) _ _ (inl (refl, refl, refl))

  user_outcome :
      (w : World)
      → LoginOutcome env at req w.db (w.statements + 1) (
          body
            (sql env (select_user req.user_hash_id) >>= λ row.
              row_or row (refused (text "User not found")) (λ e. refused (text "Database error"))
              >>= second_step env at req.user_hash_id req.request_challenge req.proof)
            w)
  user_outcome w =
      let P = LoginOutcome env at req w.db (w.statements + 1) in
      on_sql P env _ _ w
        (λ err broken.
          on_row P _ _ _ _ _ (λ e. inl (refl, refl, refl)) (λ x e. inl (refl, refl, refl))
            λ c e. cc)
        λ sound.
          on_row P _ _ _ _ _ (λ e. inl (refl, refl, refl)) (λ x e. inl (refl, refl, refl))
            λ user e.
              second_outcome req.request_challenge req.proof user (stored w w.db) refl refl
                (first_row_found _ user e)

  -- A login returns a session token only with a proof: the user exists, the challenge was posed to
  -- that user and has not expired, and the user's identity key has signed the challenge's nonce with
  -- the user's hash and the proof's timestamp. Then the session is stored for the user and for 24
  -- hours, and the challenge is deleted unless the database refuses that statement. Any other login
  -- changes neither the sessions nor the users.
  pub login_outcome :
      (w : World) → LoginOutcome env at req w.db (w.statements + 1 + 1) (login env at req w)
  unfolding login
  login_outcome w =
      let P = LoginOutcome env at req w.db (w.statements + 1 + 1) in
      on_sql P env _ _ w
        (λ err broken.
          on_reject P _ _ _ _ (λ e. inl (refl, refl, refl))
            λ current.
              on_reject P _ _ _ _ (λ e. inl (refl, refl, refl))
                λ given.
                  on_reject P _ _ _ _ (λ e. inl (refl, refl, refl))
                    λ sized. user_outcome (counted w))
        λ sound.
          on_reject P _ _ _ _ (λ e. inl (issued-outdated_reply _, refl, refl))
            λ current.
              on_reject P _ _ _ _ (λ e. inl (refl, refl, refl))
                λ given.
                  on_reject P _ _ _ _ (λ e. inl (refl, refl, refl))
                    λ sized. user_outcome (stored w w.db)
