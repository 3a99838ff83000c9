-- ===== src/Websocket/Handler/AfterLogin.antt =====
-- handlers/method/login.rs and websocket/handler.rs: the token of a login opens a socket.
use mathlib.Core.Path.{subst}
use zenth_dht.Prelude.{
  ℕ, suc, zero, ◌+◌, ◌<◌, ◌≡◌, ◌++◌, refl, sym, ap, ◌∙◌, true, false, inl, inr, List, [], ◌∷◌, none,
  some, Bytes, bytes_eq, bytes_eq_refl, find, any, take, drop, length, length-append, All, arith,
}
use zenth_dht.Models.{User, Session, hours}
use zenth_dht.Server.{Env, Readings, World}
use zenth_dht.Method.Users.{find_user, is_user}
use zenth_dht.Method.Login.{LoginRequest, session_expiry_hours, new_session, login}
use zenth_dht.Method.Login.Proof.{issued, login_outcome}
use zenth_dht.Decompose.{process_request}
use zenth_dht.Decompose.Codecs.{DhtRequest, Packages}
use zenth_dht.Decompose.Tables.{sessions, writes}
use zenth_dht.Decompose.Footprint.{process_request_footprint}
use zenth_dht.Websocket.Handler.{
  binary_first, user_hash_size, is_session, find_session, authenticate,
}
use zenth_dht.Websocket.Handler.Sessions.{IsFirst-of_found}
use zenth_dht.Websocket.Handler.Authentication.{authenticate_iff}

-- A request with the readings of its time.
pub record Served : Type 0 where
  pub at : Readings
  pub answered_at : ℕ
  pub request : DhtRequest

-- The state after requests, one after the other.
abbrev pub serve_all : Env → Packages → List Served → World → World
serve_all env packages [] w = w
serve_all env packages (s ∷ served) w =
    serve_all env packages served (process_request env packages s.at s.answered_at s.request w).1

abbrev pub WritesNoSession : Served → Type 0
WritesNoSession s = writes sessions s.request.method ≡ false

sessions-serve_all :
    (env : Env) (packages : Packages) (served : List Served) (w : World)
    → All WritesNoSession served
    → (serve_all env packages served w).db.sessions ≡ w.db.sessions
sessions-serve_all env packages [] w h = refl
sessions-serve_all env packages (s ∷ served) w h =
    sessions-serve_all env packages served _ h.1
    ∙ process_request_footprint env packages s.at s.answered_at s.request w sessions h.0

take-append_length : (n : ℕ) (xs ys : Bytes) → length xs ≡ n → take n (xs ++ ys) ≡ xs
take-append_length zero [] ys h = refl
take-append_length (suc n) [] ys h = absurd (omega arith)
take-append_length zero (x ∷ xs) ys h = absurd (omega arith)
take-append_length (suc n) (x ∷ xs) ys h = ap (◌∷◌ x) (take-append_length n xs ys (omega arith))

drop-append_length : (n : ℕ) (xs ys : Bytes) → length xs ≡ n → drop n (xs ++ ys) ≡ ys
drop-append_length zero [] ys h = refl
drop-append_length (suc n) [] ys h = absurd (omega arith)
drop-append_length zero (x ∷ xs) ys h = absurd (omega arith)
drop-append_length (suc n) (x ∷ xs) ys h = drop-append_length n xs ys (omega arith)

-- A session under a new token is the one that the token finds.
find_new_session :
    (token hash : Bytes) (rows : List Session) (s : Session)
    → any (λ x. bytes_eq x.session_token token) rows ≡ false
    → is_session token hash s ≡ true
    → find (is_session token hash) (rows ++ s ∷ []) ≡ some s
find_new_session token hash [] s free mine = ground arith
find_new_session token hash (x ∷ rows) s free mine =
    ground (arith, find_new_session token hash rows s)

found_under_hash :
    (hash : Bytes) (rows : List User) (u : User)
    → find (is_user hash) rows ≡ some u
    → bytes_eq u.user_hash_id hash ≡ true
found_under_hash hash [] u h = cc
found_under_hash hash (x ∷ rows) u h = ground (arith, found_under_hash hash rows u)

-- A login that returns a token opens the socket: until the session is over, whatever requests that
-- write no session were served in between, a first frame of the user's hash and this token admits the
-- user, if the hash has 32 bytes, the token is not empty, and the database answers the query.
pub login_opens_socket :
    (env : Env) (packages : Packages) (at at' : Readings) (req : LoginRequest) (w : World)
    (token : Bytes) (served : List Served)
    → issued (login env at req w).0 ≡ some token
    → length req.user_hash_id ≡ user_hash_size
    → 0 < length token
    → All WritesNoSession served
    → at'.utc < at.utc + hours session_expiry_hours
    → env.fault (serve_all env packages served (login env at req w).1).statements ≡ none
    → (authenticate env at'
        (binary_first (req.user_hash_id ++ token))
        (serve_all env packages served (login env at req w).1)).0
      ≡ some req.user_hash_id
unfolding find_session find_user
login_opens_socket env packages at at' req w token served opened sized nonempty quiet in_time
      answers =
    elim (login_outcome env at req w) [
      | inl (refused, _, _) ↦ cc
      | inr first ↦
          (let v = serve_all env packages served (login env at req w).1 in
            let frame = req.user_hash_id ++ token in
            let same_token : token ≡ at.random_token = ground (arith, first.token, opened) in
            let held : v.db.sessions ≡ w.db.sessions ++ new_session env at first.user ∷ [] =
              sessions-serve_all env packages served (login env at req w).1 quiet
              ∙ first.sessions in
            let mine : is_session token req.user_hash_id (new_session env at first.user) ≡ true =
              ground (
                arith,
                same_token,
                bytes_eq_refl token,
                found_under_hash req.user_hash_id w.db.users first.user first.found,
              ) in
            let new_here =
              find_new_session token req.user_hash_id w.db.sessions (new_session env at first.user)
                (subst (λ t. any (λ s. bytes_eq s.session_token t) w.db.sessions ≡ false)
                  (sym same_token) first.new_token)
                mine in
            (authenticate_iff env at' (binary_first frame) v req.user_hash_id).1 (record {
              frame = frame;
              session = new_session env at first.user;
              is_binary = refl;
              is_long = omega (arith, length-append req.user_hash_id token);
              names_user = sym (take-append_length user_hash_size req.user_hash_id token sized);
              answers = answers;
              stored = rw (drop-append_length user_hash_size req.user_hash_id token sized) (
                  IsFirst-of_found token req.user_hash_id v.db.sessions
                    (new_session env at first.user)
                    (ap (find (is_session token req.user_hash_id)) held ∙ new_here));
              in_time = in_time;
            }))
    ]
