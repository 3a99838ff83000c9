-- ===== src/Websocket/Handler/Sessions.antt =====
-- websocket/handler.rs: the session that the query of `verify_session_token` finds.
use mathlib.Core.Path.{subst}
use zenth_dht.Prelude.{
  ◌≡◌, ◌++◌, refl, ap, ◌∙◌, inl, inr, true, Bool-cases, List, [], ◌∷◌, some, Bytes, bytes_eq_iff,
  find, All, arith,
}
use zenth_dht.Models.{Session}
use zenth_dht.Websocket.Handler.{is_session}

-- The first of the rows that has this token and this user.
pub record IsFirst (token hash : Bytes) (s : Session) (rows : List Session) : Type 0 where
  pub before : List Session
  pub after : List Session
  pub split : rows ≡ before ++ s ∷ after
  pub names_token : s.session_token ≡ token
  pub names_user : s.user_hash_id ≡ hash
  pub earlier : All (λ x. ¬ ((x.session_token ≡ token) × (x.user_hash_id ≡ hash))) before

module _ (token hash : Bytes) where
  fields_of_session :
      (x : Session)
      → is_session token hash x ≡ true
      → (x.session_token ≡ token) × (x.user_hash_id ≡ hash)
  fields_of_session x h =
      ground (arith, bytes_eq_iff x.session_token token, bytes_eq_iff x.user_hash_id hash)

  is_session_of_fields :
      (x : Session)
      → x.session_token ≡ token
      → x.user_hash_id ≡ hash
      → is_session token hash x ≡ true
  is_session_of_fields x t u =
      ground (arith, bytes_eq_iff x.session_token token, bytes_eq_iff x.user_hash_id hash)

  pub IsFirst-of_found :
      (rows : List Session) (s : Session)
      → find (is_session token hash) rows ≡ some s
      → IsFirst token hash s rows
  IsFirst-of_found [] s found = cc
  IsFirst-of_found (x ∷ rows) s found = elim (Bool-cases (is_session token hash x)) [
    | inl mine ↦
        subst (λ y. IsFirst token hash y (x ∷ rows)) (ground arith)
          (record {
            before = [];
            after = rows;
            split = refl;
            names_token = (fields_of_session x mine).0;
            names_user = (fields_of_session x mine).1;
            earlier = tt;
          })
    | inr other ↦
        (let rest = IsFirst-of_found rows s (ground arith) in
          record {
            before = x ∷ rest.before;
            after = rest.after;
            split = ap (◌∷◌ x) rest.split;
            names_token = rest.names_token;
            names_user = rest.names_user;
            earlier = (λ p. cc (is_session_of_fields x p.0 p.1), rest.earlier);
          })
  ]

  find_past :
      (before after : List Session) (s : Session)
      → All (λ x. ¬ ((x.session_token ≡ token) × (x.user_hash_id ≡ hash))) before
      → is_session token hash s ≡ true
      → find (is_session token hash) (before ++ s ∷ after) ≡ some s
  find_past [] after s h mine = ground arith
  find_past (x ∷ before) after s h mine = elim (Bool-cases (is_session token hash x)) [
    | inl it ↦ absurd (h.0 (fields_of_session x it))
    | inr other ↦ ground (arith, find_past before after s h.1 mine)
  ]

  pub find-IsFirst :
      (rows : List Session) (s : Session)
      → IsFirst token hash s rows
      → find (is_session token hash) rows ≡ some s
  find-IsFirst rows s first =
      ap (find (is_session token hash)) first.split
      ∙ find_past first.before first.after s first.earlier
          (is_session_of_fields s first.names_token first.names_user)
