-- ===== src/Method/Login/Once.antt =====
-- handlers/method/login.rs: a proof opens one session only.
use mathlib.Core.Path.{subst}
use zenth_dht.Prelude.{
  ◌+◌, ◌≡◌, ◌≢◌, ap, inl, inr, not, ◌&&◌, List, none, some, Bytes, find, find-retain-none, arith,
}
use zenth_dht.Models.{AuthChallenge}
use zenth_dht.Server.{Env, Readings, World}
use zenth_dht.Method.Login.{
  AuthProof, LoginRequest, has_challenge_id, is_challenge_of, find_challenge, login,
}
use zenth_dht.Method.Login.Proof.{issued, without_challenge, login_outcome}

-- A challenge that has been deleted is not found, for any user.
find_challenge-deleted :
    (id hash : Bytes) (rows : List AuthChallenge)
    → find (λ x. has_challenge_id id x && is_challenge_of hash x) (without_challenge id rows) ≡ none
find_challenge-deleted id hash rows =
    find-retain-none (λ x. not (has_challenge_id id x))
      (λ x. has_challenge_id id x && is_challenge_of hash x) rows (λ x h. ground arith)

no_second_challenge :
    (id id' hash : Bytes) (c : AuthChallenge) (rows rows' : List AuthChallenge)
    → rows' ≡ without_challenge id rows
    → id' ≡ id
    → find (λ x. has_challenge_id id' x && is_challenge_of hash x) rows' ≢ some c
no_second_challenge id id' hash c rows rows' deleted same posed =
    let again =
      subst (λ i. find (λ x. has_challenge_id i x && is_challenge_of hash x) rows' ≡ some c) same
        posed in
    cc (
      again,
      ap (find (λ x. has_challenge_id id x && is_challenge_of hash x)) deleted,
      find_challenge-deleted id hash rows,
    )

-- A proof opens one session: after a login that returned a token, if the database did not refuse the
-- deletion of the challenge, no login with a proof for the same challenge returns a token.
pub login_once :
    (env env' : Env) (at at' : Readings) (req req' : LoginRequest) (w : World) (p p' : AuthProof)
    → issued (login env at req w).0 ≢ none
    → env.fault (w.statements + 1 + 1 + 1) ≡ none
    → req.proof ≡ some p
    → req'.proof ≡ some p'
    → p'.challenge_id ≡ p.challenge_id
    → issued (login env' at' req' (login env at req w).1).0 ≡ none
unfolding find_challenge
login_once env env' at at' req req' w p p' opened sound sent sent' same =
    elim (login_outcome env at req w) [
      | inl (refused, _, _) ↦ absurd (opened refused)
      | inr first ↦ elim (login_outcome env' at' req' (login env at req w).1) [
        | inl (refused', _, _) ↦ refused'
        | inr second ↦ absurd (elim first.consumed [
          | inr broken ↦ broken sound
          | inl deleted ↦
              no_second_challenge first.proof.challenge_id second.proof.challenge_id
                second.user.user_hash_id second.challenge w.db.auth_challenges _ deleted
                (ground (arith, first.sent, second.sent, sent, sent', same)) second.posed
        ])
      ]
    ]
