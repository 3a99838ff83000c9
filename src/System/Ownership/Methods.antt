-- ===== src/System/Ownership/Methods.antt =====
-- handlers/method/: the methods that write users, messages or sessions keep the rows owned.
use mathlib.Core.Path.{subst}
use zenth_dht.Prelude.{
  ◌≡◌, ◌++◌, refl, sym, ap, inl, inr, not, List, [], ◌∷◌, Bytes, retain, All-append, All-retain,
  arith,
}
use zenth_dht.Models.{Db, User, Session, MessageModel}
use zenth_dht.Server.{Env, Readings, World}
use zenth_dht.Method.Users.{is_user, find_user}
use zenth_dht.Method.Register.{RegistrationRequest, new_user, register}
use zenth_dht.Method.Register.Once.{register_outcome}
use zenth_dht.Method.Login.{LoginRequest, new_session, login}
use zenth_dht.Method.Login.Proof.{login_outcome}
use zenth_dht.Method.Recovery.{
  PublishRecoveryKeyRequest, RecoveryClaimRequest, with_recovery_key, with_identity,
  recovery_session, publish_recovery_key, recovery_claim,
}
use zenth_dht.Method.Recovery.Claims.{
  refused, half_done, claimed, updated_users, publish_recovery_key_outcome, recovery_claim_outcome,
}
use zenth_dht.Method.Delete.{DeleteRequest, is_message_of, is_session_of, delete_account}
use zenth_dht.Method.Delete.Completeness.{erased, delete_account_outcome}
use zenth_dht.Method.Message.{ZenthSignalEnvelope, MessageAck, Formats, send_message, ack_message}
use zenth_dht.Method.Message.Sending as Sending
use zenth_dht.Method.Message.Sending.{send_message_outcome}
use zenth_dht.Method.Keeps.Accounts.{delete_account-Keeps}
use zenth_dht.Method.Keeps.Writers.{ack_message-Keeps}
use zenth_dht.Decompose.Tables.{messages}
use zenth_dht.Decompose.Footprint.Accounts.{login-Same}
use zenth_dht.System.Ownership.{
  HasParties, HasOwner, IsOwned, IsOwned-grow, IsOwned-same, registered_of_found_self,
  registered-append, registered-update_where, registered_of_found, registered-erased,
  All-retain_with,
}

abbrev pub OwnedIn : Db → Type 0
OwnedIn db = IsOwned db.users db.messages db.sessions

module _ (env : Env) (at : Readings) (w : World) (owned : OwnedIn w.db) where
  pub register-OwnedIn : (req : RegistrationRequest) → OwnedIn (register env at req w).1.db
  register-OwnedIn req = elim (register_outcome env at req w) [
    | inl (_, same) ↦ subst OwnedIn (sym same) owned
    | inr (_, _, changed) ↦ subst OwnedIn (sym changed) (
        IsOwned-grow w.db.users _ w.db.messages w.db.sessions
          (registered-append w.db.users (new_user at req)) owned)
  ]

  with_owner :
      (us : List User) (ms : List MessageModel) (ss : List Session) (s : Session)
      → HasOwner us s
      → IsOwned us ms ss
      → IsOwned us ms (ss ++ s ∷ [])
  with_owner us ms ss s mine o = record {
    parties = o.parties;
    owners = All-append (HasOwner us) ss (s ∷ []) o.owners (mine, tt);
  }

  pub login-OwnedIn : (req : LoginRequest) → OwnedIn (login env at req w).1.db
  unfolding find_user
  login-OwnedIn req =
      let v = (login env at req w).1.db in
      let same_messages : v.messages ≡ w.db.messages =
        ((login-Same w.db env at messages req refl).at w (refl, refl)).0 in
      elim (login_outcome env at req w) [
        | inl (_, same, same_users) ↦ IsOwned-same same_users same_messages same owned
        | inr first ↦ IsOwned-same first.users same_messages first.sessions (
            with_owner w.db.users w.db.messages w.db.sessions (new_session env at first.user)
              (registered_of_found_self w.db.users req.user_hash_id first.user first.found) owned)
      ]

  pub updated-OwnedIn :
      (hash : Bytes) (f : User → User)
      → ((h : Bytes) (u : User) → is_user h (f u) ≡ is_user h u)
      → OwnedIn (updated_users hash f w.db)
  updated-OwnedIn hash f same =
      IsOwned-grow w.db.users _ w.db.messages w.db.sessions
        (λ h. registered-update_where w.db.users (is_user hash) f h (same h)) owned

  pub publish_recovery_key-OwnedIn :
      (req : PublishRecoveryKeyRequest) → OwnedIn (publish_recovery_key env at req w).1.db
  publish_recovery_key-OwnedIn req = elim (publish_recovery_key_outcome env at req w) [
    | inl (_, same) ↦ subst OwnedIn (sym same) owned
    | inr (_, _, changed) ↦ subst OwnedIn (sym changed) (
        updated-OwnedIn req.username_hash (with_recovery_key req.recovery_dilithium_pubkey)
          (λ h u. refl))
  ]

  pub recovery_claim-OwnedIn :
      (req : RecoveryClaimRequest) → OwnedIn (recovery_claim env at req w).1.db
  unfolding find_user
  recovery_claim-OwnedIn req = elim (recovery_claim_outcome env at req w) [
    | refused _ same ↦ subst OwnedIn (sym same) owned
    | half_done _ _ changed ↦
        subst OwnedIn (sym changed)
          (updated-OwnedIn req.username_hash (with_identity req) (λ h u. refl))
    | claimed may _ changed ↦ subst OwnedIn (sym changed) (
        with_owner _ w.db.messages w.db.sessions (recovery_session env at req.username_hash)
          (registered-update_where w.db.users (is_user req.username_hash) (with_identity req)
            req.username_hash (λ u. refl)
            (registered_of_found w.db.users req.username_hash may.user may.found))
          (updated-OwnedIn req.username_hash (with_identity req) (λ h u. refl)))
  ]

  pub ack_message-OwnedIn : (req : MessageAck) → OwnedIn (ack_message env at req w).1.db
  ack_message-OwnedIn req =
      (ack_message-Keeps OwnedIn env at req (λ id recipient db o. record {
        parties = All-retain (HasParties db.users) _ db.messages o.parties;
        owners = o.owners;
      })).at
        w owned

  pub send_message-OwnedIn :
      (formats : Formats) (e : ZenthSignalEnvelope) → OwnedIn (send_message env at formats e w).1.db
  unfolding find_user
  send_message-OwnedIn formats e = elim (send_message_outcome env at formats e w) [
    | Sending.refused _ same ↦
        IsOwned-same (ap (λ (d : Db). d.users) same) (ap (λ (d : Db). d.messages) same)
          (ap (λ (d : Db). d.sessions) same) owned
    | Sending.accepted expiry may _ changed ↦ subst OwnedIn (sym changed) (record {
      parties = All-append (HasParties w.db.users) w.db.messages _ owned.parties (
        (
          registered_of_found w.db.users e.sender_hash_id may.sender may.sender_found,
          registered_of_found w.db.users e.recipient_hash_id may.recipient may.recipient_found,
        ),
        tt,
      );
      owners = owned.owners;
    })
  ]

  -- A deletion only removes messages and sessions, also where it fails halfway.
  still_of_users :
      (req : DeleteRequest)
      → let db = (delete_account env at req w).1.db in IsOwned w.db.users db.messages db.sessions
  still_of_users req =
      let I : Db → Type 0 = λ db. IsOwned w.db.users db.messages db.sessions in
      (delete_account-Keeps I env at (λ ids db o. o) (λ hash db o. o)
          (λ hash db o. record {
            parties = All-retain (HasParties w.db.users) _ db.messages o.parties;
            owners = o.owners;
          })
          (λ hash db o. record {
            parties = o.parties;
            owners = All-retain (HasOwner w.db.users) _ db.sessions o.owners;
          })
          (λ hash db o. o)
          (λ hash db o. record {
            parties = o.parties;
            owners = All-retain (HasOwner w.db.users) _ db.sessions o.owners;
          })
          req).at
        w owned

  erased-OwnedIn : (hash : Bytes) → OwnedIn (erased hash w.db)
  erased-OwnedIn hash =
      let rest = retain (λ u. not (is_user hash u)) w.db.users in
      record {
        parties =
            All-retain_with (HasParties w.db.users) (HasParties rest)
              (λ m. not (is_message_of hash m)) w.db.messages
              (λ m others p. (
                registered-erased w.db.users hash m.sender_hash_id (ground arith) p.0,
                registered-erased w.db.users hash m.recipient_hash_id (ground arith) p.1,
              ))
              owned.parties;
        owners =
            All-retain_with (HasOwner w.db.users) (HasOwner rest) (λ s. not (is_session_of hash s))
              w.db.sessions
              (λ s others p. registered-erased w.db.users hash s.user_hash_id (ground arith) p)
              owned.owners;
      }

  pub delete_account-OwnedIn : (req : DeleteRequest) → OwnedIn (delete_account env at req w).1.db
  delete_account-OwnedIn req = elim (delete_account_outcome env at req w) [
    | inl (_, same) ↦ IsOwned-same same refl refl (still_of_users req)
    | inr (_, _, all) ↦ subst OwnedIn (sym all) (erased-OwnedIn req.user_hash_id)
  ]
