-- ===== src/System/Ownership/Requests.antt =====
-- handlers/decompose.rs: whatever is requested, the rows stay owned.
use zenth_dht.Prelude.{
  ◌≡◌, ◌≢◌, ◌||◌, refl, ap, inl, inr, Bool, true, false, Bool-cases, ℕ, ℤ, arith,
}
use zenth_dht.Server.{Env, Readings, World}
use zenth_dht.Decompose.{process_request}
use zenth_dht.Decompose.Codecs.{DhtRequest, Packages}
use zenth_dht.Decompose.Keeps.{process_request_keeps}
use zenth_dht.Decompose.Tables.{users, messages, sessions, writes}
use zenth_dht.Decompose.Footprint.{process_request_footprint}
use zenth_dht.System.Ownership.{IsOwned-same}
use zenth_dht.System.Ownership.Methods.{
  OwnedIn, register-OwnedIn, login-OwnedIn, delete_account-OwnedIn, send_message-OwnedIn,
  ack_message-OwnedIn, publish_recovery_key-OwnedIn, recovery_claim-OwnedIn,
}

-- The method may write one of the three tables.
abbrev concerns : ℤ → Bool
concerns method = writes users method || writes messages method || writes sessions method

unconcerned :
    (req : DhtRequest) (m : ℤ) → req.method ≡ m → concerns req.method ≡ true → concerns m ≢ false
unconcerned req m same concerned quiet = cc (ap concerns same)

module _ (env : Env) (packages : Packages) (at : Readings) (w : World) (owned : OwnedIn w.db) where
  by_arm :
      (answered_at : ℕ) (req : DhtRequest)
      → concerns req.method ≡ true
      → OwnedIn (process_request env packages at answered_at req w).1.db
  by_arm answered_at req concerned =
      process_request_keeps OwnedIn env packages at answered_at req w
        (record {
          registers = λ e req. record { at = λ u o. register-OwnedIn env at u o req };
          logs_in = λ e req. record { at = λ u o. login-OwnedIn env at u o req };
          deletes = λ e req. record { at = λ u o. delete_account-OwnedIn env at u o req };
          contacts = λ e. absurd (unconcerned req _ e concerned refl);
          befriends = λ e. absurd (unconcerned req _ e concerned refl);
          responds = λ e. absurd (unconcerned req _ e concerned refl);
          sends =
              λ e req. record { at = λ u o. send_message-OwnedIn env at u o packages.formats req };
          uploads = λ e. absurd (unconcerned req _ e concerned refl);
          delivers = λ e. absurd (unconcerned req _ e concerned refl);
          replenishes = λ e. absurd (unconcerned req _ e concerned refl);
          puts_blob = λ e. absurd (unconcerned req _ e concerned refl);
          deletes_blob = λ e. absurd (unconcerned req _ e concerned refl);
          relays = λ e. absurd (unconcerned req _ e concerned refl);
          acks_relay = λ e. absurd (unconcerned req _ e concerned refl);
          acks_message = λ e req. record { at = λ u o. ack_message-OwnedIn env at u o req };
          publishes = λ e req. record { at = λ u o. publish_recovery_key-OwnedIn env at u o req };
          claims = λ e req. record { at = λ u o. recovery_claim-OwnedIn env at u o req };
        })
        owned

  pub process_request-OwnedIn :
      (answered_at : ℕ) (req : DhtRequest)
      → OwnedIn (process_request env packages at answered_at req w).1.db
  process_request-OwnedIn answered_at req = elim (Bool-cases (concerns req.method)) [
    | inl concerned ↦ by_arm answered_at req concerned
    | inr unconcerned ↦
        (let kept = process_request_footprint env packages at answered_at req w in
          IsOwned-same (kept users (ground arith)) (kept messages (ground arith)).0
            (kept sessions (ground arith)) owned)
  ]
