-- ===== src/Method/Message/Orphans.antt =====
-- handlers/method/send_message.rs and delete.rs: a user is deleted between the checks of a message and
-- its insert.
use mathlib.Core.Path.{subst}
use zenth_dht.Prelude.{
  ◌≡◌, ◌∙◌, refl, sym, ap, inl, inr, true, false, not, none, some, List, [], ◌∷◌, any, any-retain,
  any-append, retain, bytes_eq_refl, Bytes, arith,
}
use zenth_dht.Models.{Db, User, NaiveDateTime}
use zenth_dht.Server.{Result, Exit, Env, Readings, World, body}
use zenth_dht.Server.Rules.{on_sql, on_row, on_act, on_give}
use zenth_dht.Method.Users.{is_user}
use zenth_dht.Method.Delete.{DeleteRequest, delete_account}
use zenth_dht.Method.Delete.Completeness.{is_deleted, delete_account_outcome}
use zenth_dht.Method.Message.{
  ZenthSignalEnvelope, Formats, has_message_id, insert_message, store_message, SendMessageResponse,
}
use zenth_dht.Method.Message.Sending.{IsSendable, push-db}

is_user_erased :
    (hash : Bytes) (us : List User)
    → any (is_user hash) (retain (λ u. not (is_user hash u)) us) ≡ false
is_user_erased hash [] = refl
is_user_erased hash (u ∷ us) = ground (arith, is_user_erased hash us)

-- The message waits for a user that does not exist.
abbrev pub IsOrphan : ZenthSignalEnvelope → Db → Type 0
IsOrphan e db =
    (any (has_message_id e.message_id) db.messages ≡ true)
    × (any (is_user e.recipient_hash_id) db.users ≡ false)

module _ (env : Env) (at at' : Readings) (formats : Formats) (e : ZenthSignalEnvelope) where
  stored_anyway :
      (expiry : NaiveDateTime) (v : World)
      → env.fault v.statements ≡ none
      → any (has_message_id e.message_id) v.db.messages ≡ false
      → any (is_user e.recipient_hash_id) v.db.users ≡ false
      → IsOrphan e (body (store_message env at formats e (some expiry)) v).1.db
  unfolding store_message insert_message
  stored_anyway expiry v sound free gone =
      let P : Exit (Result SendMessageResponse) × World → Type 0 = λ r. IsOrphan e r.1.db in
      on_sql P env _ _ v (λ x broken. cc)
        λ answered.
          rw (free, insert_message)
            (on_row P _ _ _ _ _ (λ q. cc) (λ y q. cc)
              λ a q. on_act P _ _ _ (
                on_give P _ _ (
                  subst (IsOrphan e) (sym (push-db env at formats e _)) (
                    any-append (has_message_id e.message_id) v.db.messages _
                        ∙ ground (arith, bytes_eq_refl e.message_id),
                    gone,
                  ))))

  -- The checks of a message and its insert are statements of their own: if the recipient's account is
  -- deleted between them, the message is stored all the same, for a user that does not exist.
  pub orphaned_message :
      (expiry : NaiveDateTime) (req : DeleteRequest) (w : World)
      → IsSendable env at formats e w expiry
      → req.user_hash_id ≡ e.recipient_hash_id
      → is_deleted (delete_account env at' req w).0 ≡ true
      → env.fault (delete_account env at' req w).1.statements ≡ none
      → IsOrphan e
          (body
            (store_message env at formats e (some expiry))
            (delete_account env at' req w).1).1.db
  orphaned_message expiry req w may same deleted sound =
      elim (delete_account_outcome env at' req w) [
        | inl (kept, _) ↦ cc
        | inr (_, _, all) ↦
            stored_anyway expiry (delete_account env at' req w).1 sound
              (ap (λ (d : Db). any (has_message_id e.message_id) d.messages) all
                ∙ any-retain (has_message_id e.message_id) _ w.db.messages may.new_id)
              (ap (λ (d : Db). any (is_user e.recipient_hash_id) d.users) all
                ∙ subst
                    (λ h.
                      any (is_user e.recipient_hash_id) (retain (λ u. not (is_user h u)) w.db.users)
                      ≡ false)
                    (sym same) (is_user_erased e.recipient_hash_id w.db.users))
      ]
