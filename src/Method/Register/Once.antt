-- ===== src/Method/Register/Once.antt =====
-- handlers/method/register.rs: what a registration changes, and that a name is registered once.
use mathlib.Core.Path.{subst}
use zenth_dht.Prelude.{
  Distinct, Distinct-append, bytes_eq_comm, ◌≡◌, refl, sym, ◌⊎◌, inl, inr, Bool-cases, Bool, true,
  false, [], ◌∷◌, ◌++◌, length, any, arith,
}
use zenth_dht.Models.{Db, User}
use zenth_dht.Server.{err, DbError, unique_violation, Result, done, failed, Env, Readings, World}
use zenth_dht.Server.Rules.{on_reject, on_sql, on_give, stored}
use zenth_dht.Method.Users.{is_user}
use zenth_dht.Method.Register.{
  RegistrationRequest, RegistrationResponse, is_duplicate, insert_user, new_user, reply, register,
}

abbrev pub is_registered : Result RegistrationResponse → Bool
is_registered (failed m) = false
is_registered (done r) = r.success

abbrev pub with_user : User → Db → Db
with_user u db = record db { users = db.users ++ u ∷ [] }

-- The name has the size of a hash, and nobody has it yet.
pub record IsFree (req : RegistrationRequest) (db : Db) : Type 0 where
  pub sized : length req.username_hash ≡ 32
  pub unheld : any (is_user req.username_hash) db.users ≡ false

abbrev pub RegisterOutcome :
    Readings → RegistrationRequest → Db → Result RegistrationResponse × World → Type 0
RegisterOutcome at req db (r, w') =
    ((is_registered r ≡ false) × (w'.db ≡ db))
    ⊎ (IsFree req db × (is_registered r ≡ true) × (w'.db ≡ with_user (new_user at req) db))

is_registered-reply_err :
    (req : RegistrationRequest) (e : DbError) → is_registered (reply req (err e)) ≡ false
is_registered-reply_err req e = elim (Bool-cases (is_duplicate e)) [
  | inl yes_case ↦ rw yes_case refl
  | inr no_case ↦ rw no_case refl
]

insert_outcome :
    (at : Readings) (req : RegistrationRequest) (w : World)
    → length req.username_hash ≡ 32
    → let q = insert_user (new_user at req) w.db in
      RegisterOutcome at req w.db (reply req q.0, stored w q.1)
unfolding insert_user
insert_outcome at req w sized = elim (Bool-cases (any (is_user req.username_hash) w.db.users)) [
  | inl taken ↦ rw (taken, insert_user) (inl (is_registered-reply_err req unique_violation, refl))
  | inr free ↦ rw (free, insert_user) (inr (record { sized = sized; unheld = free }, refl, refl))
]

-- A registration succeeds only under a hash of 32 bytes that nobody has, and then appends exactly
-- the new user, with no recovery key; any other registration changes nothing.
pub register_outcome :
    (env : Env) (at : Readings) (req : RegistrationRequest) (w : World)
    → RegisterOutcome at req w.db (register env at req w)
unfolding register
register_outcome env at req w =
    let P = RegisterOutcome at req w.db in
    on_reject P _ _ _ w (λ e. inl (refl, refl))
      λ given.
        on_reject P _ _ _ w (λ e. inl (refl, refl))
          λ sized.
            on_reject P _ _ _ w (λ e. inl (refl, refl))
              λ bundle.
                on_reject P _ _ _ w (λ e. inl (refl, refl))
                  λ password.
                    on_reject P _ _ _ w (λ e. inl (refl, refl))
                      λ key.
                        on_reject P _ _ _ w (λ e. inl (refl, refl))
                          λ signature.
                            on_sql P env _ _ w
                              (λ x broken.
                                on_give P _ _ (inl (is_registered-reply_err req x, refl)))
                              λ sound. on_give P _ _ (insert_outcome at req w (ground arith))

-- Two users have the same hash.
abbrev pub same_user : User → User → Bool
same_user u = is_user u.user_hash_id

same_user_comm : (u v : User) → same_user u v ≡ same_user v u
same_user_comm u v = bytes_eq_comm v.user_hash_id u.user_hash_id

-- However users register, no two of them have the same hash.
pub register-Distinct :
    (env : Env) (at : Readings) (req : RegistrationRequest) (w : World)
    → Distinct same_user w.db.users
    → Distinct same_user (register env at req w).1.db.users
register-Distinct env at req w h = elim (register_outcome env at req w) [
  | inl (_, same) ↦ subst (λ (d : Db). Distinct same_user d.users) (sym same) h
  | inr (free, _, changed) ↦
      subst (λ (d : Db). Distinct same_user d.users) (sym changed)
        (Distinct-append same_user same_user_comm w.db.users (new_user at req) free.unheld h)
]
