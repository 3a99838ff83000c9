-- ===== src/Method/Lookup.antt =====
-- handlers/method/lookup_user.rs: a user reads the bundle of another.
-- `PreKeyBundle::decode` of prost is a parameter.
use zenth_dht.Prelude.{
  ℕ, ◌≡◌, refl, ◌⊎◌, inl, inr, Bool, true, false, not, ◌++◌, [], Option, none, some, Bytes,
  u64_le_bytes, is_empty, arith,
}
use zenth_dht.Models.{Db, User}
use zenth_dht.Crypto.{verify_dilithium_signature}
use zenth_dht.Server.{
  text, with_error, Message, no_message, Result, done, failed, Env, World, ◌>>=◌, ◌>>◌, body, give,
  reject_if, row_or, sql,
}
use zenth_dht.Server.Rules.{on_reject, on_row, on_sql, on_give}
use zenth_dht.Method.Users.{first_row_found, find_user, select_user}
use zenth_dht.Method.Prekeys.{PreKeyBundle, is_bad_hash}

pub record LookupUserRequest : Type 0 where
  pub requester_hash : Bytes
  pub target_hash : Bytes
  pub dilithium_signature : Bytes
  pub timestamp : ℕ

pub record LookupUserResponse : Type 0 where
  pub found : Bool
  pub user_hash : Bytes
  pub pre_key_bundle : Option PreKeyBundle
  pub error_message : Message

unfoldable pub lookup_signed_data : LookupUserRequest → Bytes
lookup_signed_data req = (req.requester_hash ++ req.target_hash) ++ u64_le_bytes req.timestamp

abbrev pub unknown : Result LookupUserResponse
unknown =
    done
      (record { found = false; user_hash = []; pre_key_bundle = none; error_message = no_message })

abbrev pub lookup_reply : User → Option PreKeyBundle → Result LookupUserResponse
lookup_reply target none = failed (text "Failed to decode user's PreKeyBundle")
lookup_reply target (some b) = done (record {
  found = true;
  user_hash = target.user_hash_id;
  pre_key_bundle = some b;
  error_message = no_message;
})

module _ (env : Env) (decode_bundle : Bytes → Option PreKeyBundle) where
  unfoldable pub lookup_user : LookupUserRequest → World → Result LookupUserResponse × World
  lookup_user req = body do
    reject_if (is_bad_hash req.requester_hash) (failed (text "Invalid requester hash"))
    reject_if (is_bad_hash req.target_hash) (failed (text "Invalid target hash"))
    reject_if (is_empty req.dilithium_signature) (failed (text "Dilithium signature is required"))
    row ← sql env (select_user req.requester_hash)
    requester ←
        row_or row (failed (text "Requester not found"))
          (λ e. failed (with_error "Database error: {}" e))
    reject_if
        (not (
          verify_dilithium_signature env.dilithium requester.identity_key_dilithium
            (lookup_signed_data req) req.dilithium_signature))
        (failed (text "Invalid signature"))
    row' ← sql env (select_user req.target_hash)
    target ← row_or row' unknown (λ e. failed (with_error "Database error: {}" e))
    give (lookup_reply target (decode_bundle target.pre_key_bundle))

-- The bundle that a response shows.
abbrev pub looked_up : Result LookupUserResponse → Option PreKeyBundle
looked_up (failed m) = none
looked_up (done r) = r.pre_key_bundle

-- The requester has signed the request, and the target has this bundle.
pub record MayLookUp (env : Env) (decode_bundle : Bytes → Option PreKeyBundle)
    (req : LookupUserRequest) (db : Db) (b : Option PreKeyBundle) : Type 0 where
  pub requester : User
  pub target : User
  pub requester_found : find_user req.requester_hash db ≡ some requester
  pub target_found : find_user req.target_hash db ≡ some target
  pub signed :
      verify_dilithium_signature env.dilithium requester.identity_key_dilithium
        (lookup_signed_data req)
        req.dilithium_signature
      ≡ true
  pub decoded : decode_bundle target.pre_key_bundle ≡ b

abbrev pub LookupOutcome :
    Env
    → (Bytes → Option PreKeyBundle)
    → LookupUserRequest
    → Db
    → Result LookupUserResponse × World
    → Type 0
LookupOutcome env decode_bundle req db (r, w') =
    (w'.db ≡ db) × ((looked_up r ≡ none) ⊎ MayLookUp env decode_bundle req db (looked_up r))

looked_up-lookup_reply : (u : User) (b : Option PreKeyBundle) → b ≡ looked_up (lookup_reply u b)
looked_up-lookup_reply u none = refl
looked_up-lookup_reply u (some b) = refl

-- A lookup changes nothing, and shows a bundle only to a known user whose identity key has signed the
-- request: the bundle is the one that the target has stored, and no one-time prekey is used up.
pub lookup_user_outcome :
    (env : Env) (decode_bundle : Bytes → Option PreKeyBundle) (req : LookupUserRequest) (w : World)
    → LookupOutcome env decode_bundle req w.db (lookup_user env decode_bundle req w)
unfolding lookup_user
lookup_user_outcome env decode_bundle req w =
    let P = LookupOutcome env decode_bundle req w.db in
    on_reject P _ _ _ w (λ e. (refl, inl refl))
      λ a.
        on_reject P _ _ _ w (λ e. (refl, inl refl))
          λ b.
            on_reject P _ _ _ w (λ e. (refl, inl refl))
              λ c.
                on_sql P env _ _ w
                  (λ x broken.
                    on_row P _ _ _ _ _ (λ q. (refl, inl refl)) (λ y q. (refl, inl refl)) λ u q. cc)
                  λ sound.
                    on_row P _ _ _ _ _ (λ q. (refl, inl refl)) (λ y q. (refl, inl refl))
                      λ requester q.
                        on_reject P _ _ _ _ (λ e. (refl, inl refl))
                          λ signed.
                            on_sql P env _ _ _
                              (λ x broken.
                                on_row P _ _ _ _ _ (λ q'. (refl, inl refl))
                                  (λ y q'. (refl, inl refl)) λ u q'. cc)
                              λ sound'.
                                on_row P _ _ _ _ _ (λ q'. (refl, inl refl))
                                  (λ y q'. (refl, inl refl))
                                  λ target q'. on_give P _ _ (
                                    refl,
                                    inr (record {
                                      requester = requester;
                                      target = target;
                                      requester_found = first_row_found _ requester q;
                                      target_found = first_row_found _ target q';
                                      signed = ground arith;
                                      decoded = looked_up-lookup_reply target _;
                                    }),
                                  )
