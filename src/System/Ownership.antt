-- ===== src/System/Ownership.antt =====
-- The tables of users, sessions and messages together: who the rows of the other two belong to. The
-- schema does not tie a message to its users, so it is the handlers that keep this.
pub mod Methods
pub mod Requests
pub mod Steps
use mathlib.Core.Path.{subst}
use zenth_dht.Prelude.{
  ◌≡◌, ◌||◌, ◌++◌, refl, Bool, true, false, not, List, [], ◌∷◌, Option, some, Bytes, bytes_eq,
  bytes_eq_refl, bytes_eq_iff, sym, find, any, any-append, any-update_where, retain, update_where,
  All, All-append, All-map_implied, arith, if◌then◌else◌,
}
use zenth_dht.Models.{User, Session, MessageModel}
use zenth_dht.Method.Users.{is_user}

abbrev pub registered : List User → Bytes → Bool
registered users hash = any (is_user hash) users

abbrev pub HasParties : List User → MessageModel → Type 0
HasParties users m =
    (registered users m.sender_hash_id ≡ true) × (registered users m.recipient_hash_id ≡ true)

abbrev pub HasOwner : List User → Session → Type 0
HasOwner users s = registered users s.user_hash_id ≡ true

-- Every message is between registered users, and every session is of one.
pub record IsOwned (users : List User) (messages : List MessageModel) (sessions : List Session)
    : Type 0 where
  pub parties : All (HasParties users) messages
  pub owners : All (HasOwner users) sessions

-- What was owned stays owned where no registered user gets lost.
pub IsOwned-grow :
    (us vs : List User) (ms : List MessageModel) (ss : List Session)
    → ((h : Bytes) → registered us h ≡ true → registered vs h ≡ true)
    → IsOwned us ms ss
    → IsOwned vs ms ss
IsOwned-grow us vs ms ss more o = record {
  parties =
      All-map_implied (HasParties us) (HasParties vs) ms
        (λ m p. (more m.sender_hash_id p.0, more m.recipient_hash_id p.1)) o.parties;
  owners = All-map_implied (HasOwner us) (HasOwner vs) ss (λ s p. more s.user_hash_id p) o.owners;
}

pub registered-append :
    (us : List User) (u : User) (h : Bytes)
    → registered us h ≡ true
    → registered (us ++ u ∷ []) h ≡ true
registered-append us u h known = ground (arith, any-append (is_user h) us (u ∷ []))

-- An update that keeps the hashes keeps who is registered.
pub registered-update_where :
    (us : List User) (q : User → Bool) (f : User → User) (h : Bytes)
    → ((u : User) → is_user h (f u) ≡ is_user h u)
    → registered us h ≡ true
    → registered (update_where q f us) h ≡ true
registered-update_where us q f h same known =
    ground (arith, any-update_where (is_user h) q f us same)

pub registered_of_found :
    (us : List User) (h : Bytes) (u : User) → find (is_user h) us ≡ some u → registered us h ≡ true
registered_of_found [] h u found = cc
registered_of_found (x ∷ us) h u found = ground (arith, registered_of_found us h u)

-- The users without one of them: the others are still registered.
pub registered-erased :
    (us : List User) (gone h : Bytes)
    → bytes_eq h gone ≡ false
    → registered us h ≡ true
    → registered (retain (λ u. not (is_user gone u)) us) h ≡ true
registered-erased [] gone h other known = cc
registered-erased (u ∷ us) gone h other known = ground (
  arith,
  registered-erased us gone h,
  bytes_eq_iff u.user_hash_id h,
  bytes_eq_iff u.user_hash_id gone,
  bytes_eq_iff h gone,
)

module _ {A : Type 0} (P Q : A → Type 0) (q : A → Bool) where
  pub All-retain_with :
      (xs : List A) → ((x : A) → q x ≡ true → P x → Q x) → All P xs → All Q (retain q xs)
  All-retain_with [] f h = tt
  All-retain_with (x ∷ xs) f h = ground (arith, f x, All-retain_with xs f h.1)

pub registered_of_found_self :
    (us : List User) (h : Bytes) (u : User)
    → find (is_user h) us ≡ some u
    → registered us u.user_hash_id ≡ true
registered_of_found_self [] h u found = cc
registered_of_found_self (x ∷ us) h u found =
    ground (arith, registered_of_found_self us h u, bytes_eq_refl x.user_hash_id)

pub IsOwned-same :
    {us us' : List User} {ms ms' : List MessageModel} {ss ss' : List Session}
    → us' ≡ us
    → ms' ≡ ms
    → ss' ≡ ss
    → IsOwned us ms ss
    → IsOwned us' ms' ss'
IsOwned-same {us} {us'} {ms} {ms'} {ss} {ss'} p q r o =
    subst (λ x. IsOwned x ms' ss') (sym p)
      (subst (λ x. IsOwned us x ss') (sym q) (subst (λ x. IsOwned us ms x) (sym r) o))
