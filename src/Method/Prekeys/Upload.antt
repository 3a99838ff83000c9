-- ===== src/Method/Prekeys/Upload.antt =====
-- handlers/method/upload_prekeys.rs and replenish_prekeys.rs: what an upload adds to the table.
use zenth_dht.Prelude.{
  Distinct, Distinct-append, ℕ, ◌+◌, ◌≡◌, refl, sym, ap, ◌∙◌, inl, inr, Bool-cases, Bool, false,
  List, [], ◌∷◌, ◌++◌, Bytes, bytes_eq_comm, ==_iff, any, All, length, arith,
}
use zenth_dht.Models.{OneTimePrekey, NaiveDateTime}
use zenth_dht.Method.Prekeys.Table.{PreKey, Stock, is_prekey, new_prekey, add_prekeys}

append_assoc : {A : Type 0} (xs ys zs : List A) → (xs ++ ys) ++ zs ≡ xs ++ (ys ++ zs)
append_assoc [] ys zs = refl
append_assoc (x ∷ xs) ys zs = ap (◌∷◌ x) (append_assoc xs ys zs)

-- What an upload of `n` new prekeys has added to the rows.
pub record IsUpload (hash : Bytes) (rows : List OneTimePrekey) (n : ℕ) (rows' : List OneTimePrekey)
    : Type 0 where
  pub added : List OneTimePrekey
  pub appended : rows' ≡ rows ++ added
  pub counted : length added ≡ n
  pub owned : All (λ (k : OneTimePrekey). k.user_hash_id ≡ hash) added
  pub unused : All (λ (k : OneTimePrekey). k.used ≡ false) added

with_first :
    (hash : Bytes) (k : OneTimePrekey) (rows : List OneTimePrekey) (n : ℕ)
    (rows' : List OneTimePrekey)
    → k.user_hash_id ≡ hash
    → k.used ≡ false
    → IsUpload hash (rows ++ k ∷ []) n rows'
    → IsUpload hash rows (1 + n) rows'
with_first hash k rows n rows' owner unused u = record {
  added = k ∷ u.added;
  appended = u.appended ∙ append_assoc rows (k ∷ []) u.added;
  counted = omega (arith, u.counted);
  owned = (owner, u.owned);
  unused = (unused, u.unused);
}

as_before :
    (hash : Bytes) (rows : List OneTimePrekey) (n : ℕ) (rows' : List OneTimePrekey)
    → IsUpload hash rows n rows'
    → IsUpload hash rows (0 + n) rows'
as_before hash rows n rows' u = record {
  added = u.added;
  appended = u.appended;
  counted = omega (arith, u.counted);
  owned = u.owned;
  unused = u.unused;
}

-- An upload keeps every row of the table in its place and appends new prekeys of this user, all of
-- them unused, and the number that it reports is the number of these.
pub add_prekeys-IsUpload :
    (hash : Bytes) (now : NaiveDateTime) (pks : List PreKey) (s : Stock)
    → IsUpload hash s.rows (add_prekeys hash now pks s).0 (add_prekeys hash now pks s).1.rows
unfolding add_prekeys
add_prekeys-IsUpload hash now [] s = record {
  added = [];
  appended = sym (append_nil s.rows);
  counted = refl;
  owned = tt;
  unused = tt;
}
  where
    append_nil : (xs : List OneTimePrekey) → xs ++ [] ≡ xs
    append_nil [] = refl
    append_nil (x ∷ xs) = ap (◌∷◌ x) (append_nil xs)
add_prekeys-IsUpload hash now (pk ∷ pks) s =
    elim (Bool-cases (any (is_prekey hash pk.pre_key_id) s.rows)) [
      | inl held ↦
          rw (held, add_prekeys)
            (as_before hash s.rows _ _ (
              add_prekeys-IsUpload hash now pks
                (record { rows = s.rows; next_id = s.next_id + 1 })))
      | inr free ↦
          rw (free, add_prekeys)
            (with_first hash (new_prekey hash now s.next_id pk) s.rows _ _ refl refl (
              add_prekeys-IsUpload hash now pks (record {
                rows = s.rows ++ new_prekey hash now s.next_id pk ∷ [];
                next_id = s.next_id + 1;
              })))
    ]

-- Two rows have the same user and the same prekey id.
abbrev pub same_prekey : OneTimePrekey → OneTimePrekey → Bool
same_prekey k = is_prekey k.user_hash_id k.prekey_id

same_prekey_comm : (k j : OneTimePrekey) → same_prekey k j ≡ same_prekey j k
same_prekey_comm k j = ground (
  arith,
  bytes_eq_comm j.user_hash_id k.user_hash_id,
  ==_iff j.prekey_id k.prekey_id,
  ==_iff k.prekey_id j.prekey_id,
)

-- An upload keeps the prekeys of the table distinct, whatever ids the client sends and repeats.
pub add_prekeys-Distinct :
    (hash : Bytes) (now : NaiveDateTime) (pks : List PreKey) (s : Stock)
    → Distinct same_prekey s.rows
    → Distinct same_prekey (add_prekeys hash now pks s).1.rows
unfolding add_prekeys
add_prekeys-Distinct hash now [] s h = h
add_prekeys-Distinct hash now (pk ∷ pks) s h =
    elim (Bool-cases (any (is_prekey hash pk.pre_key_id) s.rows)) [
      | inl held ↦
          rw (held, add_prekeys)
            (add_prekeys-Distinct hash now pks (record { rows = s.rows; next_id = s.next_id + 1 })
              h)
      | inr free ↦
          rw (free, add_prekeys)
            (add_prekeys-Distinct hash now pks _ (
              Distinct-append same_prekey same_prekey_comm s.rows (new_prekey hash now s.next_id pk)
                free h))
    ]
