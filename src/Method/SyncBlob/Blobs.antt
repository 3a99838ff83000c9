-- ===== src/Method/SyncBlob/Blobs.antt =====
-- handlers/method/sync_blob.rs: the table of blobs as a map from devices.
use zenth_dht.Prelude.{
  ◌≡◌, refl, ap, ◌∙◌, sym, true, false, not, List, [], ◌∷◌, ◌++◌, Option, none, some, Bytes,
  bytes_eq, bytes_eq_iff, bytes_eq_refl, any, update_where, retain, ltb, Bool-cases, inl, inr,
  arith, if◌then◌else◌,
}
use zenth_dht.Models.{SyncBlob, NaiveDateTime}
use zenth_dht.Method.SyncBlob.{is_for, put_blob, current_blob}

abbrev pub if_live : NaiveDateTime → SyncBlob → Option SyncBlob
if_live now b = if ltb now b.expires_at then some b else none

abbrev replaced : SyncBlob → SyncBlob → SyncBlob
replaced row b = record b {
  ciphertext = row.ciphertext;
  signature = row.signature;
  expires_at = row.expires_at;
}

replaced-eq :
    (row b : SyncBlob)
    → bytes_eq b.for_device_dilithium_pubkey row.for_device_dilithium_pubkey ≡ true
    → replaced row b ≡ row
replaced-eq row b h =
    ground (arith, bytes_eq_iff b.for_device_dilithium_pubkey row.for_device_dilithium_pubkey)

module _ (device : Bytes) (now : NaiveDateTime) where
  current-absent :
      (rows : List SyncBlob)
      → any (is_for device) rows ≡ false
      → current_blob device now rows ≡ none
  unfolding current_blob
  current-absent [] h = refl
  current-absent (b ∷ rows) h = ground (arith, current-absent rows)

  current-append :
      (rows : List SyncBlob) (row : SyncBlob)
      → any (is_for device) rows ≡ false
      → current_blob device now (rows ++ row ∷ [])
        ≡ (if is_for device row then if_live now row else none)
  unfolding current_blob
  current-append [] row h = ground arith
  current-append (b ∷ rows) row h = ground (arith, current-append rows row)

  current-append_other :
      (rows : List SyncBlob) (row : SyncBlob)
      → is_for device row ≡ false
      → current_blob device now (rows ++ row ∷ []) ≡ current_blob device now rows
  unfolding current_blob
  current-append_other [] row h = ground arith
  current-append_other (b ∷ rows) row h = ground (arith, current-append_other rows row)

unmatched :
    (key : Bytes) (f : SyncBlob → SyncBlob) (rows : List SyncBlob)
    → any (is_for key) rows ≡ false
    → update_where (is_for key) f rows ≡ rows
unmatched key f [] e = refl
unmatched key f (c ∷ rows) e = ground (arith, unmatched key f rows)

current-update_self :
    (now : NaiveDateTime) (row : SyncBlob) (rows : List SyncBlob)
    → any (is_for row.for_device_dilithium_pubkey) rows ≡ true
    → current_blob row.for_device_dilithium_pubkey now
        (update_where (is_for row.for_device_dilithium_pubkey) (replaced row) rows)
      ≡ if_live now row
unfolding current_blob
current-update_self now row [] h = cc
current-update_self now row (b ∷ rows) h =
    let key = row.for_device_dilithium_pubkey in
    ground (
      arith,
      replaced-eq row b,
      bytes_eq_refl key,
      unmatched key (replaced row) rows,
      current-absent key now rows,
      current-update_self now row rows,
    )

current-update_other :
    (device : Bytes) (now : NaiveDateTime) (row : SyncBlob) (rows : List SyncBlob)
    → bytes_eq row.for_device_dilithium_pubkey device ≡ false
    → current_blob device now
        (update_where (is_for row.for_device_dilithium_pubkey) (replaced row) rows)
      ≡ current_blob device now rows
unfolding current_blob
current-update_other device now row [] h = refl
current-update_other device now row (b ∷ rows) h = ground (
  arith,
  bytes_eq_iff b.for_device_dilithium_pubkey row.for_device_dilithium_pubkey,
  bytes_eq_iff b.for_device_dilithium_pubkey device,
  bytes_eq_iff row.for_device_dilithium_pubkey device,
  current-update_other device now row rows,
)

put_self :
    (now : NaiveDateTime) (row : SyncBlob) (rows : List SyncBlob)
    → current_blob row.for_device_dilithium_pubkey now (put_blob row rows) ≡ if_live now row
unfolding put_blob
put_self now row rows = elim (Bool-cases (any (is_for row.for_device_dilithium_pubkey) rows)) [
  | inl held ↦ rw (held, put_blob) (current-update_self now row rows held)
  | inr free ↦
      rw (free, put_blob)
        (current-append row.for_device_dilithium_pubkey now rows row free
          ∙ ap (λ c. if c then if_live now row else none)
              (bytes_eq_refl row.for_device_dilithium_pubkey))
]

put_other :
    (device : Bytes) (now : NaiveDateTime) (row : SyncBlob) (rows : List SyncBlob)
    → bytes_eq row.for_device_dilithium_pubkey device ≡ false
    → current_blob device now (put_blob row rows) ≡ current_blob device now rows
unfolding put_blob
put_other device now row rows h =
    elim (Bool-cases (any (is_for row.for_device_dilithium_pubkey) rows)) [
      | inl held ↦ rw (held, put_blob) (current-update_other device now row rows h)
      | inr free ↦ rw (free, put_blob) (current-append_other device now rows row h)
    ]

-- After a push a device sees the pushed blob until it expires, whatever was there before, and every
-- other device sees what it saw.
pub current_blob-put_blob :
    (device : Bytes) (now : NaiveDateTime) (row : SyncBlob) (rows : List SyncBlob)
    → current_blob device now (put_blob row rows) ≡ (
        if bytes_eq row.for_device_dilithium_pubkey device
        then if_live now row
        else current_blob device now rows)
current_blob-put_blob device now row rows =
    elim (Bool-cases (bytes_eq row.for_device_dilithium_pubkey device)) [
      | inl same ↦ rw same (
          ap (λ d. current_blob d now (put_blob row rows))
            (sym ((bytes_eq_iff row.for_device_dilithium_pubkey device).0 same))
          ∙ put_self now row rows)
      | inr differ ↦ rw differ (put_other device now row rows differ)
    ]

-- After a deletion for a device it sees nothing, and every other device sees what it saw.
pub current_blob-deleted :
    (device other : Bytes) (now : NaiveDateTime) (rows : List SyncBlob)
    → current_blob other now (retain (λ b. not (is_for device b)) rows)
      ≡ (if bytes_eq device other then none else current_blob other now rows)
unfolding current_blob
current_blob-deleted device other now [] = ground arith
current_blob-deleted device other now (b ∷ rows) = ground (
  arith,
  bytes_eq_iff b.for_device_dilithium_pubkey device,
  bytes_eq_iff b.for_device_dilithium_pubkey other,
  bytes_eq_iff device other,
  current_blob-deleted device other now rows,
)
