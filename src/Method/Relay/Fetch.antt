-- ===== src/Method/Relay/Fetch.antt =====
-- handlers/method/relay.rs: what `fetch_relay` shows, and that its pages miss and repeat nothing.
use zenth_dht.Prelude.{
  ℕ, zero, suc, ◌≤◌, ◌≡◌, refl, sym, ap, ◌∙◌, ◌⊎◌, inl, inr, Bool, true, ◌&&◌, List, [], ◌∷◌, ◌++◌,
  map, Bytes, ℤ, pos, lt_ℤb, le_ℤb, bytes_eq, retain, retain_same, retain-retain, retain-All, All,
  take, Ascends, Ascends-retain, order_by_sorted, ltb, arith,
}
use zenth_dht.Models.{RelayMessage, NaiveDateTime}
use zenth_dht.Crypto.{verify_dilithium_signature}
use zenth_dht.Timestamp.{is_timestamp_fresh}
use zenth_dht.Server.{Result, done, failed, Env, Readings, World}
use zenth_dht.Server.Rules.{on_reject, on_sql, on_give}
use zenth_dht.Method.Relay.{
  RelayFetchRequest, RelayFetchResponse, RelayEntry, to_entry, pending, relay_limit,
  fetch_signed_data, fetch_relay,
}

-- The device has signed the request with its own key.
pub record IsFetchable (env : Env) (at : Readings) (req : RelayFetchRequest) : Type 0 where
  pub fresh : is_timestamp_fresh at.unix_secs req.timestamp ≡ true
  pub signed :
      verify_dilithium_signature env.dilithium req.for_device_dilithium_pubkey
        (fetch_signed_data req)
        req.signature
      ≡ true

abbrev pub fetched : Result RelayFetchResponse → List RelayEntry
fetched (failed m) = []
fetched (done r) = r.entries

abbrev pub FetchOutcome :
    Env → Readings → RelayFetchRequest → World → Result RelayFetchResponse × World → Type 0
FetchOutcome env at req w (r, w') =
    (w'.db ≡ w.db)
    × ((fetched r ≡ [])
        ⊎ (IsFetchable env at req
            × (fetched r
                ≡ map to_entry (
                    take (relay_limit req.limit) (
                      pending req.for_device_dilithium_pubkey req.since_id at.utc
                        w.db.relay_messages)))))

-- A fetch changes nothing, and returns messages only to a fresh request that the device's own key
-- has signed: then the first pending ones, up to the limit.
pub fetch_relay_outcome :
    (env : Env) (at : Readings) (req : RelayFetchRequest) (w : World)
    → FetchOutcome env at req w (fetch_relay env at req w)
unfolding fetch_relay
fetch_relay_outcome env at req w =
    let P = FetchOutcome env at req w in
    on_reject P _ _ _ w (λ e. (refl, inl refl))
      λ device.
        on_reject P _ _ _ w (λ e. (refl, inl refl))
          λ signature.
            on_reject P _ _ _ w (λ e. (refl, inl refl))
              λ fresh.
                on_reject P _ _ _ w (λ e. (refl, inl refl))
                  λ signed.
                    on_sql P env _ _ w (λ err broken. on_give P _ _ (refl, inl refl))
                      λ sound. on_give P _ _ (refl, inr (ground arith, refl))

relay_limit-le : (n : ℕ) → relay_limit n ≤ 200
relay_limit-le zero = omega arith
relay_limit-le (suc n) = omega arith

-- The rows of a device that have not expired.
abbrev is_live : Bytes → NaiveDateTime → RelayMessage → Bool
is_live device now r = bytes_eq r.for_device_dilithium_pubkey device && ltb now r.expires_at

abbrev above : ℤ → List RelayMessage → List RelayMessage
above since = retain (λ r. lt_ℤb since (pos r.id))

abbrev row_id : RelayMessage → ℕ
row_id r = r.id

-- In a mailbox that stands in order, the pending rows are a selection from the table.
pending_selects :
    (device : Bytes) (since : ℤ) (now n : ℕ) (rows : List RelayMessage)
    → Ascends row_id n rows
    → pending device since now rows ≡ above since (retain (is_live device now) rows)
unfolding pending
pending_selects device since now n rows h =
    order_by_sorted row_id n _ (Ascends-retain row_id _ n rows h)
    ∙ retain_same _ _ rows (λ r.
      reorder (bytes_eq r.for_device_dilithium_pubkey device) (lt_ℤb since (pos r.id))
        (ltb now r.expires_at))
    ∙ sym (retain-retain (λ r. lt_ℤb since (pos r.id)) (is_live device now) rows)
  where
    reorder : (a b c : Bool) → (a && b && c) ≡ ((a && c) && b)
    reorder a b c = ground arith

-- The id after which the next page begins.
abbrev pub last_id : ℤ → List RelayMessage → ℤ
last_id since [] = since
last_id since (r ∷ rows) = last_id (pos r.id) rows

-- Every row of an ascending list is above what stands below its bound.
above_all :
    (since : ℤ) (n : ℕ) (rows : List RelayMessage)
    → lt_ℤb since (pos n) ≡ true
    → Ascends row_id n rows
    → above since rows ≡ rows
above_all since n [] h a = refl
above_all since n (r ∷ rows) h a = ground (arith, above_all since (suc r.id) rows)

last_id-ge :
    (n k : ℕ) (rows : List RelayMessage)
    → Ascends row_id (suc n) rows
    → le_ℤb (pos n) (last_id (pos n) (take k rows)) ≡ true
last_id-ge n zero rows a = ground arith
last_id-ge n (suc k) [] a = ground arith
last_id-ge n (suc k) (r ∷ rows) a = ground (arith, last_id-ge r.id k rows a.1)

-- A page, and what is above its last id, are the whole of an ascending list.
page_and_rest :
    (since : ℤ) (n k : ℕ) (rows : List RelayMessage)
    → lt_ℤb since (pos n) ≡ true
    → Ascends row_id n rows
    → take k rows ++ above (last_id since (take k rows)) rows ≡ rows
page_and_rest since n zero rows h a = above_all since n rows h a
page_and_rest since n (suc k) [] h a = refl
page_and_rest since n (suc k) (r ∷ rows) h a =
    ground (arith, last_id-ge r.id k rows a.1, page_and_rest (pos r.id) (suc r.id) k rows)

page_and_rest_above :
    (since : ℤ) (n k : ℕ) (rows : List RelayMessage)
    → All (λ r. lt_ℤb since (pos r.id) ≡ true) rows
    → Ascends row_id n rows
    → take k rows ++ above (last_id since (take k rows)) rows ≡ rows
page_and_rest_above since n zero [] h a = refl
page_and_rest_above since n (suc k) [] h a = refl
page_and_rest_above since n k (r ∷ rows) h a =
    page_and_rest since r.id k (r ∷ rows) h.0 (omega arith, a.1)

last_id-ge-since :
    (since : ℤ) (n k : ℕ) (rows : List RelayMessage)
    → All (λ r. lt_ℤb since (pos r.id) ≡ true) rows
    → Ascends row_id n rows
    → le_ℤb since (last_id since (take k rows)) ≡ true
last_id-ge-since since n zero rows h a = ground arith
last_id-ge-since since n (suc k) [] h a = ground arith
last_id-ge-since since n (suc k) (r ∷ rows) h a = ground (arith, last_id-ge r.id k rows a.1)

above-above :
    (since later : ℤ) (rows : List RelayMessage)
    → le_ℤb since later ≡ true
    → above later (above since rows) ≡ above later rows
above-above since later rows h =
    retain-retain (λ r. lt_ℤb later (pos r.id)) (λ r. lt_ℤb since (pos r.id)) rows
    ∙ retain_same _ _ rows (λ r. both r.id)
  where
    both : (id : ℕ) → (lt_ℤb since (pos id) && lt_ℤb later (pos id)) ≡ lt_ℤb later (pos id)
    both id = ground arith

-- In a mailbox that stands in order, a page of any size, followed by all that is pending after the
-- last id of the page, is exactly what was pending: the pages of successive fetches miss nothing and
-- repeat nothing.
pub pending_pages :
    (device : Bytes) (since : ℤ) (now n k : ℕ) (rows : List RelayMessage)
    → Ascends (λ (r : RelayMessage). r.id) n rows
    → let page = take k (pending device since now rows) in
      page ++ pending device (last_id since page) now rows ≡ pending device since now rows
pending_pages device since now n k rows h =
    ap (λ (p : List RelayMessage). take k p ++ pending device (last_id since (take k p)) now rows)
      selected
    ∙ ap (◌++◌ (take k shown)) (
        pending_selects device _ now n rows h
        ∙ sym (above-above since _ live (last_id-ge-since since n k shown all_above ascending)))
    ∙ page_and_rest_above since n k shown all_above ascending
    ∙ sym selected
  where
    live : List RelayMessage
    live = retain (is_live device now) rows

    shown : List RelayMessage
    shown = above since live

    selected : pending device since now rows ≡ shown
    selected = pending_selects device since now n rows h

    all_above : All (λ r. lt_ℤb since (pos r.id) ≡ true) shown
    all_above = retain-All (λ r. lt_ℤb since (pos r.id)) live

    ascending : Ascends row_id n shown
    ascending = Ascends-retain row_id _ n live (Ascends-retain row_id _ n rows h)
