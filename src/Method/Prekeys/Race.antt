-- ===== src/Method/Prekeys/Race.antt =====
-- handlers/method/fetch_prekey_bundle.rs: two requests for one target at once. The handler reads the
-- prekey and marks it in two statements, with no transaction and no lock around them.
use zenth_dht.Prelude.{◌+◌, ◌≡◌, refl, sym, ◌∙◌, ap, Option, none, some, Bytes, ℕ, ◌==◌, true, All}
use zenth_dht.Models.{Db, OneTimePrekey}
use zenth_dht.Server.{DbResult, ok, Env, Readings, World, ◌>>=◌, act, body, give, row_or, statement}
use zenth_dht.Server.Rules.{counted, stored}
use zenth_dht.Method.Prekeys.{PreKeyBundle, bundle_reply, with_prekey, consume, hand_out, deliver}
use zenth_dht.Method.Prekeys.Table.{
  is_unused_of, next_unused, select_unused, mark_used, update_used,
}
use zenth_dht.Method.Prekeys.Delivery.{next_unused-unused, marked-All}

module _ (env : Env) (decode_bundle : Bytes → Option PreKeyBundle) (at : Readings) where
  -- The handler, taken apart at its two statements.
  deliver_lem :
      (target : Bytes) (b : PreKeyBundle) (w : World)
      → let (picked, w') = statement env (select_unused target) w in
        body (deliver env decode_bundle at target (some b)) w
        ≡ body (hand_out env decode_bundle at b picked) w'
  unfolding deliver body act ◌>>=◌
  deliver_lem target b w = refl

  -- A statement that the database does not refuse.
  statement_sound :
      {A : Type 0} (q : Db → DbResult A × Db) (w : World)
      → env.fault w.statements ≡ none
      → statement env q w ≡ ((q w.db).0, stored w (q w.db).1)
  unfolding statement
  statement_sound q w sound = rw (sound, statement) refl

  -- The second statement, whatever has been done since the first.
  hand_out-some :
      (b : PreKeyBundle) (k : OneTimePrekey) (w : World)
      → env.fault w.statements ≡ none
      → body (hand_out env decode_bundle at b (ok (some k))) w
        ≡ (bundle_reply (with_prekey b k), stored w (update_used k.id w.db).1)
  unfolding hand_out consume body act give row_or ◌>>=◌
  hand_out-some b k w sound = rw (statement_sound (update_used k.id) w sound) refl

  -- The first statement.
  reads :
      (target : Bytes) (k : OneTimePrekey) (w : World)
      → next_unused target w.db.one_time_prekeys ≡ some k
      → env.fault w.statements ≡ none
      → statement env (select_unused target) w ≡ (ok (some k), counted w)
  reads target k w next sound =
      statement_sound (select_unused target) w sound ∙ ap (λ o. (ok o, counted w)) next

  -- Both.
  serves :
      (target : Bytes) (b : PreKeyBundle) (k : OneTimePrekey) (w : World)
      → next_unused target w.db.one_time_prekeys ≡ some k
      → ((n : ℕ) → env.fault n ≡ none)
      → body (deliver env decode_bundle at target (some b)) w
        ≡ (bundle_reply (with_prekey b k), stored (counted w) (update_used k.id w.db).1)
  serves target b k w next sound =
      deliver_lem target b w
      ∙ ap (λ p. body (hand_out env decode_bundle at b p.0) p.1)
          (reads target k w next (sound w.statements))
      ∙ hand_out-some b k (counted w) (sound (counted w).statements)

  -- If the database refuses no statement, and a request for a bundle has read the target's next prekey
  -- when another one for the same target is served, before the first goes on, then both are answered
  -- with that same prekey, an unused one of the target; afterwards no row with its serial number is
  -- unused. With nothing in between, the two parts of the first request are the handler's run.
  pub same_prekey_twice :
      (target : Bytes) (a b : PreKeyBundle) (k : OneTimePrekey) (w : World)
      → next_unused target w.db.one_time_prekeys ≡ some k
      → ((n : ℕ) → env.fault n ≡ none)
      → let (picked, w1) = statement env (select_unused target) w in
        let (second, w2) = body (deliver env decode_bundle at target (some b)) w1 in
        let (first, w3) = body (hand_out env decode_bundle at a picked) w2 in
        (is_unused_of target k ≡ true)
        × (first ≡ bundle_reply (with_prekey a k))
        × (second ≡ bundle_reply (with_prekey b k))
        × All (λ x. (x.id == k.id) ≡ true → x.used ≡ true) w3.db.one_time_prekeys
        × (body (deliver env decode_bundle at target (some a)) w
            ≡ body (hand_out env decode_bundle at a picked) w1)
  same_prekey_twice target a b k w next sound =
      rw
        (
          reads target k w next (sound w.statements),
          serves target b k (counted w) next sound,
          hand_out-some a k (stored (counted (counted w)) (update_used k.id w.db).1)
              (sound (w.statements + 1 + 1 + 1)),
        )
        (
          next_unused-unused target w.db.one_time_prekeys k next,
          refl,
          refl,
          marked-All k.id (mark_used k.id w.db.one_time_prekeys),
          serves target a k w next sound
              ∙ sym (hand_out-some a k (counted w) (sound (w.statements + 1))),
        )
