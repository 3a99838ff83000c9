-- ===== src/Method/Message/Tests.antt =====
-- handlers/method/send_message.rs: Bob's account goes while a message to him is stored.
use zenth_dht.Prelude.{◌≡◌, refl, true, [], ◌∷◌, bytes_eq, arith, some}
use zenth_dht.Crypto.{verify_dilithium_signature}
use zenth_dht.Models.{NaiveDateTime}
use zenth_dht.Timestamp.{is_timestamp_fresh}
use zenth_dht.Server.{World, body, statement, act, give, reject_if, row_or, ◌>>=◌}
use zenth_dht.Server.Samples.{sample_env, noon, alice, bob, bob_hash, sample_world}
use zenth_dht.Method.Users.{find_user}
use zenth_dht.Method.Samples.{formats, greeting}
use zenth_dht.Method.Delete.{
  DeleteRequest, delete_account, delete_user_data, delete_rows, delete_responses_to, disconnect,
}
use zenth_dht.Method.Delete.Completeness.{is_deleted}
use zenth_dht.Method.Message.{expires_at, large_admitted, mid_admitted, store_message}
use zenth_dht.Method.Message.Sending.{IsSendable}
use zenth_dht.Method.Message.Orphans.{IsOrphan, orphaned_message}

abbrev in_a_day : NaiveDateTime
in_a_day = 87_400_000_000

abbrev leaving : DeleteRequest
leaving = record { user_hash_id = bob_hash; dilithium_signature = 12 ∷ []; timestamp = 1_000 }

greeting-IsSendable : IsSendable sample_env noon formats greeting sample_world in_a_day
unfolding find_user bytes_eq verify_dilithium_signature expires_at large_admitted mid_admitted
greeting-IsSendable = record {
  sender = alice;
  recipient = bob;
  sender_found = refl;
  recipient_found = refl;
  signed = refl;
  size = omega arith;
  large = refl;
  mid = refl;
  expires = refl;
  new_id = refl;
}

bob_leaves : is_deleted (delete_account sample_env noon leaving sample_world).0 ≡ true
unfolding delete_account delete_user_data delete_rows delete_responses_to disconnect
    verify_dilithium_signature find_user bytes_eq statement act body give reject_if row_or ◌>>=◌
    is_timestamp_fresh
bob_leaves = refl

abbrev bob_gone : World
bob_gone = (delete_account sample_env noon leaving sample_world).1

orphaned_message_example :
    IsOrphan greeting
      (body (store_message sample_env noon formats greeting (some in_a_day)) bob_gone).1.db
orphaned_message_example =
    orphaned_message sample_env noon noon formats greeting in_a_day leaving sample_world
      greeting-IsSendable refl bob_leaves refl
