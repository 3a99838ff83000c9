-- ===== src/System/Tests.antt =====
-- main.rs: two requests of a small server.
use zenth_dht.Prelude.{bytes_eq, refl, [], ◌∷◌}
use zenth_dht.Server.{World}
use zenth_dht.Server.Samples.{sample_env, noon, sample_world}
use zenth_dht.Decompose.{handle_post}
use zenth_dht.Decompose.Samples.{sample_packages}
use zenth_dht.System.{Reach, here, then, posted}
use zenth_dht.System.Keys.{KeysOf}
use zenth_dht.System.Keys.Requests.{Reach-KeysOf}
use zenth_dht.Decompose.Tables.{users}
use zenth_dht.System.Ownership.Methods.{OwnedIn}
use zenth_dht.System.Ownership.Steps.{Reach-OwnedIn}
use zenth_dht.Websocket.Handler.Samples.{ws}

-- Alice sends Bob a message.
abbrev message_sent : World
message_sent = (handle_post sample_env sample_packages noon 1_001 (12 ∷ []) sample_world).1

-- Then she deletes her account.
abbrev account_gone : World
account_gone = (handle_post sample_env sample_packages noon 1_002 (3 ∷ []) message_sent).1

abbrev both_requests : Reach sample_env sample_packages ws sample_world account_gone
both_requests =
    then (then here (posted noon 1_001 (12 ∷ []) refl)) (posted noon 1_002 (3 ∷ []) refl)

Reach-OwnedIn_example : OwnedIn account_gone.db
Reach-OwnedIn_example =
    Reach-OwnedIn sample_env sample_packages ws sample_world account_gone
      (record { parties = tt; owners = tt }) both_requests

Reach-KeysOf_example : KeysOf users account_gone.db
unfolding bytes_eq
Reach-KeysOf_example =
    Reach-KeysOf sample_env sample_packages ws users sample_world account_gone (refl, (refl, tt))
      both_requests
