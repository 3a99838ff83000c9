-- ===== src/Decompose/Tests.antt =====
-- handlers/decompose.rs on a small server.
use zenth_dht.Prelude.{refl, [], ◌∷◌}
use zenth_dht.Server.Samples.{sample_env, noon, sample_db, sample_world}
use zenth_dht.Decompose.{handle_post, process_request}
use zenth_dht.Decompose.Tables.{sessions, Same}
use zenth_dht.Decompose.Footprint.{process_request_footprint}
use zenth_dht.Decompose.Replies.{PostOutcome, handle_post_outcome}
use zenth_dht.Decompose.Samples.{sample_packages, sending}

process_request_footprint_example :
    Same sessions
      (process_request sample_env sample_packages noon 1_001 sending sample_world).1.db
      sample_db
process_request_footprint_example =
    process_request_footprint sample_env sample_packages noon 1_001 sending sample_world sessions
      refl

-- A deletion, with an empty payload.
handle_post_outcome_example :
    PostOutcome sample_env sample_packages noon 1_001
      (3 ∷ [])
      sample_world
      (handle_post sample_env sample_packages noon 1_001 (3 ∷ []) sample_world)
handle_post_outcome_example =
    handle_post_outcome sample_env sample_packages noon 1_001 (3 ∷ []) sample_world
