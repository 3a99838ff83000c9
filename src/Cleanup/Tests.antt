-- ===== src/Cleanup/Tests.antt =====
-- main.rs: a round of the cleanup on a small server.
use zenth_dht.Prelude.{true, [], ◌∷◌, pos, arith}
use zenth_dht.Server.Samples.{sample_env, noon, alice_hash, sample_world}
use zenth_dht.Cleanup.{clean_round}
use zenth_dht.Cleanup.Invisible.{LooksTheSame, clean_round-LooksTheSame}

clean_round-LooksTheSame_example :
    LooksTheSame alice_hash
      (30 ∷ [])
      (1 ∷ [])
      0
      (pos 0)
      1_000_000_500
      90
      sample_world
      (clean_round sample_env noon 24 true sample_world).1
clean_round-LooksTheSame_example =
    clean_round-LooksTheSame sample_env noon 24 true alice_hash (30 ∷ []) (1 ∷ []) 0 (pos 0)
      1_000_000_500 90 sample_world (omega arith) (omega arith)
