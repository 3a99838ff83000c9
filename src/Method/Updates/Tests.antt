-- ===== src/Method/Updates/Tests.antt =====
-- handlers/method/update_chunk.rs on small inputs.
use zenth_dht.Prelude.{◌+◌, ◌≡◌, arith}
use zenth_dht.Method.Updates.{range_end}
use zenth_dht.Method.Updates.Ranges.{range_end_of_nothing}

range_end_of_nothing_example : range_end 0 0 90_000_000 + 1 ≡ 90_000_000
range_end_of_nothing_example = range_end_of_nothing 90_000_000 (omega arith) (omega arith)
