-- ===== src/Method/Updates/Ranges.antt =====
-- handlers/method/update_chunk.rs: the ranges of a file that the requests for chunks ask for.
use Prim.Native.Nat.{min}
use zenth_dht.Prelude.{ℕ, ◌+◌, ◌^◌, ◌<◌, ◌≡◌, arith}
use zenth_dht.Method.Updates.{range_end}

-- With a positive chunk size and an offset in the file, the range ends just before the next offset or
-- the end of the file, the next offset being 512 KiB away at most: ranges that follow each other leave
-- no gap and do not overlap.
pub range_end_next :
    (offset chunk_size total : ℕ)
    → 0 < chunk_size
    → chunk_size < 2 ^ 32
    → offset < total
    → total < 2 ^ 63
    → range_end offset chunk_size total + 1 ≡ min (offset + min chunk_size 524_288) total
unfolding range_end
range_end_next offset chunk_size total positive small inside fits = ground arith

-- A request for chunks of size 0 at the start of a file asks for the whole file, however long it is:
-- the limit of 512 KiB does not hold.
pub range_end_of_nothing :
    (total : ℕ) → 0 < total → total < 2 ^ 64 → range_end 0 0 total + 1 ≡ total
unfolding range_end
range_end_of_nothing total positive fits = ground arith
