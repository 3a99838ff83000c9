-- ===== src/RateLimit/Tests.antt =====
-- rate_limit.rs on small inputs.
use zenth_dht.Prelude.{
  ℕ, ◌≡◌, ◌≤◌, refl, true, false, List, [], ◌∷◌, ◌++◌, ◌+◌, ◌*◌, Bytes, bytes_eq, insert,
  no_entries, arith,
}
use zenth_dht.RateLimit.{KeyRateLimiter, Call, bucket, charge, is_allowed, serve, cleanup}
use zenth_dht.RateLimit.Quota.{second, admitted, burst, admitted-le-budget, admitted-burst}
use zenth_dht.RateLimit.Isolation.{verdicts_of, calls_of, serve-calls_of}
use zenth_dht.RateLimit.Cleanup.{serve-cleanup}

abbrev red : Bytes
red = 1 ∷ 2 ∷ []

abbrev blue : Bytes
blue = 3 ∷ []

-- Two requests in ten seconds.
abbrev pair : KeyRateLimiter
pair = record { entries = no_entries; max_requests = 2; window_secs = 10 }

-- One request has been counted at time 0.
abbrev half_used : KeyRateLimiter
half_used = record {
  entries = insert (bucket red) (record { start = 0; count = 1 }) no_entries;
  max_requests = 2;
  window_secs = 10;
}

abbrev call : Bytes → ℕ → Call
call key t = record { key = key; now = t; read = t }

abbrev mixed : List Call
mixed = call red 1 ∷ call blue 1 ∷ call red 2 ∷ call red 3 ∷ []

-- The third request of a key is refused, and another key is not affected.
serve-mixed : (serve pair mixed).0 ≡ true ∷ true ∷ true ∷ false ∷ []
unfolding serve is_allowed bucket charge bytes_eq
serve-mixed = refl

admitted-le-budget_example :
    admitted (serve half_used (call red 1 ∷ call red 2 ∷ call red 3 ∷ [])).0 ≤ 1 + 2
unfolding bucket bytes_eq
admitted-le-budget_example =
    admitted-le-budget half_used (bucket red) 1 (call red 1 ∷ call red 2 ∷ call red 3 ∷ [])
      (omega arith) ((refl, refl), ((refl, refl), ((refl, refl), tt)))
      (
        (omega arith, omega arith, omega arith),
        ((omega arith, omega arith, omega arith), ((omega arith, omega arith, omega arith), tt)),
      )

-- One request at the end of the window, and two at once when it is over.
admitted-burst_example :
    admitted (serve half_used (burst 1 red (9 * second) ++ burst 2 red (10 * second))).0 ≡ 1 + 2
unfolding bucket bytes_eq
admitted-burst_example =
    admitted-burst half_used red (record { start = 0; count = 1 }) 1 2 (9 * second) (10 * second)
      refl refl (omega arith) (omega arith) (omega arith) (omega arith) (omega arith) (omega arith)

serve-calls_of_example :
    verdicts_of (bucket red) mixed (serve pair mixed).0
    ≡ (serve pair (calls_of (bucket red) mixed)).0
serve-calls_of_example = serve-calls_of pair (bucket red) mixed

serve-cleanup_example :
    (serve (cleanup half_used (25 * second)) (call red (26 * second) ∷ [])).0
    ≡ (serve half_used (call red (26 * second) ∷ [])).0
serve-cleanup_example =
    serve-cleanup half_used (25 * second) (26 * second) (call red (26 * second) ∷ []) (omega arith)
      (omega arith) (omega arith, tt)
