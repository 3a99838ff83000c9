-- ===== src/RateLimit/Isolation.antt =====
-- rate_limit.rs: the traffic of one bucket does not change what another bucket may do.
use zenth_dht.Prelude.{
  ◌≡◌, refl, Bool, true, false, List, [], ◌∷◌, Bytes, bytes_eq, bytes_eq_iff, retain, arith, ap,
  if◌then◌else◌, Bool-cases, inl, inr, take, length, ◌-◌, length-append, length-take, ℕ, zero, suc,
  replicate,
}
use Prim.Native.Nat.{min}
use zenth_dht.RateLimit.{KeyRateLimiter, Call, bucket, is_allowed, serve}

-- The verdicts on the calls of bucket `k`, in order.
abbrev pub verdicts_of : Bytes → List Call → List Bool → List Bool
verdicts_of k [] vs = []
verdicts_of k (c ∷ cs) [] = []
verdicts_of k (c ∷ cs) (v ∷ vs) =
    if bytes_eq (bucket c.key) k then v ∷ verdicts_of k cs vs else verdicts_of k cs vs

-- The calls of bucket `k`, in order.
abbrev pub calls_of : Bytes → List Call → List Call
calls_of k = retain (λ c. bytes_eq (bucket c.key) k)

length-replicate : (n b : ℕ) → length (replicate n b) ≡ n
length-replicate zero b = refl
length-replicate (suc n) b = ap suc (length-replicate n b)

-- A key of any length is stored under exactly 32 bytes.
pub length-bucket : (key : Bytes) → length (bucket key) ≡ 32
unfolding bucket
length-bucket key = omega (
  arith,
  length-append (take (min (length key) 32) key) (replicate (32 - min (length key) 32) 0),
  length-take (min (length key) 32) key,
  length-replicate (32 - min (length key) 32) 0,
)

record SameFor (k : Bytes) (l l' : KeyRateLimiter) : Type 0 where
  max : l.max_requests ≡ l'.max_requests
  window : l.window_secs ≡ l'.window_secs
  entry : l.entries k ≡ l'.entries k

other-SameFor :
    (k : Bytes) (l l' : KeyRateLimiter) (c : Call)
    → SameFor k l l'
    → bytes_eq (bucket c.key) k ≡ false
    → SameFor k (is_allowed l c.key c.now c.read).1 l'
unfolding is_allowed
other-SameFor k l l' c h miss = ground arith

hit-SameFor :
    (k : Bytes) (l l' : KeyRateLimiter) (c : Call)
    → SameFor k l l'
    → bytes_eq (bucket c.key) k ≡ true
    → ((is_allowed l c.key c.now c.read).0 ≡ (is_allowed l' c.key c.now c.read).0)
      × SameFor k (is_allowed l c.key c.now c.read).1 (is_allowed l' c.key c.now c.read).1
unfolding is_allowed
hit-SameFor k l l' c h hit = ground (arith, bytes_eq_iff (bucket c.key) k)

verdicts_SameFor :
    (k : Bytes) (l l' : KeyRateLimiter) (cs : List Call)
    → SameFor k l l'
    → verdicts_of k cs (serve l cs).0 ≡ (serve l' (calls_of k cs)).0
unfolding serve
verdicts_SameFor k l l' [] h = refl
verdicts_SameFor k l l' (c ∷ cs) h = elim (Bool-cases (bytes_eq (bucket c.key) k)) [
  | inl hit ↦ ground (
    arith,
    hit-SameFor k l l' c h hit,
    verdicts_SameFor k (is_allowed l c.key c.now c.read).1 (is_allowed l' c.key c.now c.read).1 cs,
  )
  | inr miss ↦ ground (
    arith,
    other-SameFor k l l' c h miss,
    verdicts_SameFor k (is_allowed l c.key c.now c.read).1 l' cs,
  )
]

-- However the requests of other buckets are interleaved, the verdicts on the requests of bucket `k`
-- are those that the limiter gives if only they are made.
pub serve-calls_of :
    (l : KeyRateLimiter) (k : Bytes) (cs : List Call)
    → verdicts_of k cs (serve l cs).0 ≡ (serve l (calls_of k cs)).0
serve-calls_of l k cs =
    verdicts_SameFor k l l cs (record { max = refl; window = refl; entry = refl })
