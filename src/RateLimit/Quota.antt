-- ===== src/RateLimit/Quota.antt =====
-- rate_limit.rs: how many requests of one key `is_allowed` lets through.
use zenth_dht.Prelude.{
  ℕ, zero, suc, ◌+◌, ◌-◌, ◌*◌, ◌≤◌, ◌<◌, ◌≡◌, refl, ap, Bool, true, false, Option, none, some, List,
  [], ◌∷◌, ◌++◌, ◌∙◌, Bytes, replicate, All-append, bytes_eq_refl, is_empty, All, arith, leb,
  if◌then◌else◌,
}
use mathlib.Core.List.{append-nil}
use native.Mathlib.Nat.{add-zero, add_assoc}
use zenth_dht.RateLimit.{
  Entry, KeyRateLimiter, Call, bucket, or_insert, elapsed_secs, charge, is_allowed, serve,
}

abbrev pub second : ℕ
second = 1_000_000_000

-- How many of the verdicts are `true`.
abbrev pub admitted : List Bool → ℕ
admitted [] = 0
admitted (true ∷ vs) = suc (admitted vs)
admitted (false ∷ vs) = admitted vs

-- The verdicts that one entry alone gives to a sequence of readings, and the entry that is left.
charges : ℕ → ℕ → Option Entry → List Call → ℕ
charges max window o [] = 0
charges max window o (c ∷ cs) =
    let (ok, e) =
      charge max window c.now c.read (or_insert o (record { start = c.now; count = 0 })) in
    (if ok then 1 else 0) + charges max window (some e) cs

-- The calls are all of one bucket, with keys that are not empty.
abbrev pub SameBucket : Bytes → Call → Type 0
SameBucket k c = (is_empty c.key ≡ false) × (bucket c.key ≡ k)

-- The calls fall into the interval of `window` seconds that begins at `t`.
abbrev pub Within : ℕ → ℕ → Call → Type 0
Within t window c = (t ≤ c.now) × (c.now ≤ c.read) × (c.read < t + window * second)

admitted-serve :
    (l : KeyRateLimiter) (k : Bytes) (cs : List Call)
    → All (SameBucket k) cs
    → admitted (serve l cs).0 ≡ charges l.max_requests l.window_secs (l.entries k) cs
unfolding serve charges is_allowed
admitted-serve l k [] h = refl
admitted-serve l k (c ∷ cs) h =
    ground (arith, bytes_eq_refl k, admitted-serve (is_allowed l c.key c.now c.read).1 k cs h.1)

-- What an entry can still let through before `t + window`: its rest, and a fresh quota if its
-- window began before `t`.
abbrev pub budget : ℕ → ℕ → Option Entry → ℕ
budget max t none = max
budget max t (some e) = if leb t e.start then max - e.count else (max - e.count) + max

charges-le-budget :
    (max window t : ℕ) (o : Option Entry) (cs : List Call)
    → 0 < max
    → All (Within t window) cs
    → charges max window o cs ≤ budget max t o
unfolding charges charge
charges-le-budget max window t o [] m h = omega arith
charges-le-budget max window t none (c ∷ cs) m h = ground (
  arith,
  charges-le-budget max window t (some (record { start = c.now; count = 1 })) cs m h.1,
  charges-le-budget max window t (some (record { start = c.now; count = 0 })) cs m h.1,
)
charges-le-budget max window t (some e) (c ∷ cs) m h = ground (
  arith,
  charges-le-budget max window t (some (record { start = c.now; count = 1 })) cs m h.1,
  charges-le-budget max window t (some (record e { count = e.count + 1 })) cs m h.1,
  charges-le-budget max window t (some e) cs m h.1,
)

-- Of the requests of one bucket in any interval of `window` seconds, a limiter with a positive
-- maximum lets at most the budget of the bucket's entry through: `max` if the bucket has no entry,
-- what is left of `max` if its window began in the interval, and `max` more if it began before.
pub admitted-le-budget :
    (l : KeyRateLimiter) (k : Bytes) (t : ℕ) (cs : List Call)
    → 0 < l.max_requests
    → All (SameBucket k) cs
    → All (Within t l.window_secs) cs
    → admitted (serve l cs).0 ≤ budget l.max_requests t (l.entries k)
admitted-le-budget l k t cs m same within =
    rw (admitted-serve l k cs same)
      (charges-le-budget l.max_requests l.window_secs t (l.entries k) cs m within)

-- `n` requests with one key, whose clock readings are all `t`.
abbrev pub burst : ℕ → Bytes → ℕ → List Call
burst n key t = replicate n (record { key = key; now = t; read = t })

charges-burst_open :
    (max window n : ℕ) (key : Bytes) (t : ℕ) (e : Entry) (cs : List Call)
    → elapsed_secs t e.start < window
    → e.count + n ≤ max
    → charges max window (some e) (burst n key t ++ cs)
      ≡ n + charges max window (some (record e { count = e.count + n })) cs
unfolding charges charge
charges-burst_open max window zero key t e cs early room = ground (arith, add-zero e.count)
charges-burst_open max window (suc n) key t e cs early room = ground (
  arith,
  charges-burst_open max window n key t (record e { count = e.count + 1 }) cs,
  add_assoc e.count 1 n,
)

charges-burst_reset :
    (max window m : ℕ) (key : Bytes) (t : ℕ) (e : Entry)
    → window ≤ elapsed_secs t e.start
    → 0 < window
    → 0 < m
    → m ≤ max
    → charges max window (some e) (burst m key t) ≡ m
unfolding charges charge
charges-burst_reset max window zero key t e late w p room = absurd (omega arith)
charges-burst_reset max window (suc m) key t e late w p room = ground (
  arith,
  append-nil (burst m key t),
  charges-burst_open max window m key t (record { start = t; count = 1 }) [],
)

burst-SameBucket :
    (n : ℕ) (key : Bytes) (t : ℕ)
    → is_empty key ≡ false
    → All (SameBucket (bucket key)) (burst n key t)
burst-SameBucket zero key t h = tt
burst-SameBucket (suc n) key t h = ((h, refl), burst-SameBucket n key t h)

-- The window is fixed, not sliding: if a key has an entry with room for `n` more requests, `n`
-- requests at a moment `a` at which the entry's window is still open and up to `max` at a moment
-- `b` at which it is over are all let through, however close `a` and `b` are.
pub admitted-burst :
    (l : KeyRateLimiter) (key : Bytes) (e : Entry) (n m a b : ℕ)
    → is_empty key ≡ false
    → l.entries (bucket key) ≡ some e
    → 0 < l.window_secs
    → e.count + n ≤ l.max_requests
    → 0 < m
    → m ≤ l.max_requests
    → elapsed_secs a e.start < l.window_secs
    → l.window_secs ≤ elapsed_secs b e.start
    → admitted (serve l (burst n key a ++ burst m key b)).0 ≡ n + m
admitted-burst l key e n m a b full found w room p fits early late =
    admitted-serve l (bucket key) (burst n key a ++ burst m key b) (
      All-append (SameBucket (bucket key)) (burst n key a) (burst m key b)
        (burst-SameBucket n key a full) (burst-SameBucket m key b full))
    ∙ ap (λ o. charges l.max_requests l.window_secs o (burst n key a ++ burst m key b)) found
    ∙ charges-burst_open l.max_requests l.window_secs n key a e (burst m key b) early room
    ∙ ap (λ (c : ℕ). n + c)
        (charges-burst_reset l.max_requests l.window_secs m key b (record e { count = e.count + n })
          late w p fits)
