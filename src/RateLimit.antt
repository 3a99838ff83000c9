-- ===== src/RateLimit.antt =====
-- rate_limit.rs: the limiter of requests per sender key, and the four global limiters.
-- `Instant` is a number of nanoseconds, and each reading of the clock is an argument: `now` is
-- `Instant::now()`, and `read` is the reading that `elapsed()` makes later in the same call.
pub mod Quota
pub mod Isolation
pub mod Cleanup
mod Tests
use Prim.Native.Nat.{min}
use zenth_dht.Prelude.{
  ℕ, ◌+◌, ◌-◌, ◌*◌, ◌/◌, Bool, true, false, Option, none, some, List, [], ◌∷◌, ◌++◌, Bytes, Map,
  no_entries, insert, retain_values, length, is_empty, take, replicate, ltb, leb, if◌then◌else◌,
}

abbrev pub relay_push_max : ℕ
relay_push_max = 60

abbrev pub relay_push_window : ℕ
relay_push_window = 60

abbrev pub blob_push_max : ℕ
blob_push_max = 20

abbrev pub blob_push_window : ℕ
blob_push_window = 60

abbrev pub mid_msg_max : ℕ
mid_msg_max = 1

abbrev pub mid_msg_window : ℕ
mid_msg_window = 10

abbrev pub large_msg_max : ℕ
large_msg_max = 1

abbrev pub large_msg_window : ℕ
large_msg_window = 30

-- The value `(Instant, u32)` of the map.
pub record Entry : Type 0 where
  pub start : ℕ
  pub count : ℕ

pub record KeyRateLimiter : Type 0 where
  pub entries : Map Entry
  pub max_requests : ℕ
  pub window_secs : ℕ

unfoldable pub new : ℕ → ℕ → KeyRateLimiter
new max window = record { entries = no_entries; max_requests = max; window_secs = window }

-- `instant.elapsed().as_secs()`, read at `read`
abbrev pub elapsed_secs : ℕ → ℕ → ℕ
elapsed_secs read instant = (read - instant) / 1_000_000_000

-- The 32 bytes under which a key is stored: cut, or filled up with zeros.
unfoldable pub bucket : Bytes → Bytes
bucket key = let len = min (length key) 32 in take len key ++ replicate (32 - len) 0

-- `map.entry(k).or_insert(v)`
abbrev pub or_insert : Option Entry → Entry → Entry
or_insert none v = v
or_insert (some e) v = e

-- The decision on the entry of one key.
unfoldable pub charge : ℕ → ℕ → ℕ → ℕ → Entry → Bool × Entry
charge max window now read e =
    if leb window (elapsed_secs read e.start)
    then (true, record { start = now; count = 1 })
    else if ltb e.count max
    then (true, record e { count = e.count + 1 })
    else (false, e)

unfoldable pub is_allowed : KeyRateLimiter → Bytes → ℕ → ℕ → Bool × KeyRateLimiter
is_allowed l key now read =
    if is_empty key
    then (false, l)
    else (let k = bucket key in
        let e = or_insert (l.entries k) (record { start = now; count = 0 }) in
        let (allowed, e') = charge l.max_requests l.window_secs now read e in
        (allowed, record l { entries = insert k e' l.entries }))

unfoldable pub cleanup : KeyRateLimiter → ℕ → KeyRateLimiter
cleanup l read =
    let threshold = l.window_secs * 2 in
    record l { entries = retain_values (λ e. ltb (elapsed_secs read e.start) threshold) l.entries }

-- The four `OnceLock` statics: `none` is a lock that nobody has set.
pub record Limiters : Type 0 where
  pub relay_push : Option KeyRateLimiter
  pub blob_push : Option KeyRateLimiter
  pub mid_msg : Option KeyRateLimiter
  pub large_msg : Option KeyRateLimiter

-- `lock.set(l).ok()`: the first value stays.
abbrev set_once : Option KeyRateLimiter → KeyRateLimiter → Option KeyRateLimiter
set_once none l = some l
set_once (some old) l = some old

unfoldable pub init_limiters : Limiters → Limiters
unfolding new
init_limiters s = record {
  relay_push = set_once s.relay_push (new relay_push_max relay_push_window);
  blob_push = set_once s.blob_push (new blob_push_max blob_push_window);
  mid_msg = set_once s.mid_msg (new mid_msg_max mid_msg_window);
  large_msg = set_once s.large_msg (new large_msg_max large_msg_window);
}

-- `lock.get().map(|l| l.is_allowed(key)).unwrap_or(true)`, with the limiter as it is left
unfoldable pub allowed_by : Option KeyRateLimiter → Bytes → ℕ → ℕ → Bool × Option KeyRateLimiter
allowed_by none key now read = (true, none)
allowed_by (some l) key now read = let (ok, l') = is_allowed l key now read in (ok, some l')

unfoldable pub relay_push_allowed : Limiters → Bytes → ℕ → ℕ → Bool × Limiters
relay_push_allowed s key now read =
    let (ok, l) = allowed_by s.relay_push key now read in (ok, record s { relay_push = l })

unfoldable pub blob_push_allowed : Limiters → Bytes → ℕ → ℕ → Bool × Limiters
blob_push_allowed s key now read =
    let (ok, l) = allowed_by s.blob_push key now read in (ok, record s { blob_push = l })

unfoldable pub mid_msg_allowed : Limiters → Bytes → ℕ → ℕ → Bool × Limiters
mid_msg_allowed s key now read =
    let (ok, l) = allowed_by s.mid_msg key now read in (ok, record s { mid_msg = l })

unfoldable pub large_msg_allowed : Limiters → Bytes → ℕ → ℕ → Bool × Limiters
large_msg_allowed s key now read =
    let (ok, l) = allowed_by s.large_msg key now read in (ok, record s { large_msg = l })

-- `if let Some(l) = lock.get() { l.cleanup() }`
abbrev pub cleaned : Option KeyRateLimiter → ℕ → Option KeyRateLimiter
cleaned none read = none
cleaned (some l) read = some (cleanup l read)

unfoldable pub cleanup_all : Limiters → ℕ → Limiters
cleanup_all s read = record {
  relay_push = cleaned s.relay_push read;
  blob_push = cleaned s.blob_push read;
  mid_msg = cleaned s.mid_msg read;
  large_msg = cleaned s.large_msg read;
}

-- A call of `is_allowed`, and the verdicts on a sequence of calls with the limiter that they leave.
pub record Call : Type 0 where
  pub key : Bytes
  pub now : ℕ
  pub read : ℕ

unfoldable pub serve : KeyRateLimiter → List Call → List Bool × KeyRateLimiter
serve l [] = ([], l)
serve l (c ∷ cs) =
    let (ok, l') = is_allowed l c.key c.now c.read in
    let (verdicts, l'') = serve l' cs in (ok ∷ verdicts, l'')
