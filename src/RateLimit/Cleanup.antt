-- ===== src/RateLimit/Cleanup.antt =====
-- rate_limit.rs: the periodic `cleanup` frees memory and changes no verdict.
use zenth_dht.Prelude.{
  ℕ, ◌≤◌, ◌<◌, ◌≡◌, refl, ◌⊎◌, inl, inr, Option, none, some, List, [], ◌∷◌, Bytes, bytes_eq, arith,
  ltb, ◌*◌, kept, Bool, true, Bool-cases, sym, ap, ◌∙◌, Map, insert, is_empty,
}
use mathlib.Core.Path.{ap₂}
use zenth_dht.RateLimit.{
  Entry, KeyRateLimiter, Call, bucket, or_insert, elapsed_secs, charge, is_allowed, cleanup, serve,
}

-- At time `t` the entry's window is over, or there is none.
abbrev IsStale : ℕ → ℕ → Option Entry → Type 0
IsStale window t none = Unit {0}
IsStale window t (some e) = window ≤ elapsed_secs t e.start

abbrev SameAt : ℕ → ℕ → Option Entry → Option Entry → Type 0
SameAt window t o o' = (o ≡ o') ⊎ (IsStale window t o × IsStale window t o')

record Agrees (t : ℕ) (l l' : KeyRateLimiter) : Type 0 where
  max : l.max_requests ≡ l'.max_requests
  window : l.window_secs ≡ l'.window_secs
  same : (k : Bytes) → SameAt l.window_secs t (l.entries k) (l'.entries k)

-- The readings of the clock do not go back, from `t` on.
abbrev pub InOrder : ℕ → List Call → Type 0
InOrder t [] = Unit {0}
InOrder t (c ∷ cs) = (t ≤ c.read) × InOrder c.read cs

kept-SameAt :
    (window r t : ℕ) (o : Option Entry)
    → r ≤ t
    → SameAt window t (kept (λ e. ltb (elapsed_secs r e.start) (window * 2)) o) o
kept-SameAt window r t none h = inl refl
kept-SameAt window r t (some e) h = elim (Bool-cases (ltb (elapsed_secs r e.start) (window * 2))) [
  | inl young ↦ inl (rw young)
  | inr old ↦ inr (rw old tt, ground arith)
]

cleanup-Agrees : (l : KeyRateLimiter) (r t : ℕ) → r ≤ t → Agrees t (cleanup l r) l
unfolding cleanup
cleanup-Agrees l r t h = record {
  max = refl;
  window = refl;
  same = λ k. kept-SameAt l.window_secs r t (l.entries k) h;
}

-- What is stale stays so.
SameAt-later :
    (window t t' : ℕ) (o o' : Option Entry) → t ≤ t' → SameAt window t o o' → SameAt window t' o o'
SameAt-later window t t' o o' h (inl e) = inl e
SameAt-later window t t' none none h (inr s) = inr (tt, tt)
SameAt-later window t t' none (some e') h (inr s) = inr (tt, omega arith)
SameAt-later window t t' (some e) none h (inr s) = inr (omega arith, tt)
SameAt-later window t t' (some e) (some e') h (inr s) = inr (omega arith, omega arith)

stale_charge :
    (max window t now read : ℕ) (o : Option Entry)
    → 0 < max
    → t ≤ read
    → IsStale window t o
    → charge max window now read (or_insert o (record { start = now; count = 0 }))
      ≡ (true, record { start = now; count = 1 })
unfolding charge
stale_charge max window t now read none m h s = ground arith
stale_charge max window t now read (some e) m h s = ground arith

-- Two entries that agree get the same verdict, and leave the same entry.
charge-SameAt :
    (max window t now read : ℕ) (o o' : Option Entry)
    → 0 < max
    → t ≤ read
    → SameAt window t o o'
    → charge max window now read (or_insert o (record { start = now; count = 0 }))
      ≡ charge max window now read (or_insert o' (record { start = now; count = 0 }))
charge-SameAt max window t now read o o' m h (inl e) = rw e
charge-SameAt max window t now read o o' m h (inr (s, s')) =
    stale_charge max window t now read o m h s ∙ sym (stale_charge max window t now read o' m h s')

insert-SameAt :
    (window t : ℕ) (k j : Bytes) (e e' : Entry) (es es' : Map Entry)
    → e ≡ e'
    → SameAt window t (es j) (es' j)
    → SameAt window t (insert k e es j) (insert k e' es' j)
insert-SameAt window t k j e e' es es' h s = elim (Bool-cases (bytes_eq k j)) [
  | inl hit ↦ rw hit (inl (ap some h))
  | inr miss ↦ rw miss s
]

module _ (t : ℕ) (l l' : KeyRateLimiter) (c : Call) (m : 0 < l.max_requests) (later : t ≤ c.read)
    (h : Agrees t l l') where
  charge-Agrees :
      charge l.max_requests l.window_secs c.now c.read
        (or_insert (l.entries (bucket c.key)) (record { start = c.now; count = 0 }))
      ≡ charge l'.max_requests l'.window_secs c.now c.read
          (or_insert (l'.entries (bucket c.key)) (record { start = c.now; count = 0 }))
  charge-Agrees =
      charge-SameAt l.max_requests l.window_secs t c.now c.read (l.entries (bucket c.key))
        (l'.entries (bucket c.key)) m later (h.same (bucket c.key))
      ∙ cc (h.max, h.window)

  verdict-Agrees : (is_allowed l c.key c.now c.read).0 ≡ (is_allowed l' c.key c.now c.read).0
  unfolding is_allowed
  verdict-Agrees = ground (arith, charge-Agrees)

  is_allowed-Agrees :
      Agrees c.read (is_allowed l c.key c.now c.read).1 (is_allowed l' c.key c.now c.read).1
  unfolding is_allowed
  is_allowed-Agrees = elim (Bool-cases (is_empty c.key)) [
    | inl none_given ↦ rw none_given (record {
      max = h.max;
      window = h.window;
      same = λ k. SameAt-later l.window_secs t c.read _ _ later (h.same k);
    })
    | inr given ↦ rw given (record {
      max = h.max;
      window = h.window;
      same = λ k.
          insert-SameAt l.window_secs c.read (bucket c.key) k _ _ l.entries l'.entries
            (ap (λ (r : Bool × Entry). r.1) charge-Agrees)
            (SameAt-later l.window_secs t c.read _ _ later (h.same k));
    })
  ]

max-is_allowed :
    (l : KeyRateLimiter) (c : Call)
    → (is_allowed l c.key c.now c.read).1.max_requests ≡ l.max_requests
unfolding is_allowed
max-is_allowed l c = ground arith

serve-Agrees :
    (t : ℕ) (l l' : KeyRateLimiter) (cs : List Call)
    → 0 < l.max_requests
    → InOrder t cs
    → Agrees t l l'
    → (serve l cs).0 ≡ (serve l' cs).0
unfolding serve
serve-Agrees t l l' [] m order h = refl
serve-Agrees t l l' (c ∷ cs) m order h = ap₂ ◌∷◌ (verdict-Agrees t l l' c m order.0 h) (
    serve-Agrees c.read (is_allowed l c.key c.now c.read).1 (is_allowed l' c.key c.now c.read).1 cs
      (rw max-is_allowed m) order.1 (is_allowed-Agrees t l l' c m order.0 h))

-- With a positive maximum, a `cleanup` at time `r` changes none of the verdicts on any later
-- requests, if the readings of the clock do not go back.
pub serve-cleanup :
    (l : KeyRateLimiter) (r t : ℕ) (cs : List Call)
    → 0 < l.max_requests
    → r ≤ t
    → InOrder t cs
    → (serve (cleanup l r) cs).0 ≡ (serve l cs).0
serve-cleanup l r t cs m h order =
    serve-Agrees t (cleanup l r) l cs (unfold cleanup in m) order (cleanup-Agrees l r t h)
