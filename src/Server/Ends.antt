-- ===== src/Server/Ends.antt =====
-- What holds of everything that a handler may return: one rule for each way to build a handler.
use mathlib.Core.Path.{subst}
use zenth_dht.Prelude.{◌≡◌, refl, Bool, true, false, if◌then◌else◌}
use zenth_dht.Server.{
  DbError, DbResult, ok, not_found, err, World, Handler, ◌>>=◌, act, reject_if, row_or, give, next,
  return, Flow, after, settle, body,
}

-- What an early return may be, whatever the state.
pub record Returns {R A : Type 0} (Q : R → Type 0) (m : Handler R A) : Type 0 where
  pub at : (w : World) (r : R) → (m w).0 ≡ return r → Q r

-- What the handler may return in the end.
pub record Ends {R : Type 0} (Q : R → Type 0) (m : Handler R R) : Type 0 where
  pub at : (w : World) → Q (settle (m w).0)

-- What a handler's answer is, whatever the state.
pub record Answers {R : Type 0} (Q : R → Type 0) (m : World → R × World) : Type 0 where
  pub at : (w : World) → Q (m w).0

return_injective : {R A : Type 0} (r s : R) → ◌≡◌ {A = Flow R A} (return r) (return s) → r ≡ s
return_injective r s h = cc

module _ {R : Type 0} {Q : R → Type 0} where
  pub Returns-reject_if : (b : Bool) (r : R) → Q r → Returns Q (reject_if b r)
  unfolding reject_if
  Returns-reject_if true r q = record {
    at = λ w s h. subst Q (return_injective {A = Unit {0}} r s h) q;
  }
  Returns-reject_if false r q = record { at = λ w s h. cc }

  pub Ends-give : (r : R) → Q r → Ends Q (give r)
  unfolding give
  Ends-give r q = record { at = λ w. q }

  pub Ends-if : (b : Bool) (m n : Handler R R) → Ends Q m → Ends Q n → Ends Q (if b then m else n)
  Ends-if true m n em en = em
  Ends-if false m n em en = en

  pub Answers-body : (m : Handler R R) → Ends Q m → Answers Q (body m)
  unfolding body
  Answers-body m e = record { at = e.at }

module _ {R A : Type 0} {Q : R → Type 0} where
  pub Returns-row_or :
      (q : DbResult A) (r : R) (f : DbError → R)
      → Q r
      → ((e : DbError) → Q (f e))
      → Returns Q (row_or q r f)
  unfolding row_or
  Returns-row_or (ok a) r f missing broken = record { at = λ w s h. cc }
  Returns-row_or not_found r f missing broken = record {
    at = λ w s h. subst Q (return_injective {A = A} r s h) missing;
  }
  Returns-row_or (err e) r f missing broken = record {
    at = λ w s h. subst Q (return_injective {A = A} (f e) s h) (broken e);
  }

  pub Returns-act : (g : World → A × World) → Returns Q (act g)
  unfolding act
  Returns-act g = record { at = λ w s h. cc }

  ends_after :
      (s : Flow R A × World) (f : A → Handler R R)
      → ((r : R) → s.0 ≡ return r → Q r)
      → ((a : A) → Ends Q (f a))
      → Q (settle (after s.0 f s.1).0)
  ends_after (next a, w) f early rest = (rest a).at w
  ends_after (return r, w) f early rest = early r refl

  pub Ends-bind :
      (m : Handler R A) (f : A → Handler R R)
      → Returns Q m
      → ((a : A) → Ends Q (f a))
      → Ends Q (m >>= f)
  unfolding ◌>>=◌
  Ends-bind m f early rest = record { at = λ w. ends_after (m w) f (early.at w) rest }

pub ruleset ends_rules =
    (Returns-reject_if, Returns-row_or, Returns-act, Ends-give, Ends-if, Ends-bind, Answers-body)
