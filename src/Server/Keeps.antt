-- ===== src/Server/Keeps.antt =====
-- What every step of a handler keeps of the database: one rule for each way to build a handler.
use mathlib.Core.Path.{subst}
use zenth_dht.Prelude.{◌≡◌, sym, Bool, true, false, Option-cases, inl, inr, if◌then◌else◌}
use zenth_dht.Models.{Db}
use zenth_dht.Server.{
  DbError, DbResult, ok, not_found, err, Env, World, Handler, ◌>>=◌, act, reject_if, row_or, give,
  next, return, Flow, after, body, statement,
}

-- Whatever the state, `m` keeps `I` of the database.
pub record Keeps (I : Db → Type 0) {A : Type 0} (m : World → A × World) : Type 0 where
  pub at : (w : World) → I w.db → I (m w).1.db

module _ {I : Db → Type 0} {R : Type 0} where
  pub Keeps-give : (r : R) → Keeps I (give r)
  unfolding give
  Keeps-give r = record { at = λ w h. h }

  pub Keeps-reject_if : (b : Bool) (r : R) → Keeps I (reject_if b r)
  unfolding reject_if
  Keeps-reject_if true r = record { at = λ w h. h }
  Keeps-reject_if false r = record { at = λ w h. h }

  pub Keeps-body : (m : Handler R R) → Keeps I m → Keeps I (body m)
  unfolding body
  Keeps-body m k = record { at = k.at }

module _ {I : Db → Type 0} {R A : Type 0} where
  pub Keeps-row_or : (q : DbResult A) (r : R) (f : DbError → R) → Keeps I (row_or q r f)
  unfolding row_or
  Keeps-row_or (ok a) r f = record { at = λ w h. h }
  Keeps-row_or not_found r f = record { at = λ w h. h }
  Keeps-row_or (err e) r f = record { at = λ w h. h }

  pub Keeps-act : (g : World → A × World) → Keeps I g → Keeps I (act {R = R} g)
  unfolding act
  Keeps-act g k = record { at = k.at }

  pub Keeps-if :
      (b : Bool) (m n : Handler R A) → Keeps I m → Keeps I n → Keeps I (if b then m else n)
  Keeps-if true m n km kn = km
  Keeps-if false m n km kn = kn

module _ {I : Db → Type 0} {A : Type 0} where
  -- A call that does not touch the database.
  pub Keeps-untouched : (g : World → A × World) → ((w : World) → (g w).1.db ≡ w.db) → Keeps I g
  Keeps-untouched g same = record { at = λ w h. subst I (sym (same w)) h }

  pub Keeps-statement :
      (env : Env) (q : Db → DbResult A × Db)
      → ((db : Db) → I db → I (q db).1)
      → Keeps I (statement env q)
  unfolding statement
  Keeps-statement env q keep = record {
    at = λ w h. elim (Option-cases (env.fault w.statements)) [
      | inl sound ↦ rw (sound, statement) (keep w.db h)
      | inr (e, broken) ↦ rw (broken, statement) h
    ];
  }

module _ {I : Db → Type 0} {R A B : Type 0} where
  after_keeps :
      (s : Flow R A × World) (f : A → Handler R B)
      → ((a : A) → Keeps I (f a))
      → I s.1.db
      → I (after s.0 f s.1).1.db
  after_keeps (next a, w) f kf h = (kf a).at w h
  after_keeps (return r, w) f kf h = h

  pub Keeps-bind :
      (m : Handler R A) (f : A → Handler R B)
      → Keeps I m
      → ((a : A) → Keeps I (f a))
      → Keeps I (m >>= f)
  unfolding ◌>>=◌
  Keeps-bind m f km kf = record { at = λ w h. after_keeps (m w) f kf (km.at w h) }

pub ruleset keeps_rules = (
  Keeps-give, Keeps-reject_if, Keeps-body, Keeps-row_or, Keeps-act, Keeps-if, Keeps-statement,
  Keeps-bind,
)
