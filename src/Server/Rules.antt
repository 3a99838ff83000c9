-- ===== src/Server/Rules.antt =====
-- Rules of proof for handlers: to show `P` of what a handler returns and of the state that it
-- leaves, one rule for each kind of step.
use zenth_dht.Prelude.{
  ◌+◌, ◌≡◌, refl, Bool, true, false, none, some, Option-cases, inl, inr, if◌then◌else◌,
}
use zenth_dht.Models.{Db}
use zenth_dht.Server.{
  DbError, DbResult, ok, not_found, err, Env, World, Handler, ◌>>=◌, act, reject_if, row_or, give,
  next, return, body, statement,
}

-- The state after a statement that was counted and did not change the database.
abbrev pub counted : World → World
counted w = record w { statements = w.statements + 1 }

-- The state after a statement that put `db` in the place of the database.
abbrev pub stored : World → Db → World
stored w db = record w { db = db; statements = w.statements + 1 }

module _ {R : Type 0} (P : R × World → Type 0) where
  pub on_give : (r : R) (w : World) → P (r, w) → P (body (give r) w)
  unfolding body give
  on_give r w h = h

  pub on_reject :
      (b : Bool) (r : R) (f : Unit {0} → Handler R R) (w : World)
      → (b ≡ true → P (r, w))
      → (b ≡ false → P (body (f tt) w))
      → P (body (reject_if b r >>= f) w)
  unfolding body reject_if ◌>>=◌
  on_reject true r f w early rest = early refl
  on_reject false r f w early rest = rest refl

  pub on_act :
      {A : Type 0} (g : World → A × World) (f : A → Handler R R) (w : World)
      → P (body (f (g w).0) (g w).1)
      → P (body (act g >>= f) w)
  unfolding body act ◌>>=◌
  on_act g f w h = h

  pub on_row :
      {A : Type 0} (q : DbResult A) (r : R) (g : DbError → R) (f : A → Handler R R) (w : World)
      → (q ≡ not_found → P (r, w))
      → ((e : DbError) → q ≡ err e → P (g e, w))
      → ((a : A) → q ≡ ok a → P (body (f a) w))
      → P (body (row_or q r g >>= f) w)
  unfolding body row_or ◌>>=◌
  on_row (ok a) r g f w missing broken found = found a refl
  on_row not_found r g f w missing broken found = missing refl
  on_row (err e) r g f w missing broken found = broken e refl

  pub on_if :
      (b : Bool) (m n : Handler R R) (w : World)
      → (b ≡ true → P (body m w))
      → (b ≡ false → P (body n w))
      → P (body (if b then m else n) w)
  on_if true m n w yes_case no_case = yes_case refl
  on_if false m n w yes_case no_case = no_case refl

module _ {R : Type 0} (P : R × World → Type 0) (env : Env) where
  -- A statement is refused, or is run.
  pub on_sql :
      {A : Type 0} (q : Db → DbResult A × Db) (f : DbResult A → Handler R R) (w : World)
      → ((e : DbError) → env.fault w.statements ≡ some e → P (body (f (err e)) (counted w)))
      → (env.fault w.statements ≡ none → P (body (f (q w.db).0) (stored w (q w.db).1)))
      → P (body (act (statement env q) >>= f) w)
  unfolding statement
  on_sql q f w refused run =
      on_act P (statement env q) f w (elim (Option-cases (env.fault w.statements)) [
        | inl sound ↦ rw (sound, statement) (run sound)
        | inr (e, broken) ↦ rw (broken, statement) (refused e broken)
      ])

-- The same for a step whose result is known.
module _ {R A : Type 0} (P : R × World → Type 0) (m : Handler R A) (f : A → Handler R R)
    (w w' : World) where
  pub on_next : (a : A) → m w ≡ (next a, w') → P (body (f a) w') → P (body (m >>= f) w)
  unfolding body ◌>>=◌
  on_next a known h = rw (known, ◌>>=◌) h

  pub on_return : (r : R) → m w ≡ (return r, w') → P (r, w') → P (body (m >>= f) w)
  unfolding body ◌>>=◌
  on_return r known h = rw (known, ◌>>=◌) h
