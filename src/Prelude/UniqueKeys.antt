-- ===== src/Prelude/UniqueKeys.antt =====
-- Lists without two elements that are the same under a Boolean test: a unique key of a table.
use mathlib.Core.Path.{◌≡◌, refl, ◌∙◌}
use mathlib.Core.Bool.{Bool, true, false, ◌||◌}
use mathlib.Core.List.{List, [], ◌∷◌, ◌++◌}
use native.Mathlib.Omega.{arith}
use mathlib.Core.Logic.{inl, inr}
use zenth_dht.Prelude.Tests.{ltb, Bool-cases}
use zenth_dht.Prelude.Lists.{length, any, retain, update_where}

module _ {A : Type 0} where
  pub any-append : (p : A → Bool) (xs ys : List A) → any p (xs ++ ys) ≡ any p xs || any p ys
  any-append p [] ys = refl
  any-append p (x ∷ xs) ys = ground (arith, any-append p xs ys)

  pub any-retain : (p q : A → Bool) (xs : List A) → any p xs ≡ false → any p (retain q xs) ≡ false
  any-retain p q [] h = refl
  any-retain p q (x ∷ xs) h = ground (arith, any-retain p q xs)

  pub any_ext : (p q : A → Bool) (xs : List A) → ((x : A) → p x ≡ q x) → any p xs ≡ any q xs
  any_ext p q [] h = refl
  any_ext p q (x ∷ xs) h = ground (arith, h x, any_ext p q xs h)

  -- An update that keeps what the test reads.
  pub any-update_where :
      (p q : A → Bool) (f : A → A) (xs : List A)
      → ((x : A) → p (f x) ≡ p x)
      → any p (update_where q f xs) ≡ any p xs
  any-update_where p q f [] h = refl
  any-update_where p q f (x ∷ xs) h = ground (arith, h x, any-update_where p q f xs h)

module _ {A : Type 0} where
  -- A positive count of the rows that pass a test.
  pub any-counted :
      (p : A → Bool) (xs : List A) → ltb 0 (length (retain p xs)) ≡ true → any p xs ≡ true
  any-counted p [] h = cc
  any-counted p (x ∷ xs) h = ground (arith, any-counted p xs)

  -- A count of no rows that pass a test.
  pub uncounted :
      (p : A → Bool) (xs : List A) → ltb 0 (length (retain p xs)) ≡ false → any p xs ≡ false
  uncounted p [] h = refl
  uncounted p (x ∷ xs) h = ground (arith, uncounted p xs)

module _ {A : Type 0} (same : A → A → Bool) where
  abbrev pub Distinct : List A → Type 0
  Distinct [] = Unit
  Distinct (x ∷ xs) = (any (same x) xs ≡ false) × Distinct xs

  pub Distinct-retain : (q : A → Bool) (xs : List A) → Distinct xs → Distinct (retain q xs)
  Distinct-retain q [] h = tt
  Distinct-retain q (x ∷ xs) h = ground (arith, any-retain (same x) q xs, Distinct-retain q xs h.1)

  module _ (symmetric : (x y : A) → same x y ≡ same y x) where
    pub Distinct-append :
        (xs : List A) (y : A) → any (same y) xs ≡ false → Distinct xs → Distinct (xs ++ y ∷ [])
    Distinct-append [] y free h = (refl, tt)
    Distinct-append (x ∷ xs) y free h = (
      any-append (same x) xs (y ∷ []) ∙ ground (arith, symmetric x y, h.0),
      Distinct-append xs y (ground arith) h.1,
    )

  -- An update that keeps the key.
  pub Distinct-update_where :
      (q : A → Bool) (f : A → A) (xs : List A)
      → ((x y : A) → same x (f y) ≡ same x y)
      → ((x y : A) → same (f x) y ≡ same x y)
      → Distinct xs
      → Distinct (update_where q f xs)
  Distinct-update_where q f [] left right h = tt
  Distinct-update_where q f (x ∷ xs) left right h =
      let fresh : any (same x) (update_where q f xs) ≡ false =
        any-update_where (same x) q f xs (left x) ∙ h.0 in
      elim (Bool-cases (q x)) [
        | inl hit ↦ rw hit (
          any_ext (same (f x)) (same x) (update_where q f xs) (right x) ∙ fresh,
          Distinct-update_where q f xs left right h.1,
        )
        | inr miss ↦ rw miss (fresh, Distinct-update_where q f xs left right h.1)
      ]
