-- ===== src/Prelude/Sorting.antt =====
-- `ORDER BY` on a number, and lists that stand in that order.
use Prim.Native.Nat.{ℕ, suc, ◌≤◌, ◌<◌}
use mathlib.Core.Path.{◌≡◌, refl}
use mathlib.Core.Bool.{Bool, ◌||◌}
use mathlib.Core.List.{List, [], ◌∷◌, ◌++◌}
use native.Mathlib.Omega.{arith}
use mathlib.Core.Logic.{inl, inr}
use zenth_dht.Prelude.Tests.{leb, if◌then◌else◌, Bool-cases}
use zenth_dht.Prelude.Lists.{length, any, retain, update_where, All}

module _ {ℓ} {A : Type ℓ} (key : A → ℕ) where
  abbrev pub insert_by : A → List A → List A
  insert_by a [] = a ∷ []
  insert_by a (x ∷ xs) = if leb (key a) (key x) then a ∷ x ∷ xs else x ∷ insert_by a xs

  -- Rows with equal keys stay in their order.
  unfoldable pub order_by : List A → List A
  order_by [] = []
  order_by (x ∷ xs) = insert_by x (order_by xs)

  -- The keys rise along the list, and all are at least `n`.
  abbrev pub Ascends : ℕ → List A → Type 0
  Ascends n [] = Unit {0}
  Ascends n (x ∷ xs) = (n ≤ key x) × Ascends (suc (key x)) xs

  pub Ascends-weaken : (m n : ℕ) (xs : List A) → m ≤ n → Ascends n xs → Ascends m xs
  Ascends-weaken m n [] h a = tt
  Ascends-weaken m n (x ∷ xs) h a = (omega arith, a.1)

  pub Ascends-retain : (p : A → Bool) (n : ℕ) (xs : List A) → Ascends n xs → Ascends n (retain p xs)
  Ascends-retain p n [] a = tt
  Ascends-retain p n (x ∷ xs) a =
      ground
        (arith, Ascends-retain p (suc (key x)) xs a.1, Ascends-weaken n (suc (key x)) (retain p xs))

  -- An update that keeps the key.
  pub Ascends-update_where :
      (p : A → Bool) (f : A → A) (n : ℕ) (xs : List A)
      → ((x : A) → key (f x) ≡ key x)
      → Ascends n xs
      → Ascends n (update_where p f xs)
  Ascends-update_where p f n [] same a = tt
  Ascends-update_where p f n (x ∷ xs) same a =
      let rest = Ascends-update_where p f (suc (key x)) xs same a.1 in
      elim (Bool-cases (p x)) [
        | inl hit ↦ rw (hit, same x) (a.0, rest)
        | inr miss ↦ rw miss (a.0, rest)
      ]

  -- A row with a key that is above all others may stand at the end.
  pub Ascends-append :
      (n : ℕ) (xs : List A) (a : A)
      → n ≤ key a
      → All (λ x. key x < key a) xs
      → Ascends n xs
      → Ascends n (xs ++ a ∷ [])
  Ascends-append n [] a le below h = (le, tt)
  Ascends-append n (x ∷ xs) a le below h =
      (h.0, Ascends-append (suc (key x)) xs a below.0 below.1 h.1)

  insert_by_front : (a : A) (xs : List A) → Ascends (suc (key a)) xs → insert_by a xs ≡ a ∷ xs
  insert_by_front a [] h = refl
  insert_by_front a (x ∷ xs) h = ground arith

  pub order_by_sorted : (n : ℕ) (xs : List A) → Ascends n xs → order_by xs ≡ xs
  unfolding order_by
  order_by_sorted n [] h = refl
  order_by_sorted n (x ∷ xs) h =
      ground (arith, order_by_sorted (suc (key x)) xs h.1, insert_by_front x xs)

  All-insert_by {κ} :
      (P : A → Type κ) (a : A) (xs : List A) → P a → All P xs → All P (insert_by a xs)
  All-insert_by P a [] p h = (p, tt)
  All-insert_by P a (x ∷ xs) p h = elim (Bool-cases (leb (key a) (key x))) [
    | inl first ↦ rw first (p, h)
    | inr later ↦ rw later (h.0, All-insert_by P a xs p h.1)
  ]

  pub All-order_by {κ} : (P : A → Type κ) (xs : List A) → All P xs → All P (order_by xs)
  unfolding order_by
  All-order_by P [] h = tt
  All-order_by P (x ∷ xs) h = All-insert_by P x (order_by xs) h.0 (All-order_by P xs h.1)

  length-insert_by : (a : A) (xs : List A) → length (insert_by a xs) ≡ suc (length xs)
  length-insert_by a [] = refl
  length-insert_by a (x ∷ xs) = ground (arith, length-insert_by a xs)

  -- Sorting keeps the number of rows ...
  pub length-order_by : (xs : List A) → length (order_by xs) ≡ length xs
  unfolding order_by
  length-order_by [] = refl
  length-order_by (x ∷ xs) = omega (arith, length-insert_by x (order_by xs), length-order_by xs)

  any-insert_by : (p : A → Bool) (a : A) (xs : List A) → any p (insert_by a xs) ≡ p a || any p xs
  any-insert_by p a [] = refl
  any-insert_by p a (x ∷ xs) = ground (arith, any-insert_by p a xs)

  -- ... and which rows there are.
  pub any-order_by : (p : A → Bool) (xs : List A) → any p (order_by xs) ≡ any p xs
  unfolding order_by
  any-order_by p [] = refl
  any-order_by p (x ∷ xs) = ground (arith, any-insert_by p x (order_by xs), any-order_by p xs)
