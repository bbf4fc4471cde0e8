-- ===== src/Base/Counts.antt =====
-- Queries and assignments together: what they find and how many rows pass a test afterwards.
use Prim.Native.Nat.{◌+◌, ◌≤◌}
use mathlib.Core.Path.{◌≡◌, refl, ap}
use mathlib.Core.Logic.{inl, inr}
use mathlib.Core.Bool.{Bool, true, false, ◌||◌}
use mathlib.Core.Option.{Option, none, some}
use mathlib.Core.List.{List, [], ◌∷◌, ◌++◌}
use mathlib.Core.List.{Mem, mem-cons_self, mem-cons_of_mem}
use native.Mathlib.Omega.{arith}
use meal_key_ecosystem.Base.Tests.{if◌then◌else◌, Bool-cases}
use meal_key_ecosystem.Base.Lists.{length, keep, first, last_such, any_of, update, Holds, All}

module _ {ℓ} {A : Type ℓ} where
  pub append-nil : (xs : List A) → xs ++ [] ≡ xs
  append-nil [] = refl
  append-nil (x ∷ xs) = ap (λ ys. x ∷ ys) (append-nil xs)

  pub any_of-append :
      (p : A → Bool) (xs ys : List A) → any_of p (xs ++ ys) ≡ any_of p xs || any_of p ys
  unfolding any_of
  any_of-append p [] ys = refl
  any_of-append p (x ∷ xs) ys = ground (arith, any_of-append p xs ys)

  pub last_such-append :
      (p : A → Bool) (xs : List A) (y : A) → p y ≡ true → last_such p (xs ++ y ∷ []) ≡ some y
  unfolding last_such
  last_such-append p [] y h = rw h refl
  last_such-append p (x ∷ xs) y h = rw (last_such-append p xs y h) refl

  pub first-append :
      (p : A → Bool) (xs : List A) (y : A)
      → first p xs ≡ none
      → p y ≡ true
      → first p (xs ++ y ∷ []) ≡ some y
  unfolding first
  first-append p [] y e h = rw h refl
  first-append p (x ∷ xs) y e h = ground (arith, e, h, first-append p xs y)

  -- rows that pass a test do not become more where an assignment makes none pass
  pub keep-update_le :
      (p q : A → Bool) (f : A → A) (xs : List A)
      → ((x : A) → p x ≡ false → p (f x) ≡ false)
      → length (keep p (update q f xs)) ≤ length (keep p xs)
  unfolding keep update
  keep-update_le p q f [] h = omega arith
  keep-update_le p q f (x ∷ xs) h = ground (arith, keep-update_le p q f xs h, h x)

  -- an assignment that the test does not see
  pub keep-update_same :
      (p q : A → Bool) (f : A → A) (xs : List A)
      → ((x : A) → p (f x) ≡ p x)
      → length (keep p (update q f xs)) ≡ length (keep p xs)
  unfolding keep update
  keep-update_same p q f [] h = refl
  keep-update_same p q f (x ∷ xs) h = ground (arith, keep-update_same p q f xs h, h x)

  -- an assignment to rows that the test leaves out
  pub keep-update_other :
      (p q : A → Bool) (f : A → A) (xs : List A)
      → ((x : A) → q x ≡ true → (p x ≡ false) × (p (f x) ≡ false))
      → keep p (update q f xs) ≡ keep p xs
  unfolding keep update
  keep-update_other p q f [] h = refl
  keep-update_other p q f (x ∷ xs) h = elim (Bool-cases (q x)) [
    | inl e ↦ rw (e, (h x e).0, (h x e).1) (keep-update_other p q f xs h)
    | inr e ↦ rw (e, keep-update_other p q f xs h) refl
  ]

  pub length-update : (p : A → Bool) (f : A → A) (xs : List A) → length (update p f xs) ≡ length xs
  unfolding update
  length-update p f [] = refl
  length-update p f (x ∷ xs) = omega (arith, length-update p f xs)

  pub keep-append_none :
      (p : A → Bool) (xs : List A) (y : A) → p y ≡ false → keep p (xs ++ y ∷ []) ≡ keep p xs
  unfolding keep
  keep-append_none p [] y h = rw h refl
  keep-append_none p (x ∷ xs) y h = rw (keep-append_none p xs y h) refl

  pub length-keep_le : (p : A → Bool) (xs : List A) → length (keep p xs) ≤ length xs
  unfolding keep
  length-keep_le p [] = omega arith
  length-keep_le p (x ∷ xs) = ground (arith, length-keep_le p xs)

  pub All-front {κ} : (P : A → Type κ) (xs ys : List A) → All P (xs ++ ys) → All P xs
  All-front P [] ys h = tt
  All-front P (x ∷ xs) ys h = (h.0, All-front P xs ys h.1)

  pub All-back {κ} : (P : A → Type κ) (xs ys : List A) → All P (xs ++ ys) → All P ys
  All-back P [] ys h = h
  All-back P (x ∷ xs) ys h = All-back P xs ys h.1

  pub length-keep_append :
      (p : A → Bool) (xs ys : List A)
      → length (keep p (xs ++ ys)) ≡ length (keep p xs) + length (keep p ys)
  unfolding keep
  length-keep_append p [] ys = omega arith
  length-keep_append p (x ∷ xs) ys = ground (arith, length-keep_append p xs ys)

  -- the same about an option
  pub first-Holds : (p : A → Bool) (xs : List A) → Holds (λ x. p x ≡ true) (first p xs)
  unfolding first
  first-Holds p [] = tt
  first-Holds p (x ∷ xs) = elim (Bool-cases (p x)) [
    | inl e ↦ rw e e
    | inr e ↦ rw e (first-Holds p xs)
  ]

  pub Holds-map {κ μ} :
      (P : A → Type κ) (Q : A → Type μ) (o : Option A)
      → ((x : A) → P x → Q x)
      → Holds P o
      → Holds Q o
  Holds-map P Q none f h = tt
  Holds-map P Q (some x) f h = f x h

  -- what a query returns is a row
  pub first-Mem : (p : A → Bool) (xs : List A) → Holds (λ x. Mem x xs) (first p xs)
  unfolding first
  first-Mem p [] = tt
  first-Mem p (x ∷ xs) = elim (Bool-cases (p x)) [
    | inl e ↦ rw e mem-cons_self
    | inr e ↦ rw e (
        Holds-map (λ y. Mem y xs) (λ y. Mem y (x ∷ xs)) (first p xs) (λ y m. mem-cons_of_mem x m)
          (first-Mem p xs))
  ]

  last_passes :
      (p : A → Bool) (x : A) (o : Option A)
      → Holds (λ y. p y ≡ true) o
      → Holds (λ y. p y ≡ true) (elim o [ some y ↦ some y | none ↦ if p x then some x else none ])
  last_passes p x (some y) h = h
  last_passes p x none h = elim (Bool-cases (p x)) [ inl e ↦ rw e e | inr e ↦ rw e tt ]

  pub last_such_passes : (p : A → Bool) (xs : List A) → Holds (λ x. p x ≡ true) (last_such p xs)
  unfolding last_such
  last_such_passes p [] = tt
  last_such_passes p (x ∷ xs) = last_passes p x (last_such p xs) (last_such_passes p xs)
