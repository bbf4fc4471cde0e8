-- ===== src/Base/Lists.antt =====
-- Lists measured by native numbers, and the loops that the services share.
use Prim.Native.Nat.{ℕ, zero, suc, ◌+◌, ◌*◌, ◌≤◌}
use Prim.Native.String.{String}
use mathlib.Core.Path.{◌≡◌, refl, sym, subst}
use text.Mathlib.TextEquality.{eq_iff}
use mathlib.Core.Logic.{inl, inr, ◌≢◌}
use mathlib.Core.Bool.{Bool, true, false, ◌||◌}
use mathlib.Core.Option.{Option, none, some}
use mathlib.Core.List.{List, [], ◌∷◌, ◌++◌}
use native.Mathlib.Omega.{arith}
use Prim.Native.String.{compare}
use text.Mathlib.Text.{◌==◌, is_lt}
use meal_key_ecosystem.Base.Tests.{eq_nat, if◌then◌else◌, Bool-cases}

module _ {ℓ} {A : Type ℓ} where
  abbrev pub length : List A → ℕ
  length [] = 0
  length (x ∷ xs) = suc (length xs)

  abbrev pub take : ℕ → List A → List A
  take zero xs = []
  take (suc n) [] = []
  take (suc n) (x ∷ xs) = x ∷ take n xs

  -- `[x for x in xs if p(x)]`
  unfoldable pub keep : (A → Bool) → List A → List A
  keep p [] = []
  keep p (x ∷ xs) = let rest = keep p xs in if p x then x ∷ rest else rest

  -- the first row that a query returns
  unfoldable pub first : (A → Bool) → List A → Option A
  first p [] = none
  first p (x ∷ xs) = if p x then some x else first p xs

  -- the last row that passes: a query by descending creation time, over rows in order of creation
  unfoldable pub last_such : (A → Bool) → List A → Option A
  last_such p [] = none
  last_such p (x ∷ xs) =
      let rest = last_such p xs in
      elim rest [ some y ↦ some y | none ↦ if p x then some x else none ]

  -- `any(p(x) for x in xs)`
  unfoldable pub any_of : (A → Bool) → List A → Bool
  any_of p [] = false
  any_of p (x ∷ xs) = p x || any_of p xs

  -- assigns to the rows that a test picks
  unfoldable pub update : (A → Bool) → (A → A) → List A → List A
  update p f [] = []
  update p f (x ∷ xs) = (if p x then f x else x) ∷ update p f xs

  pub length-append : (xs ys : List A) → length (xs ++ ys) ≡ length xs + length ys
  length-append [] ys = omega arith
  length-append (x ∷ xs) ys = omega (arith, length-append xs ys)

  abbrev pub All {κ} : (A → Type κ) → List A → Type κ
  All P [] = Unit
  All P (x ∷ xs) = P x × All P xs

  pub All-append {κ} : (P : A → Type κ) (xs ys : List A) → All P xs → All P ys → All P (xs ++ ys)
  All-append P [] ys hx hy = hy
  All-append P (x ∷ xs) ys hx hy = (hx.0, All-append P xs ys hx.1 hy)

  pub All-take {κ} : (P : A → Type κ) (n : ℕ) (xs : List A) → All P xs → All P (take n xs)
  All-take P zero xs h = tt
  All-take P (suc n) [] h = tt
  All-take P (suc n) (x ∷ xs) h = (h.0, All-take P n xs h.1)

  pub length-take_le : (n : ℕ) (xs : List A) → length (take n xs) ≤ n
  length-take_le zero xs = omega arith
  length-take_le (suc n) [] = omega arith
  length-take_le (suc n) (x ∷ xs) = omega (arith, length-take_le n xs)

  -- `keep` has what its test says
  pub keep-All {κ} :
      (P : A → Type κ) (p : A → Bool) (xs : List A)
      → ((x : A) → p x ≡ true → P x)
      → All P (keep p xs)
  unfolding keep
  keep-All P p [] h = tt
  keep-All P p (x ∷ xs) h = elim (Bool-cases (p x)) [
    | inl e ↦ rw e (h x e, keep-All P p xs h)
    | inr e ↦ rw e (keep-All P p xs h)
  ]

  pub All-map {κ μ} :
      {P : A → Type κ} (Q : A → Type μ) (xs : List A) → ((x : A) → P x → Q x) → All P xs → All Q xs
  All-map Q [] f h = tt
  All-map Q (x ∷ xs) f h = (f x h.0, All-map Q xs f h.1)

  abbrev pub Holds {κ} : (A → Type κ) → Option A → Type κ
  Holds P none = Unit
  Holds P (some x) = P x

  -- what all rows have, the row that a query returns has
  pub All-first {κ} :
      (P : A → Type κ) (p : A → Bool) (xs : List A) → All P xs → Holds P (first p xs)
  unfolding first
  All-first P p [] h = tt
  All-first P p (y ∷ ys) h = elim (Bool-cases (p y)) [
    | inl t ↦ rw t h.0
    | inr t ↦ rw t (All-first P p ys h.1)
  ]

  last_such_next {κ} :
      (P : A → Type κ) (o : Option A) (b : Bool) (x : A)
      → Holds P o
      → P x
      → Holds P (elim o [ some y ↦ some y | none ↦ if b then some x else none ])
  last_such_next P none true x h hx = hx
  last_such_next P none false x h hx = tt
  last_such_next P (some y) b x h hx = h

  pub All-last_such {κ} :
      (P : A → Type κ) (p : A → Bool) (xs : List A) → All P xs → Holds P (last_such p xs)
  unfolding last_such
  All-last_such P p [] h = tt
  All-last_such P p (y ∷ ys) h =
      last_such_next P (last_such p ys) (p y) y (All-last_such P p ys h.1) h.0

  -- `update` has what it assigns, and keeps the other rows
  pub update-All {κ μ} :
      {P : A → Type κ} (Q : A → Type μ) (p : A → Bool) (f : A → A) (xs : List A)
      → ((x : A) → p x ≡ true → P x → Q (f x))
      → ((x : A) → p x ≡ false → P x → Q x)
      → All P xs
      → All Q (update p f xs)
  unfolding update
  update-All Q p f [] hit miss h = tt
  update-All Q p f (x ∷ xs) hit miss h = elim (Bool-cases (p x)) [
    | inl e ↦ rw e (hit x e h.0, update-All Q p f xs hit miss h.1)
    | inr e ↦ rw e (miss x e h.0, update-All Q p f xs hit miss h.1)
  ]

  -- What a query returns passes its test.
  pub first_passes : (p : A → Bool) (xs : List A) {x : A} → first p xs ≡ some x → p x ≡ true
  unfolding first
  first_passes p [] h = cc
  first_passes p (y ∷ xs) h = elim (Bool-cases (p y)) [
    | inl e ↦ ground (arith, e)
    | inr e ↦ first_passes p xs (ground (arith, e))
  ]

pub Holds-self {ℓ} : {A : Type ℓ} (o : Option A) → Holds (λ x. o ≡ some x) o
Holds-self none = tt
Holds-self (some x) = refl

-- what a step makes of a result that holds
pub Holds-then {ℓ κ μ ν} :
    {A : Type ℓ} {B : Type κ} (P : A → Type μ) (Q : B → Type ν) (o : Option A) (f : A → Option B)
    → Holds P o
    → ((x : A) → P x → Holds Q (f x))
    → Holds Q (elim o [ none ↦ none | some x ↦ f x ])
Holds-then P Q none f h next = tt
Holds-then P Q (some x) f h next = next x h

-- `a in xs`, on texts
abbrev pub is_in : String → List String → Bool
is_in a [] = false
is_in a (x ∷ xs) = a == x || is_in a xs

-- what all texts of a list have, a text in it has
pub All-is_in {ℓ} :
    (P : String → Type ℓ) (xs : List String) (a : String) → All P xs → is_in a xs ≡ true → P a
All-is_in P [] a h e = cc
All-is_in P (x ∷ xs) a h e = elim (Bool-cases (a == x)) [
  | inl t ↦ subst P (sym ((eq_iff a x).0 t)) h.0
  | inr t ↦ All-is_in P xs a h.1 (ground (arith, e, t))
]

pub mul_mono : (c a b : ℕ) → a ≤ b → c * a ≤ c * b
mul_mono zero a b h = omega arith
mul_mono (suc c) a b h = omega (arith, mul_mono c a b h, h)

pub eq_nat-eq : (a b : ℕ) → eq_nat a b ≡ true → a ≡ b
eq_nat-eq a b h = ground (arith, h)

-- `table.get(key)`
unfoldable pub lookup {ℓ} : {A : Type ℓ} → String → List (String × A) → Option A
lookup k [] = none
lookup k ((j, v) ∷ rest) = if j == k then some v else lookup k rest

text_lt : String → String → Bool
text_lt a b = is_lt (compare a b)

-- into a sorted list without repetitions
insert_text : String → List String → List String
unfolding text_lt
insert_text a [] = a ∷ []
insert_text a (x ∷ xs) =
    let rest = insert_text a xs in
    if a == x then x ∷ xs else (if text_lt a x then a ∷ x ∷ xs else x ∷ rest)

-- `sorted(set(xs))`
unfoldable pub sorted_set : List String → List String
unfolding insert_text
sorted_set [] = []
sorted_set (x ∷ xs) = insert_text x (sorted_set xs)

insert_text-ne-nil : (a : String) (xs : List String) → insert_text a xs ≢ []
unfolding insert_text
insert_text-ne-nil a [] h = cc
insert_text-ne-nil a (x ∷ xs) h = ground (arith, h)

pub sorted_set-nil : (xs : List String) → sorted_set xs ≡ [] → xs ≡ []
unfolding sorted_set
sorted_set-nil [] h = refl
sorted_set-nil (x ∷ xs) h = absurd (insert_text-ne-nil x (sorted_set xs) h)

pub append-nil_parts {ℓ} : {A : Type ℓ} (xs ys : List A) → xs ++ ys ≡ [] → (xs ≡ []) × (ys ≡ [])
append-nil_parts [] ys h = (refl, h)
append-nil_parts (x ∷ xs) ys h = cc
