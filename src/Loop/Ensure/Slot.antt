-- ===== src/Loop/Ensure/Slot.antt =====
-- Which matter takes a store's one place at now.
use mathlib.Core.Path.{subst}
use meal_key_ecosystem.Base.{
  none, some, arith, ◌≡◌, last_such, Option, Bool, true, Holds, List, ◌∷◌, [], if◌then◌else◌,
  Bool-cases, Option-cases, refl, inr, inl,
}
use meal_key_ecosystem.Models.{RowId, Time}
use meal_key_ecosystem.Loop.State.{
  Item, LoopDb, is_open, latest_blocking_loop, latest_ingest_now, latest_open_loop, is_now,
  is_blocking,
}
use meal_key_ecosystem.Loop.Ensure.{
  has_source, Card, new_item, reopened, refreshed, known_loop, enter, for_card, ensure_now_loop,
  is_cancelled,
}

-- an open matter of the store
unfoldable pub IsOpenOf : RowId → Item → Type 0
IsOpenOf store x = (x.store_id ≡ store) × (is_open x.status ≡ true)

passes_next :
    (p : Item → Bool) (o : Option Item) (x : Item)
    → Holds (λ y. p y ≡ true) o
    → Holds (λ y. p y ≡ true) (elim o [ some y ↦ some y | none ↦ if p x then some x else none ])
passes_next p none x h = elim (Bool-cases (p x)) [ inl e ↦ rw e e | inr e ↦ rw e tt ]
passes_next p (some y) x h = h

last_such_passes : (p : Item → Bool) (xs : List Item) → Holds (λ x. p x ≡ true) (last_such p xs)
unfolding last_such
last_such_passes p [] = tt
last_such_passes p (x ∷ xs) = passes_next p (last_such p xs) x (last_such_passes p xs)

Holds-map :
    {P : Item → Type 0} (Q : Item → Type 0) (o : Option Item)
    → ((x : Item) → P x → Q x)
    → Holds P o
    → Holds Q o
Holds-map Q none f h = h
Holds-map Q (some x) f h = f x h

module _ (db : LoopDb) (store : RowId) where
  blocking-IsOpenOf : Holds (IsOpenOf store) (latest_blocking_loop db store)
  unfolding latest_blocking_loop IsOpenOf is_open is_blocking
  blocking-IsOpenOf =
      Holds-map (IsOpenOf store) _ (λ x h. (ground (arith, h), ground (arith, h)))
        (last_such_passes _ db.loops)

  ingest-IsOpenOf : Holds (IsOpenOf store) (latest_ingest_now db store)
  unfolding latest_ingest_now IsOpenOf is_open is_now
  ingest-IsOpenOf =
      Holds-map (IsOpenOf store) _ (λ x h. (ground (arith, h), ground (arith, h)))
        (last_such_passes _ db.loops)

  open-IsOpenOf : Holds (IsOpenOf store) (latest_open_loop db store)
  unfolding latest_open_loop IsOpenOf
  open-IsOpenOf =
      Holds-map (IsOpenOf store) _ (λ x h. (ground (arith, h), ground (arith, h)))
        (last_such_passes _ db.loops)

  known_own : (card : Card) → Holds (λ x. x.store_id ≡ store) (known_loop db store card)
  unfolding known_loop
  known_own card =
      Holds-map (λ x. x.store_id ≡ store) _ (λ x h. ground (arith, h)) (last_such_passes _ db.loops)

  new-IsOpenOf : (card : Card) (now : Time) → IsOpenOf store (new_item db store card now)
  unfolding new_item IsOpenOf is_open
  new-IsOpenOf card now = (refl, refl)

  again-IsOpenOf :
      (x : Item) (card : Card) (now : Time)
      → x.store_id ≡ store
      → is_open x.status ≡ true
      → IsOpenOf store (refreshed (reopened x) card now)
  unfolding refreshed reopened is_cancelled IsOpenOf is_open is_now
  again-IsOpenOf x card now own e = (ground (arith, own), ground (arith, e))

  enter-IsOpenOf :
      (card : Card) (now : Time) (o : Option Item)
      → Holds (λ x. x.store_id ≡ store) o
      → IsOpenOf store (enter db store card now o).0
  unfolding enter
  enter-IsOpenOf card now none h = new-IsOpenOf card now
  enter-IsOpenOf card now (some x) h = elim (Bool-cases (is_open x.status)) [
    | inl e ↦ rw e (again-IsOpenOf x card now h e)
    | inr e ↦ rw e (new-IsOpenOf card now)
  ]

  for_card-IsOpenOf :
      (card : Option Card) (now : Time) → Holds (IsOpenOf store) (for_card db store card now).0
  unfolding for_card
  for_card-IsOpenOf none now = open-IsOpenOf
  for_card-IsOpenOf (some card) now =
      let entered = enter-IsOpenOf card now (known_loop db store card) (known_own card) in
      elim (Bool-cases (has_source card)) [ inl e ↦ rw e entered | inr e ↦ rw e open-IsOpenOf ]

  -- What `ensure_now_loop` returns is an open matter of the store.
  pub ensure_now_loop-IsOpenOf :
      (card : Option Card) (now : Time)
      → Holds (IsOpenOf store) (ensure_now_loop db store card now).0
  unfolding ensure_now_loop
  ensure_now_loop-IsOpenOf card now = elim (Option-cases (latest_blocking_loop db store)) [
    | inr (x, e) ↦ rw (ensure_now_loop, e) (subst (Holds (IsOpenOf store)) e blocking-IsOpenOf)
    | inl e ↦ elim (Option-cases (latest_ingest_now db store)) [
      | inr (x, t) ↦ rw (ensure_now_loop, e, t) (subst (Holds (IsOpenOf store)) t ingest-IsOpenOf)
      | inl t ↦ rw (ensure_now_loop, e, t) (for_card-IsOpenOf card now)
    ]
  ]
