-- ===== src/Loop/State/Lookup.antt =====
-- What a query by id finds after a matter is written.
use meal_key_ecosystem.Base.{
  none, some, first, update, eq_nat, if◌then◌else◌, List, [], ◌∷◌, ◌≢◌, arith, ◌≡◌, Bool,
}
use meal_key_ecosystem.Models.{RowId}
use meal_key_ecosystem.Loop.State.{Item, LoopDb, get_loop, put_loop}

has_number : RowId → Item → Bool
has_number i x = eq_nat x.id i

first-update :
    (y : Item) (j : RowId) (xs : List Item)
    → first (has_number j) (update (has_number y.id) (λ _. y) xs) ≡ (
        if eq_nat y.id j
        then (elim (first (has_number j) xs) [ none ↦ none | some _ ↦ some y ])
        else first (has_number j) xs)
unfolding first update has_number
first-update y j [] = ground arith
first-update y j (x ∷ xs) = ground (arith, first-update y j xs)

module _ (db : LoopDb) (y : Item) where
  -- A matter that is found is found again as it was written.
  pub get_loop-put_loop :
      (x : Item)
      → get_loop db y.store_id y.id ≡ some x
      → get_loop (put_loop db y) y.store_id y.id ≡ some y
  unfolding get_loop put_loop has_number
  get_loop-put_loop x h = ground (arith, h, first-update y y.id db.loops)

  pub get_loop-put_loop_other :
      (store j : RowId) → y.id ≢ j → get_loop (put_loop db y) store j ≡ get_loop db store j
  unfolding get_loop put_loop has_number
  get_loop-put_loop_other store j ne = ground (arith, first-update y j db.loops)
