-- ===== src/Loop/Ensure/Keeps.antt =====
-- A matter that enters the loop is consistent.
use meal_key_ecosystem.Loop.Thread.{append_thread_state, same_state}
use meal_key_ecosystem.Base.{
  arith, All-append, Holds, Option, some, ◌∷◌, All-last_such, Bool-cases, none, [], inl, inr, false,
  ◌≡◌, true,
}
use meal_key_ecosystem.Models.{RowId, Time}
use meal_key_ecosystem.Loop.State.{
  LoopDb, Item, pending, is_open, LoopResult, is_blocking, is_now, at_now,
}
use meal_key_ecosystem.Loop.Invariant.{
  AllConsistent, IsConsistent, put_loop-AllConsistent, agrees, is_consistent, has_rows,
}
use meal_key_ecosystem.Loop.Ensure.{
  Card, entered_pack, new_item, insert_loop, reopened, refreshed, known_loop, enter, for_card,
  ensure_now_loop, is_cancelled,
}

entered_pack-agrees :
    (card : Card) (now : Time) (r : LoopResult)
    → elim (entered_pack card now).thread_status [ none ↦ false | some s ↦ agrees at_now r s ]
      ≡ true
unfolding entered_pack agrees append_thread_state same_state
entered_pack-agrees card now r = ground arith

new_item-IsConsistent :
    (db : LoopDb) (store : RowId) (card : Card) (now : Time)
    → IsConsistent (new_item db store card now)
unfolding new_item IsConsistent is_consistent has_rows
new_item-IsConsistent db store card now = ground (arith, entered_pack-agrees card now pending)

module _ (x : Item) (card : Card) (now : Time) (hx : IsConsistent x) where
  reentered-IsConsistent : is_open x.status ≡ true → IsConsistent (refreshed (reopened x) card now)
  unfolding refreshed reopened is_cancelled IsConsistent is_consistent has_rows is_open is_blocking
      is_now
  reentered-IsConsistent e =
      ground
        (arith, hx, e, entered_pack-agrees card now x.result, entered_pack-agrees card now pending)

module _ (db : LoopDb) (store : RowId) (now : Time) (h : AllConsistent db) where
  inserted : (x : Item) → IsConsistent x → AllConsistent (insert_loop db x)
  unfolding insert_loop AllConsistent
  inserted x hx = All-append IsConsistent db.loops (x ∷ []) h (hx, tt)

  entered :
      (card : Card) (o : Option Item)
      → Holds IsConsistent o
      → AllConsistent (enter db store card now o).1
  unfolding enter
  entered card none hx =
      inserted (new_item db store card now) (new_item-IsConsistent db store card now)
  entered card (some x) hx = elim (Bool-cases (is_open x.status)) [
    | inl e ↦ rw e (put_loop-AllConsistent db _ (reentered-IsConsistent x card now hx e) h)
    | inr e ↦ rw e (inserted (new_item db store card now) (new_item-IsConsistent db store card now))
  ]

  known : (card : Card) → Holds IsConsistent (known_loop db store card)
  unfolding known_loop AllConsistent
  known card = All-last_such IsConsistent _ db.loops h

  for_card-AllConsistent : (card : Option Card) → AllConsistent (for_card db store card now).1
  unfolding for_card
  for_card-AllConsistent none = h
  for_card-AllConsistent (some card) =
      ground (arith, h, entered card (known_loop db store card) (known card))

  pub ensure_now_loop-AllConsistent :
      (card : Option Card) → AllConsistent (ensure_now_loop db store card now).1
  unfolding ensure_now_loop
  ensure_now_loop-AllConsistent card = ground (arith, h, for_card-AllConsistent card)
