-- ===== src/Notify/Budget.antt =====
-- The budget and the quiet hours of `notify_store_owner`, app/services/notification_service.py.
use meal_key_ecosystem.Notify.Merge.{pick_priority-urgent}
use meal_key_ecosystem.Models.{RowId}
use meal_key_ecosystem.Base.{
  Option, ℕ, ◌≡◌, some, false, ◌≤◌, arith, none, refl, keep-update_le, ◌==◌, keep, length, eq_nat,
  length-keep_append, ◌∷◌, true, ◌<◌, [], ◌⊎◌, inl, Bool-cases, inr, append-nil, Bool, subst,
  is_some, eq_nat-eq,
}
use meal_key_ecosystem.Notify.{
  Notification, NotifyDb, Clock, Notice, Reason, is_pushed, daily_push_count, held_back, merged,
  entered_row, place, over_budget, told, was_told, default_daily_budget, day_of, notify_store_owner,
  digest_row, is_quiet,
}

merged_pushed :
    (n : Notice) (held : Option Reason) (store : RowId) (day : ℕ) (x : Notification)
    → is_pushed store day x ≡ false
    → is_pushed store day (merged n held x) ≡ false
unfolding is_pushed merged
merged_pushed n none store day x h = ground (arith, h, pick_priority-urgent x.priority n.priority)
merged_pushed n (some reason) store day x h = ground (arith, h)

-- a new row that is held back does not count
entered_held :
    (i : RowId) (clock : Clock) (n : Notice) (reason : Reason) (store : RowId) (day : ℕ)
    → length (keep (is_pushed store day) (entered_row i clock n (some reason) ∷ [])) ≡ 0
unfolding keep is_pushed entered_row
entered_held i clock n reason store day = ground arith

-- a new row is_pushed only for its store, and only if it is not urgent
entered_pushed :
    (i : RowId) (clock : Clock) (n : Notice) (store : RowId) (day : ℕ)
    → (length (keep (is_pushed store day) (entered_row i clock n none ∷ [])) ≡ 0)
      ⊎ ((length (keep (is_pushed store day) (entered_row i clock n none ∷ [])) ≡ 1)
          × (n.priority == "urgent" ≡ false)
          × (eq_nat n.store_id store ≡ true))
unfolding keep is_pushed entered_row
entered_pushed i clock n store day = ground arith

-- a notice that is held back, or is placed in a row, pushes nothing more
place_held :
    (db : NotifyDb) (clock : Clock) (n : Notice) (reason : Reason) (o : Option Notification)
    (store : RowId) (day : ℕ)
    → (daily_push_count (place db clock n (some reason) o).1 store day
        ≤ daily_push_count db store day)
      × ((place db clock n (some reason) o).1.sent ≡ db.sent)
unfolding place daily_push_count
place_held db clock n reason (some x) store day = (
  keep-update_le (is_pushed store day) (λ y. eq_nat y.id x.id) (merged n (some reason)) db.rows
      (merged_pushed n (some reason) store day),
  refl,
)
place_held db clock n reason none store day = (
  omega (
    arith,
    length-keep_append (is_pushed store day) db.rows
        (entered_row db.next_id clock n (some reason) ∷ []),
    entered_held db.next_id clock n reason store day,
  ),
  append-nil db.sent,
)

told_held :
    (db : NotifyDb) (clock : Clock) (n : Notice) (b : Bool) (held : Option Reason)
    (o : Option Notification) (store : RowId) (day : ℕ)
    → is_some held ≡ true
    → (daily_push_count (told b (place db clock n held o) db).1 store day
        ≤ daily_push_count db store day)
      × ((told b (place db clock n held o) db).1.sent ≡ db.sent)
unfolding told
told_held db clock n true held o store day e = (omega arith, refl)
told_held db clock n false none o store day e = absurd (ground (arith, e))
told_held db clock n false (some reason) o store day e = place_held db clock n reason o store day

held_back_some :
    (db : NotifyDb) (clock : Clock) (n : Notice)
    → n.priority == "urgent" ≡ false
    → (is_quiet clock n.store_id ≡ true)
      ⊎ ((n.suppress_if_budget_exceeded ≡ true)
          × (default_daily_budget ≤ daily_push_count db n.store_id (day_of clock.now)))
    → is_some (held_back db clock n) ≡ true
unfolding held_back over_budget
held_back_some db clock n p (inl q) = ground (arith, p, q)
held_back_some db clock n p (inr q) = ground (arith, p, q.0, q.1)

-- any notice adds at most one, and only one that has room
place_room :
    (db : NotifyDb) (clock : Clock) (n : Notice) (held : Option Reason) (o : Option Notification)
    (store : RowId) (day b : ℕ)
    → default_daily_budget ≤ b
    → (held ≡ none
        → n.priority == "urgent" ≡ false
        → eq_nat n.store_id store ≡ true
        → daily_push_count db store day < default_daily_budget)
    → daily_push_count db store day ≤ b
    → daily_push_count (place db clock n held o).1 store day ≤ b
unfolding place daily_push_count
place_room db clock n held (some x) store day b wide room h = omega (
  arith,
  h,
  keep-update_le (is_pushed store day) (λ y. eq_nat y.id x.id) (merged n held) db.rows
      (merged_pushed n held store day),
)
place_room db clock n (some reason) none store day b wide room h = omega (
  arith,
  h,
  length-keep_append (is_pushed store day) db.rows
      (entered_row db.next_id clock n (some reason) ∷ []),
  entered_held db.next_id clock n reason store day,
)
place_room db clock n none none store day b wide room h =
    elim (entered_pushed db.next_id clock n store day) [
      | inl e ↦ omega (
        arith,
        h,
        e,
        length-keep_append (is_pushed store day) db.rows (entered_row db.next_id clock n none ∷ []),
      )
      | inr (one, p, same) ↦ omega (
        arith,
        one,
        room refl p same,
        wide,
        length-keep_append (is_pushed store day) db.rows (entered_row db.next_id clock n none ∷ []),
      )
    ]

-- without a reason to hold a notice back, its store has room
held_back_room :
    (db : NotifyDb) (clock : Clock) (n : Notice)
    → n.suppress_if_budget_exceeded ≡ true
    → held_back db clock n ≡ none
    → n.priority == "urgent" ≡ false
    → daily_push_count db n.store_id (day_of clock.now) < default_daily_budget
unfolding held_back over_budget
held_back_room db clock n s e p = ground (arith, s, e, p)

pub notify_room :
    (db : NotifyDb) (clock : Clock) (n : Notice) (store : RowId) (day b : ℕ)
    → default_daily_budget ≤ b
    → n.suppress_if_budget_exceeded ≡ true
    → day_of clock.now ≡ day
    → daily_push_count db store day ≤ b
    → daily_push_count (notify_store_owner db clock n).1 store day ≤ b
unfolding notify_store_owner told
notify_room db clock n store day b wide s d h = elim (Bool-cases (was_told db clock n)) [
  | inl e ↦ rw e h
  | inr e ↦ rw e (
      place_room db clock n (held_back db clock n) (digest_row db clock n) store day b wide
        (λ held p same.
          subst (λ i. daily_push_count db i day < default_daily_budget)
            (eq_nat-eq n.store_id store same)
            (subst (λ d. daily_push_count db n.store_id d < default_daily_budget) d
              (held_back_room db clock n s held p)))
        h)
]

-- A notice that is not urgent and comes in quiet hours, or over the budget that it keeps to, pushes
-- nothing: no store has more notifications that count for any day, and no message is sent.
pub notify_store_owner-waits :
    (db : NotifyDb) (clock : Clock) (n : Notice) (store : RowId) (day : ℕ)
    → n.priority == "urgent" ≡ false
    → (is_quiet clock n.store_id ≡ true)
      ⊎ ((n.suppress_if_budget_exceeded ≡ true)
          × (default_daily_budget ≤ daily_push_count db n.store_id (day_of clock.now)))
    → (daily_push_count (notify_store_owner db clock n).1 store day ≤ daily_push_count db store day)
      × ((notify_store_owner db clock n).1.sent ≡ db.sent)
unfolding notify_store_owner
notify_store_owner-waits db clock n store day p h =
    told_held db clock n (was_told db clock n) (held_back db clock n) (digest_row db clock n) store
      day (held_back_some db clock n p h)
