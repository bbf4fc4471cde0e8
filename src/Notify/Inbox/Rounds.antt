-- ===== src/Notify/Inbox/Rounds.antt =====
-- What happens to the notifications in the course of a day, app/services/notification_service.py: notices,
-- flushes of what waited, and the owner's reading, in any order.
use meal_key_ecosystem.Models.{RowId, Time}
use meal_key_ecosystem.Base.{
  Option, ℕ, ◌≡◌, List, [], ◌∷◌, ◌+◌, ◌≤◌, All, true, false, arith, keep, length, update,
  keep-update_le, eq_nat, Bool-cases, inl, inr, any_of,
}
use meal_key_ecosystem.Notify.{
  Notification, NotifyDb, Clock, Notice, notify_store_owner, daily_push_count, default_daily_budget,
  day_of, is_pushed, is_delivered,
}
use meal_key_ecosystem.Notify.Budget.{notify_room}
use meal_key_ecosystem.Notify.Inbox.{
  flush_queued_notifications, mark_notification_read, read_row, released_row,
}
use meal_key_ecosystem.Notify.Inbox.Flushed.{goes}

pub data Round : Type 0 where
  notice : Clock → Notice → Round
  flush : Clock → Option RowId → Round
  reading : Time → RowId → Round

-- one round: how many it released, and the rows after it
run_round : NotifyDb → Round → ℕ × NotifyDb
run_round db (notice clock n) = (0, (notify_store_owner db clock n).1)
run_round db (flush clock wanted) = flush_queued_notifications db clock wanted
run_round db (reading now i) = (0, (mark_notification_read db now i).1)

-- all rounds, and how many the flushes among them released
pub run_rounds : NotifyDb → List Round → ℕ × NotifyDb
unfolding run_round
run_rounds db [] = (0, db)
run_rounds db (r ∷ rest) =
    let (released, next) = run_round db r in
    let (more, last) = run_rounds next rest in (released + more, last)

-- the notice is of the day, and keeps to the budget
abbrev pub IsBudgeted : ℕ → Round → Type 0
IsBudgeted day (notice clock n) = (day_of clock.now ≡ day) × (n.suppress_if_budget_exceeded ≡ true)
IsBudgeted day (flush clock wanted) = Unit
IsBudgeted day (reading now i) = Unit

released_pushed :
    (clock : Clock) (wanted : Option RowId) (store : RowId) (day : ℕ) (rows : List Notification)
    → length (keep (is_pushed store day) (update (goes clock wanted) (released_row clock.now) rows))
      ≤ length (keep (is_pushed store day) rows) + length (keep (goes clock wanted) rows)
unfolding keep update
released_pushed clock wanted store day [] = omega arith
released_pushed clock wanted store day (n ∷ rest) = elim (Bool-cases (goes clock wanted n)) [
  | inl g ↦ elim (Bool-cases (is_pushed store day (released_row clock.now n))) [
    | inl a ↦ elim (Bool-cases (is_pushed store day n)) [
      | inl c ↦ rw (g, a, c) (omega (arith, released_pushed clock wanted store day rest))
      | inr c ↦ rw (g, a, c) (omega (arith, released_pushed clock wanted store day rest))
    ]
    | inr a ↦ elim (Bool-cases (is_pushed store day n)) [
      | inl c ↦ rw (g, a, c) (omega (arith, released_pushed clock wanted store day rest))
      | inr c ↦ rw (g, a, c) (omega (arith, released_pushed clock wanted store day rest))
    ]
  ]
  | inr g ↦ elim (Bool-cases (is_pushed store day n)) [
    | inl c ↦ rw (g, c) (omega (arith, released_pushed clock wanted store day rest))
    | inr c ↦ rw (g, c) (omega (arith, released_pushed clock wanted store day rest))
  ]
]

flush_room :
    (db : NotifyDb) (clock : Clock) (wanted : Option RowId) (store : RowId) (day : ℕ)
    → daily_push_count (flush_queued_notifications db clock wanted).1 store day
      ≤ daily_push_count db store day + (flush_queued_notifications db clock wanted).0
unfolding flush_queued_notifications daily_push_count goes
flush_room db clock wanted store day = released_pushed clock wanted store day db.rows

read_pushed :
    (now : Time) (store : RowId) (day : ℕ) (n : Notification)
    → is_pushed store day n ≡ false
    → is_pushed store day (read_row now n) ≡ false
unfolding is_pushed is_delivered read_row
read_pushed now store day n h = ground (arith, h)

reading_room :
    (db : NotifyDb) (now : Time) (i store : RowId) (day : ℕ)
    → daily_push_count (mark_notification_read db now i).1 store day ≤ daily_push_count db store day
unfolding mark_notification_read daily_push_count
reading_room db now i store day =
    elim (Bool-cases (any_of (λ (n : Notification). eq_nat n.id i) db.rows)) [
      | inl e ↦ rw e (
          keep-update_le (is_pushed store day) (λ n. eq_nat n.id i) (read_row now) db.rows
            (read_pushed now store day))
      | inr e ↦ rw e (omega arith)
    ]

round_room :
    (day b : ℕ) (db : NotifyDb) (store : RowId) (r : Round)
    → IsBudgeted day r
    → default_daily_budget ≤ b
    → daily_push_count db store day ≤ b
    → daily_push_count (run_round db r).1 store day ≤ b + (run_round db r).0
unfolding run_round
round_room day b db store (notice clock n) k wide h =
    omega (arith, notify_room db clock n store day b wide k.1 k.0 h)
round_room day b db store (flush clock wanted) k wide h =
    omega (arith, h, flush_room db clock wanted store day)
round_room day b db store (reading now i) k wide h =
    omega (arith, h, reading_room db now i store day)

rounds_room :
    (day b : ℕ) (db : NotifyDb) (store : RowId) (rounds : List Round)
    → All (IsBudgeted day) rounds
    → default_daily_budget ≤ b
    → daily_push_count db store day ≤ b
    → daily_push_count (run_rounds db rounds).1 store day ≤ b + (run_rounds db rounds).0
unfolding run_rounds
rounds_room day b db store [] ks wide h = omega (arith, h)
rounds_room day b db store (r ∷ rest) ks wide h =
    let one = round_room day b db store r ks.0 wide h in
    let next = run_round db r in
    let all = rounds_room day (b + next.0) next.1 store rest ks.1 (omega (arith, wide)) one in
    omega (arith, all)

-- Notices of one day that keep to the budget, to any stores, in any order and mixed with readings and with
-- flushes of what waited: the notifications that are counted for a store on that day, if they are not above
-- five before, are at the end at most five more than the flushes released.
pub run_rounds-budget :
    (day : ℕ) (db : NotifyDb) (store : RowId) (rounds : List Round)
    → All (IsBudgeted day) rounds
    → daily_push_count db store day ≤ default_daily_budget
    → daily_push_count (run_rounds db rounds).1 store day
      ≤ default_daily_budget + (run_rounds db rounds).0
run_rounds-budget day db store rounds ks h =
    rounds_room day default_daily_budget db store rounds ks (omega arith) h
