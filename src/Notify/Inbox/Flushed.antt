-- ===== src/Notify/Inbox/Flushed.antt =====
-- What a flush releases, app/services/notification_service.py.
use meal_key_ecosystem.Models.{RowId}
use meal_key_ecosystem.Base.{
  Option, keep, update, Bool, List, ◌≡◌, ◌&&◌, length, [], ◌∷◌, not, ◌+◌, arith, refl, true, false,
}
use meal_key_ecosystem.Notify.{
  PushStatus, delivered, queued, seen, Notification, NotifyDb, Clock, is_delivered, is_quiet,
}
use meal_key_ecosystem.Notify.Inbox.{released_row, is_held, flush_queued_notifications, is_queued}

-- the rows that a flush releases
unfoldable pub goes : Clock → Option RowId → Notification → Bool
goes clock wanted n = is_held wanted n && not (is_quiet clock n.store_id)

released_leaves :
    (clock : Clock) (wanted : Option RowId) (rows : List Notification)
    → keep (goes clock wanted) (update (goes clock wanted) (released_row clock.now) rows) ≡ []
unfolding goes keep update released_row is_held is_queued
released_leaves clock wanted [] = refl
released_leaves clock wanted (n ∷ rest) = ground (arith, released_leaves clock wanted rest)

queued-not_delivered : (s : PushStatus) → is_queued s ≡ true → is_delivered s ≡ false
unfolding is_queued is_delivered
queued-not_delivered delivered h = absurd (ground (arith, h))
queued-not_delivered queued h = refl
queued-not_delivered seen h = refl

released_adds :
    (clock : Clock) (wanted : Option RowId) (rows : List Notification)
    → length (
        keep
          (λ (n : Notification). is_delivered n.push_status)
          (update (goes clock wanted) (released_row clock.now) rows))
      ≡ length (keep (λ (n : Notification). is_delivered n.push_status) rows)
        + length (keep (goes clock wanted) rows)
unfolding goes keep update released_row is_held is_delivered
released_adds clock wanted [] = omega arith
released_adds clock wanted (n ∷ rest) =
    ground (arith, released_adds clock wanted rest, queued-not_delivered n.push_status)

-- A flush, of one store or of all, leaves no unread queued notification of a store that is not in its
-- quiet hours; it delivers as many as it reports, however many the day's budget allows.
pub flush-releases :
    (db : NotifyDb) (clock : Clock) (wanted : Option RowId)
    → (keep (goes clock wanted) (flush_queued_notifications db clock wanted).1.rows ≡ [])
      × (length (
            keep
              (λ (n : Notification). is_delivered n.push_status)
              (flush_queued_notifications db clock wanted).1.rows)
          ≡ length (keep (λ (n : Notification). is_delivered n.push_status) db.rows)
            + (flush_queued_notifications db clock wanted).0)
unfolding flush_queued_notifications goes
flush-releases db clock wanted =
    (released_leaves clock wanted db.rows, released_adds clock wanted db.rows)
