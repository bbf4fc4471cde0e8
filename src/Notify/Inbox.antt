-- ===== src/Notify/Inbox.antt =====
-- Reading notifications, and releasing those that waited: app/services/notification_service.py.
pub mod Flushed
pub mod Rounds
use meal_key_ecosystem.Base.{
  ℕ, List, ◌∷◌, String, none, map, true, Option, Bool, some, ◌&&◌, false, not, ◌++◌, if◌then◌else◌,
  take, keep, length, [], any_of, eq_nat, update,
}
use meal_key_ecosystem.Models.{RowId, Time}
use meal_key_ecosystem.Notify.{
  Notification, NotifyDb, Clock, PushStatus, Reason, seen, delivered, queued, is_quiet,
}

pub record Unread : Type 0 where
  pub id : RowId
  pub notification_type : String
  pub title : String
  pub body : String
  pub priority : String
  pub action_url : String
  pub created_at : Time
  pub is_read : Bool
  pub push_status : PushStatus
  pub push_suppressed_reason : Option Reason

shown : Notification → Unread
shown n = record {
  id = n.id;
  notification_type = n.notification_type;
  title = n.title;
  body = n.body;
  priority = n.priority;
  action_url = n.action_url;
  created_at = n.created_at;
  is_read = n.is_read;
  push_status = n.push_status;
  push_suppressed_reason = n.push_suppressed_reason;
}

newest_first : List Notification → List Notification
newest_first [] = []
newest_first (n ∷ rest) = newest_first rest ++ n ∷ []

-- `get_unread_notifications`
pub get_unread_notifications : NotifyDb → RowId → ℕ → List Unread
unfolding shown newest_first
get_unread_notifications db store limit = map shown (
    take limit (
      newest_first (keep (λ (n : Notification). eq_nat n.store_id store && not n.is_read) db.rows)))

read_row : Time → Notification → Notification
read_row now n = record n { is_read = true; read_at = some now; push_status = seen }

-- `mark_notification_read`
pub mark_notification_read : NotifyDb → Time → RowId → Bool × NotifyDb
unfolding read_row
mark_notification_read db now i =
    if any_of (λ (n : Notification). eq_nat n.id i) db.rows
    then (true, record db { rows = update (λ n. eq_nat n.id i) (read_row now) db.rows })
    else (false, db)

is_queued : PushStatus → Bool
is_queued queued = true
is_queued _ = false

of_store : Option RowId → RowId → Bool
of_store none store = true
of_store (some wanted) store = eq_nat store wanted

-- what the query finds
unfoldable pub is_held : Option RowId → Notification → Bool
unfolding is_queued of_store
is_held wanted n = not n.is_read && is_queued n.push_status && of_store wanted n.store_id

released_row : Time → Notification → Notification
released_row now n = record n {
  push_status = delivered;
  push_suppressed_reason = none;
  pushed_at = some now;
}

-- `flush_queued_notifications`: how many it released, and the rows after it
pub flush_queued_notifications : NotifyDb → Clock → Option RowId → ℕ × NotifyDb
unfolding released_row
flush_queued_notifications db clock wanted =
    let goes = λ (n : Notification). is_held wanted n && not (is_quiet clock n.store_id) in
    (length (keep goes db.rows), record db { rows = update goes (released_row clock.now) db.rows })
