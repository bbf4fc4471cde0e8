-- ===== src/Notify.antt =====
-- app/services/notification_service.py: what the owner of a store is told, and when. The rows are those of
-- app/models/notification.py. A text that is absent is "", a day is a number of days in UTC.
pub mod Merge
pub mod Inbox
pub mod Budget
pub mod Once
use meal_key_ecosystem.Base.{
  ℕ, String, Bool, Option, List, true, false, none, some, ◌+◌, ◌*◌, ◌/◌, ◌==◌, ◌&&◌, ◌||◌, ◌∷◌, [],
  cut, length, last_such, update, not, or_text, if◌then◌else◌, or_else, leb, eq_nat, ◌++◌, keep,
  any_of, is_some, suc,
}
use meal_key_ecosystem.Models.{RowId, Time}
use meal_key_ecosystem.Notify.Merge.{merge_title, merge_body, pick_priority}
use meal_key_ecosystem.Flow.Rhythm.{StoreRhythm, quiet_at}

pub data PushStatus : Type 0 where
  delivered queued seen : PushStatus

-- `push_suppressed_reason`
pub data Reason : Type 0 where
  quiet_hours daily_budget : Reason

-- `digest_group`: the clock phase or else the type, and the day
pub record DigestGroup : Type 0 where
  pub name : String
  pub day : ℕ

pub record Notification : Type 0 where
  pub id : RowId
  pub store_id : RowId
  pub notification_type : String
  pub title : String
  pub body : String
  pub priority : String
  pub action_url : String
  pub related_decision_id : String
  pub is_read : Bool
  pub read_at : Option Time
  pub clock_phase : String
  pub digest_group : DigestGroup
  pub push_status : PushStatus
  pub push_suppressed_reason : Option Reason
  pub pushed_at : Option Time
  pub count : ℕ  -- of `meta_json`
  pub last_title : String
  pub created_at : Time

-- a call of `send_wx_template_message`
pub record WxMessage : Type 0 where
  pub openid : String
  pub template_id : String
  pub title : String
  pub body : String
  pub at_time : Time

pub record NotifyDb : Type 0 where
  pub rows : List Notification
  pub sent : List WxMessage
  pub next_id : RowId

-- the time, the hour in Shanghai, and what `resolve_store_rhythm` finds for each store
pub record Clock : Type 0 where
  pub now : Time
  pub local_hour : ℕ
  pub rhythm_for : RowId → StoreRhythm

-- the arguments of `notify_store_owner`
pub record Notice : Type 0 where
  pub store_id : RowId
  pub notification_type : String
  pub title : String
  pub body : String
  pub priority : String
  pub action_url : String
  pub clock_phase : String
  pub related_decision_id : String
  pub wx_openid : String
  pub wx_template_id : String
  pub suppress_if_budget_exceeded : Bool

abbrev pub default_daily_budget : ℕ
default_daily_budget = 5

abbrev pub day_of : Time → ℕ
day_of now = now / 86400

-- `created_at >= today_start`
abbrev pub is_since : ℕ → Time → Bool
is_since day t = leb (day * 86400) t

unfoldable pub is_delivered : PushStatus → Bool
is_delivered delivered = true
is_delivered _ = false

unfoldable pub is_pushed : RowId → ℕ → Notification → Bool
unfolding is_delivered
is_pushed store day x =
    eq_nat x.store_id store
    && is_since day x.created_at
    && not (x.priority == "urgent")
    && is_delivered x.push_status

-- `_daily_push_count`
unfoldable pub daily_push_count : NotifyDb → RowId → ℕ → ℕ
daily_push_count db store day = length (keep (is_pushed store day) db.rows)

-- a rhythm whose quiet hours do not parse has none
unfoldable pub is_quiet : Clock → RowId → Bool
is_quiet clock store = or_else (quiet_at (clock.rhythm_for store) clock.local_hour) false

over_budget : NotifyDb → Clock → Notice → Bool
over_budget db clock n =
    n.suppress_if_budget_exceeded
    && not (n.priority == "urgent")
    && leb default_daily_budget (daily_push_count db n.store_id (day_of clock.now))

-- why a notice is not pushed now
unfoldable pub held_back : NotifyDb → Clock → Notice → Option Reason
unfolding over_budget
held_back db clock n =
    if not (n.priority == "urgent") && is_quiet clock n.store_id
    then some quiet_hours
    else if over_budget db clock n
    then some daily_budget
    else none

-- the rows that say since the start of a day that a decision was told
tells : RowId → String → ℕ → Notification → Bool
tells store decision day x =
    eq_nat x.store_id store && x.related_decision_id == cut 64 decision && is_since day x.created_at

told_in : List Notification → RowId → String → ℕ → Bool
unfolding tells
told_in rows store decision day = not (decision == "") && any_of (tells store decision day) rows

was_told : NotifyDb → Clock → Notice → Bool
unfolding told_in
was_told db clock n = told_in db.rows n.store_id n.related_decision_id (day_of clock.now)

group_of : Clock → Notice → DigestGroup
group_of clock n = record {
  name = or_text n.clock_phase n.notification_type;
  day = day_of clock.now;
}

same_group : DigestGroup → DigestGroup → Bool
same_group a b = a.name == b.name && eq_nat a.day b.day

-- the newest unread row of the store in the notice's group
unfoldable pub digest_row : NotifyDb → Clock → Notice → Option Notification
unfolding group_of same_group
digest_row db clock n =
    last_such
      (λ x.
        eq_nat x.store_id n.store_id
        && not x.is_read
        && same_group x.digest_group (group_of clock n))
      db.rows

state_after : Option Reason → PushStatus → PushStatus
state_after none status = status
state_after (some reason) status = queued

reason_after : Option Reason → Option Reason → Option Reason
reason_after none old = old
reason_after (some reason) old = some reason

merged : Notice → Option Reason → Notification → Notification
unfolding state_after reason_after
merged n held x =
    let count = (if eq_nat x.count 0 then 1 else x.count) + 1 in
    record x {
      count = count;
      last_title = cut 200 n.title;
      title = merge_title x.title n.title count;
      body = merge_body x.body n.body;
      priority = pick_priority x.priority n.priority;
      action_url = or_text n.action_url x.action_url;
      push_status = state_after held x.push_status;
      push_suppressed_reason = reason_after held x.push_suppressed_reason;
    }

entered_row : RowId → Clock → Notice → Option Reason → Notification
unfolding group_of state_after
entered_row i clock n held = record {
  id = i;
  store_id = n.store_id;
  notification_type = n.notification_type;
  title = cut 200 n.title;
  body = cut 1000 n.body;
  priority = n.priority;
  action_url = n.action_url;
  related_decision_id = n.related_decision_id;
  is_read = false;
  read_at = none;
  clock_phase = n.clock_phase;
  digest_group = group_of clock n;
  push_status = state_after held delivered;
  push_suppressed_reason = held;
  pushed_at = if is_some held then none else some clock.now;
  count = 1;
  last_title = "";
  created_at = clock.now;
}

wx_messages : Clock → Notice → Option Reason → List WxMessage
wx_messages clock n (some reason) = []
wx_messages clock n none =
    if not (n.wx_openid == "") && not (n.wx_template_id == "")
    then record {
      openid = n.wx_openid;
      template_id = n.wx_template_id;
      title = n.title;
      body = cut 100 n.body;
      at_time = clock.now;
    }
      ∷ []
    else []

-- into the row of the digest group, or a row of its own
place : NotifyDb → Clock → Notice → Option Reason → Option Notification → RowId × NotifyDb
unfolding merged entered_row wx_messages
place db clock n held (some x) =
    (x.id, record db { rows = update (λ y. eq_nat y.id x.id) (merged n held) db.rows })
place db clock n held none = (
  db.next_id,
  record db {
    rows = db.rows ++ entered_row db.next_id clock n held ∷ [];
    sent = db.sent ++ wx_messages clock n held;
    next_id = suc db.next_id;
  },
)

told : Bool → RowId × NotifyDb → NotifyDb → Option RowId × NotifyDb
told true after db = (none, db)
told false after db = (some (after.0), after.1)

-- `notify_store_owner`: the id of the row, unless the decision was told today
pub notify_store_owner : NotifyDb → Clock → Notice → Option RowId × NotifyDb
unfolding was_told place told
notify_store_owner db clock n =
    told (was_told db clock n) (place db clock n (held_back db clock n) (digest_row db clock n)) db
