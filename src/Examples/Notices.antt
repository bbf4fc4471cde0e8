-- ===== src/Examples/Notices.antt =====
-- A shop's owner is told things.
use meal_key_ecosystem.Base.{
  last_such, hour_of, [], ◌∷◌, none, some, true, keep, cut, ◌≤◌, ◌≡◌, arith, inl, refl, length, ◌+◌,
  false, List,
}
use meal_key_ecosystem.Flow.Rhythm.{quiet_at, default_rhythm}
use meal_key_ecosystem.Notify.Inbox.Rounds.{
  Round, notice, flush, reading, run_rounds, run_rounds-budget,
}
use meal_key_ecosystem.Notify.{
  default_daily_budget, Notification, queued, quiet_hours, NotifyDb, Clock, Notice,
  notify_store_owner, is_quiet, daily_push_count, digest_row, is_delivered,
}
use meal_key_ecosystem.Notify.Inbox.{flush_queued_notifications}
use meal_key_ecosystem.Notify.Budget.{notify_store_owner-waits}
use meal_key_ecosystem.Notify.Once.{notify_store_owner-again}
use meal_key_ecosystem.Notify.Inbox.Flushed.{flush-releases, goes}

abbrev pub silence : NotifyDb
silence = record { rows = []; sent = []; next_id = 1 }

-- 15:00 in UTC of day 1, when it is 23:00 in Shanghai
abbrev pub late : Clock
late = record { now = 140400; local_hour = 23; rhythm_for = λ store. default_rhythm }

abbrev pub morning : Clock
morning = record late { now = 100000; local_hour = 10 }

abbrev pub need : Notice
need = record {
  store_id = 7;
  notification_type = "need_you";
  title = "今天只拍这一板";
  body = "高峰前";
  priority = "normal";
  action_url = "";
  clock_phase = "lunch_nba";
  related_decision_id = "card-1";
  wx_openid = "";
  wx_template_id = "";
  suppress_if_budget_exceeded = true;
}

abbrev result_notice : Notice
result_notice = record need {
  notification_type = "experiment_result";
  clock_phase = "";
  related_decision_id = "";
}

late_is_quiet : is_quiet late 7 ≡ true
unfolding is_quiet quiet_at hour_of
late_is_quiet = refl

notify_store_owner-waits_example :
    (daily_push_count (notify_store_owner silence late need).1 7 1 ≤ daily_push_count silence 7 1)
    × ((notify_store_owner silence late need).1.sent ≡ [])
notify_store_owner-waits_example =
    notify_store_owner-waits silence late need 7 1 refl (inl late_is_quiet)

abbrev mixed_rounds : List Round
mixed_rounds =
    notice morning need ∷ reading 90000 1 ∷ notice late result_notice ∷ flush morning none ∷ []

run_rounds-budget_example :
    daily_push_count (run_rounds silence mixed_rounds).1 7 1
    ≤ default_daily_budget + (run_rounds silence mixed_rounds).0
unfolding daily_push_count keep
run_rounds-budget_example =
    run_rounds-budget 1 silence 7 mixed_rounds ((refl, refl), (tt, ((refl, refl), (tt, tt))))
      (omega arith)

no_digest : digest_row silence morning need ≡ none
unfolding digest_row last_such
no_digest = refl

short_id : cut 64 "card-1" ≡ "card-1"
unfolding cut
short_id = refl

notify_store_owner-again_example :
    notify_store_owner (notify_store_owner silence morning need).1 late need
    ≡ (none, (notify_store_owner silence morning need).1)
notify_store_owner-again_example =
    notify_store_owner-again silence morning late need need (λ e. cc) short_id no_digest refl refl
      refl

abbrev waiting_row : Notification
waiting_row = record {
  id = 1;
  store_id = 7;
  notification_type = "need_you";
  title = "今天只拍这一板";
  body = "高峰前";
  priority = "normal";
  action_url = "";
  related_decision_id = "card-1";
  is_read = false;
  read_at = none;
  clock_phase = "lunch_nba";
  digest_group = record { name = "lunch_nba"; day = 1 };
  push_status = queued;
  push_suppressed_reason = some quiet_hours;
  pushed_at = none;
  count = 1;
  last_title = "";
  created_at = 140400;
}

abbrev overnight : NotifyDb
overnight = record { rows = waiting_row ∷ []; sent = []; next_id = 2 }

flush-releases_example :
    (keep (goes morning (some 7)) (flush_queued_notifications overnight morning (some 7)).1.rows
      ≡ [])
    × (length (
          keep
            (λ (n : Notification). is_delivered n.push_status)
            (flush_queued_notifications overnight morning (some 7)).1.rows)
        ≡ length (keep (λ (n : Notification). is_delivered n.push_status) (waiting_row ∷ []))
          + (flush_queued_notifications overnight morning (some 7)).0)
flush-releases_example = flush-releases overnight morning (some 7)
