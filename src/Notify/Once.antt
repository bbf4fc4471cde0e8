-- ===== src/Notify/Once.antt =====
-- `notify_store_owner` of app/services/notification_service.py, asked twice about one decision.
use meal_key_ecosystem.Base.{
  Option, true, false, ◌≢◌, cut, ◌≡◌, none, arith, Bool, refl, eq_iff, any_of, sym, any_of-append,
  ◌∷◌, [],
}
use meal_key_ecosystem.Models.{RowId}
use meal_key_ecosystem.Notify.{
  told_in, Clock, Notice, NotifyDb, tells, was_told, place, told, entered_row, notify_store_owner,
  Reason, day_of, digest_row, held_back,
}

entered_tells :
    (i : RowId) (clock : Clock) (n : Notice) (held : Option Reason)
    → cut 64 n.related_decision_id ≡ n.related_decision_id
    → tells n.store_id n.related_decision_id (day_of clock.now) (entered_row i clock n held) ≡ true
unfolding tells entered_row
entered_tells i clock n held c =
    ground (arith, (eq_iff n.related_decision_id (cut 64 n.related_decision_id)).1 (sym c))

-- after a notice that gets a row of its own, its decision is told
place-told :
    (db : NotifyDb) (clock : Clock) (n : Notice) (held : Option Reason)
    → n.related_decision_id ≢ ""
    → cut 64 n.related_decision_id ≡ n.related_decision_id
    → told_in
        (place db clock n held none).1.rows
        n.store_id
        n.related_decision_id
        (day_of clock.now)
      ≡ true
unfolding told_in place any_of
place-told db clock n held ne c = ground (
  arith,
  ne,
  eq_iff n.related_decision_id "",
  entered_tells db.next_id clock n held c,
  any_of-append (tells n.store_id n.related_decision_id (day_of clock.now)) db.rows
      (entered_row db.next_id clock n held ∷ []),
)

told-told :
    (db : NotifyDb) (clock : Clock) (n : Notice) (held : Option Reason) (b : Bool)
    → n.related_decision_id ≢ ""
    → cut 64 n.related_decision_id ≡ n.related_decision_id
    → was_told db clock n ≡ b
    → told_in
        (told b (place db clock n held none) db).1.rows
        n.store_id
        n.related_decision_id
        (day_of clock.now)
      ≡ true
unfolding told was_told
told-told db clock n held true ne c e = e
told-told db clock n held false ne c e = place-told db clock n held ne c

-- After a notice about a decision whose id is not empty and has at most 64 characters, when there was no
-- unread row of its digest group into which it was merged, a later notice of the same day on the same
-- decision of the store, whatever it says, changes nothing.
pub notify_store_owner-again :
    (db : NotifyDb) (clock later : Clock) (n m : Notice)
    → n.related_decision_id ≢ ""
    → cut 64 n.related_decision_id ≡ n.related_decision_id
    → digest_row db clock n ≡ none
    → day_of later.now ≡ day_of clock.now
    → m.store_id ≡ n.store_id
    → m.related_decision_id ≡ n.related_decision_id
    → notify_store_owner (notify_store_owner db clock n).1 later m
      ≡ (none, (notify_store_owner db clock n).1)
unfolding notify_store_owner was_told told
notify_store_owner-again db clock later n m ne c fresh day st de =
    rw
      (
        fresh,
        st,
        de,
        day,
        told-told db clock n (held_back db clock n) (was_told db clock n) ne c refl,
      )
      refl
