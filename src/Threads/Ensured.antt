-- ===== src/Threads/Ensured.antt =====
-- `ensure_thread_for_action` of app/services/thread_engine.py, asked twice.
use meal_key_ecosystem.Base.{
  none, some, Option, String, ◌≡◌, last_such, Holds, or_text, cut, true, arith, strip,
  last_such-append, refl, eq_nat, Bool-cases, ◌&&◌, any_of, inl, inr, first-append,
}
use meal_key_ecosystem.Models.{RowId}
use meal_key_ecosystem.Threads.{
  OperatingThread, ThreadDb, ensure_thread_for_action, ensured, preferred_thread, create_for,
  new_thread, is_active_of, create_thread, is_active, create_thread_as,
}

active_new :
    (i store : RowId) (title goal : String)
    → is_active_of store (new_thread i store title goal none) ≡ true
unfolding is_active_of is_active new_thread
active_new i store title goal = ground arith

new_is_found :
    (i store : RowId) (title goal : String)
    → (let t = new_thread i store title goal none in
        eq_nat t.store_id store && eq_nat t.id i ≡ true)
unfolding new_thread
new_is_found i store title goal = ground arith

-- what a second call finds after a first one
found_again :
    (db : ThreadDb) (store : RowId) (preferred : Option RowId) (title goal : String)
    (o newest : Option OperatingThread)
    → preferred_thread db store preferred ≡ o
    → last_such (is_active_of store) db.rows ≡ newest
    → Holds
        (λ (r : OperatingThread × ThreadDb).
          ensured r.1 store preferred title goal
            (preferred_thread r.1 store preferred)
            (last_such (is_active_of store) r.1.rows)
          ≡ some r)
        (ensured db store preferred title goal o newest)
unfolding ensured create_for preferred_thread create_thread create_thread_as
found_again db store preferred title goal (some t) newest e f = rw e refl
found_again db store preferred title goal none (some t) e f = rw (e, f) refl
found_again db store none title goal none none e f =
    rw
      (last_such-append (is_active_of store) db.rows (new_thread db.next_id store title goal none)
        (active_new db.next_id store title goal))
      refl
found_again db store (some i) title goal none none e f =
    elim (Bool-cases (any_of (λ (x : OperatingThread). eq_nat x.id i) db.rows)) [
      | inl t ↦ rw t tt
      | inr t ↦
          rw
            (
              t,
              first-append (λ (x : OperatingThread). eq_nat x.store_id store && eq_nat x.id i)
                  db.rows (new_thread i store title goal none) e (new_is_found i store title goal),
            )
            refl
    ]

-- Once a thread is ensured for an action, ensuring it again with the same arguments returns the same
-- thread and writes nothing.
pub ensure_thread_for_action-again :
    (db : ThreadDb) (store : RowId) (title goal : String) (preferred : Option RowId)
    → Holds
        (λ (r : OperatingThread × ThreadDb).
          ensure_thread_for_action r.1 store title goal preferred ≡ some r)
        (ensure_thread_for_action db store title goal preferred)
unfolding ensure_thread_for_action
ensure_thread_for_action-again db store title goal preferred =
    found_again db store preferred (or_text (cut 100 (strip title)) "经营优化")
      (strip (or_text goal (or_text title "持续推进经营优化"))) (preferred_thread db store preferred)
      (last_such (is_active_of store) db.rows) refl refl
