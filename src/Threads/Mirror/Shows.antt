-- ===== src/Threads/Mirror/Shows.antt =====
-- The thread of a matter, `sync_loop_thread` of app/services/thread_engine.py.
use meal_key_ecosystem.Base.{
  none, some, [], ◌∷◌, true, false, Option, List, ◌≡◌, String, length, keep, Bool, ◌≤◌, Holds, not,
  arith, eq_nat, ◌+◌, refl, or_text, keep-append_none, keep-update_other, Holds-map, last_such,
  length-append, cut, ◌∙◌, eq_nat-eq, strip, Bool-cases, first-Holds, last_such_passes,
  length-update, any_of, ◌&&◌, inl, inr,
}
use meal_key_ecosystem.Models.{RowId}
use meal_key_ecosystem.Loop.State.{Item}
use meal_key_ecosystem.Loop.Thread.{Pack, ThreadState}
use meal_key_ecosystem.Threads.{
  OperatingThread, ThreadDb, ensure_thread_for_action, ensured, preferred_thread, is_active_of,
  new_thread, create_for, create_thread_as, create_thread,
}
use meal_key_ecosystem.Threads.Mirror.{
  failure, done_before, asking, running, watching, resulting, filed, nothing_new, Facts,
  sync_loop_thread, write_mirror, mirrored, report_of, report_in,
}

-- the states in which a matter waits for the owner: nothing is decided, or there is a result
abbrev pub awaits_owner : Option ThreadState → Bool
awaits_owner none = true
awaits_owner (some ThreadState.need_approval) = true
awaits_owner (some ThreadState.ready_to_execute) = true
awaits_owner (some ThreadState.waiting_result) = true
awaits_owner (some s) = false

-- the threads but one
abbrev pub others : RowId → List OperatingThread → List OperatingThread
others i rows = keep (λ (t : OperatingThread). not (eq_nat t.id i)) rows

-- a thread of the store, and the others as they were
abbrev pub IsOwn : ThreadDb → RowId → OperatingThread × ThreadDb → Type 0
IsOwn db store r =
    ((r.0).store_id ≡ store)
    × (others ((r.0).id) ((r.1).rows) ≡ others ((r.0).id) db.rows)
    × (length ((r.1).rows) ≤ length db.rows + 1)

own_id :
    (i store : RowId) (title goal : String)
    → (let t = new_thread i store title goal none in not (eq_nat t.id i) ≡ false)
unfolding new_thread
own_id i store title goal = ground arith

ensured-IsOwn :
    (db : ThreadDb) (store : RowId) (preferred : Option RowId) (title goal : String)
    (o newest : Option OperatingThread)
    → Holds (λ (t : OperatingThread). t.store_id ≡ store) o
    → Holds (λ (t : OperatingThread). t.store_id ≡ store) newest
    → Holds (IsOwn db store) (ensured db store preferred title goal o newest)
unfolding ensured create_for create_thread create_thread_as
ensured-IsOwn db store preferred title goal (some t) newest h k = (h, refl, omega arith)
ensured-IsOwn db store preferred title goal none (some t) h k = (k, refl, omega arith)
ensured-IsOwn db store none title goal none none h k = (
  refl,
  keep-append_none (λ (t : OperatingThread). not (eq_nat t.id db.next_id)) db.rows
      (new_thread db.next_id store title goal none) (own_id db.next_id store title goal),
  omega (arith, length-append db.rows (new_thread db.next_id store title goal none ∷ [])),
)
ensured-IsOwn db store (some i) title goal none none h k =
    elim (Bool-cases (any_of (λ (x : OperatingThread). eq_nat x.id i) db.rows)) [
      | inl e ↦ rw e tt
      | inr e ↦ rw e (
        refl,
        keep-append_none (λ (t : OperatingThread). not (eq_nat t.id i)) db.rows
            (new_thread i store title goal none) (own_id i store title goal),
        omega (arith, length-append db.rows (new_thread i store title goal none ∷ [])),
      )
    ]

store_of_first :
    (db : ThreadDb) (store : RowId) (preferred : Option RowId)
    → Holds (λ (t : OperatingThread). t.store_id ≡ store) (preferred_thread db store preferred)
unfolding preferred_thread
store_of_first db store none = tt
store_of_first db store (some i) =
    Holds-map (λ (t : OperatingThread). eq_nat t.store_id store && eq_nat t.id i ≡ true)
      (λ (t : OperatingThread). t.store_id ≡ store) (preferred_thread db store (some i))
      (λ (t : OperatingThread) e. eq_nat-eq t.store_id store (ground (arith, e)))
      (first-Holds (λ (t : OperatingThread). eq_nat t.store_id store && eq_nat t.id i) db.rows)

store_of_newest :
    (db : ThreadDb) (store : RowId)
    → Holds (λ (t : OperatingThread). t.store_id ≡ store) (last_such (is_active_of store) db.rows)
unfolding is_active_of
store_of_newest db store =
    Holds-map (λ (t : OperatingThread). is_active_of store t ≡ true)
      (λ (t : OperatingThread). t.store_id ≡ store) (last_such (is_active_of store) db.rows)
      (λ (t : OperatingThread) e. eq_nat-eq t.store_id store (ground (arith, e)))
      (last_such_passes (is_active_of store) db.rows)

report_awaits :
    (x : Item) (p : Pack) (f : Facts) (s : Option ThreadState) (failed : String)
    (done : List String)
    → (report_in x p f s failed done).needs_owner ≡ awaits_owner s
unfolding report_in asking running watching resulting filed nothing_new
report_awaits x p f none failed done = refl
report_awaits x p f (some ThreadState.discovered) failed done = refl
report_awaits x p f (some ThreadState.analyzing) failed done = refl
report_awaits x p f (some ThreadState.need_information) failed done = refl
report_awaits x p f (some ThreadState.need_approval) failed done = refl
report_awaits x p f (some ThreadState.ready_to_execute) failed done = refl
report_awaits x p f (some ThreadState.approved) failed done = refl
report_awaits x p f (some ThreadState.executing) failed done = refl
report_awaits x p f (some ThreadState.observing) failed done = refl
report_awaits x p f (some ThreadState.waiting_result) failed done = refl
report_awaits x p f (some ThreadState.completed) failed done = refl
report_awaits x p f (some ThreadState.failed) failed done = refl
report_awaits x p f (some ThreadState.cancelled) failed done = refl
report_awaits x p f (some ThreadState.no_effect) failed done = refl

written-IsOwn :
    (db : ThreadDb) (x : Item) (p : Pack) (f : Facts) (o : Option (OperatingThread × ThreadDb))
    → Holds (IsOwn db x.store_id) o
    → Holds
        (λ (r : OperatingThread × ThreadDb).
          IsOwn db x.store_id r × ((r.0).needs_owner ≡ awaits_owner p.thread_status))
        (write_mirror x p f o)
unfolding write_mirror mirrored report_of
written-IsOwn db x p f none h = tt
written-IsOwn db x p f (some (t, after)) h = (
  (
    h.0,
    keep-update_other (λ (y : OperatingThread). not (eq_nat y.id t.id))
          (λ (y : OperatingThread). eq_nat y.id t.id) (mirrored x p f) after.rows
          (λ y e. (ground (arith, e), ground (arith, e)))
        ∙ h.1,
    omega (
      arith,
      h.2,
      length-update (λ (y : OperatingThread). eq_nat y.id t.id) (mirrored x p f) after.rows,
    ),
  ),
  report_awaits x p f p.thread_status (failure p.writeback) (done_before p f),
)

-- Mirroring a matter either fails or writes one thread, which is the store's of the matter: every other
-- thread is as before, at most one is new. The thread says that it needs the owner exactly while the
-- matter's pack asks for the approval, names no state, or waits for a result.
pub sync_loop_thread-IsOwn :
    (db : ThreadDb) (x : Item) (p : Pack) (f : Facts)
    → Holds
        (λ (r : OperatingThread × ThreadDb).
          IsOwn db x.store_id r × ((r.0).needs_owner ≡ awaits_owner p.thread_status))
        (sync_loop_thread db x p f)
unfolding sync_loop_thread ensure_thread_for_action
sync_loop_thread-IsOwn db x p f =
    written-IsOwn db x p f
      (ensure_thread_for_action db x.store_id (or_text x.title "经营闭环") (or_text x.title "持续推进经营闭环")
        (some x.id))
      (ensured-IsOwn db x.store_id (some x.id)
        (or_text (cut 100 (strip (or_text x.title "经营闭环"))) "经营优化")
        (strip (or_text (or_text x.title "持续推进经营闭环") (or_text (or_text x.title "经营闭环") "持续推进经营优化")))
        (preferred_thread db x.store_id (some x.id)) (last_such (is_active_of x.store_id) db.rows)
        (store_of_first db x.store_id (some x.id)) (store_of_newest db x.store_id))
