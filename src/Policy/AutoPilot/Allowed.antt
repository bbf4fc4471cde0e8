-- ===== src/Policy/AutoPilot/Allowed.antt =====
-- What the automatic execution may touch.
use meal_key_ecosystem.Actions.Pipeline.Gates.{commit_recommendation_executed_lem}
use meal_key_ecosystem.Plan.Apply.Effects.{apply_plan_keeps}
use meal_key_ecosystem.Policy.Memory.{StrategyMemory, arbitrate_execution_mode, get_trust_level}
use meal_key_ecosystem.Plan.Apply.{apply_plan}
use meal_key_ecosystem.Policy.{
  drop_action, auto_and_report, ask_approval, observe, auto_executable_actions, Mode,
}
use meal_key_ecosystem.Actions.Pipeline.{commit_recommendation_executed, stamp_commit}
use meal_key_ecosystem.Plan.{ChangePlan, build_change_plan}
use meal_key_ecosystem.Policy.AutoPilot.{
  Entry, insert_by_confidence, sort_by_confidence, candidates, report_done, carry_out, dispatch,
  State, auto_execute_recommendations, loop, visit, request_for, is_in_system_mode,
}
use meal_key_ecosystem.Models.{Recommendation, Time, Db, executed, RowId}
use meal_key_ecosystem.Base.{
  ℕ, ◌≡◌, is_in, List, All, ◌∷◌, All-take, true, All-append, keep-All, Bool-cases, is_some, arith,
  ltb, inl, inr, [], String, leb, length, refl, ◌-◌, not, ◌*◌, eq_nat, ◌||◌,
}

-- an entry is a recommendation of the store with an allowlisted action, and one that was applied has
-- gone through the commit
pub record IsAllowed (store : RowId) (e : Entry) : Type 0 where
  pub own : e.row.store_id ≡ store
  pub listed : is_in e.row.action_type auto_executable_actions ≡ true
  pub committed :
      e.applied ≡ true → (e.row.status ≡ executed) × (is_some e.row.content.execution_commit ≡ true)
  pub signed : e.applied ≡ true → e.row.content.executor ≡ "AI"

-- a row that the query may return
pub record IsCandidate (store : RowId) (r : Recommendation) : Type 0 where
  pub own : r.store_id ≡ store
  pub listed : is_in r.action_type auto_executable_actions ≡ true

module _ (store : RowId) where
  insert-All :
      (r : Recommendation) (rs : List Recommendation)
      → IsCandidate store r
      → All (IsCandidate store) rs
      → All (IsCandidate store) (insert_by_confidence r rs)
  unfolding insert_by_confidence
  insert-All r [] h hs = (h, tt)
  insert-All r (x ∷ xs) h hs = elim (Bool-cases (ltb x.confidence r.confidence)) [
    | inl e ↦ rw e (h, hs)
    | inr e ↦ rw e (hs.0, insert-All r xs h hs.1)
  ]

  sort-All :
      (rs : List Recommendation)
      → All (IsCandidate store) rs
      → All (IsCandidate store) (sort_by_confidence rs)
  unfolding sort_by_confidence
  sort-All [] h = tt
  sort-All (r ∷ rs) h = insert-All r (sort_by_confidence rs) h.0 (sort-All rs h.1)

  candidates-All :
      (recs : List Recommendation) (cutoff : Time)
      → All (IsCandidate store) (candidates recs store cutoff)
  unfolding candidates
  candidates-All recs cutoff =
      All-take (IsCandidate store) 20 _
        (sort-All _ (keep-All (IsCandidate store) _ recs (λ r h. ground arith)))

  report-All :
      (s : State) (db : Db) (now : Time) (trust : ℕ) (r : Recommendation)
      → IsCandidate store r
      → All (IsAllowed store) s.done
      → All
          (IsAllowed store)
          (report_done s db trust (commit_recommendation_executed r now "auto_pilot" true)).done
  unfolding report_done stamp_commit
  report-All s db now trust r c h =
      rw (commit_recommendation_executed_lem r now "auto_pilot" true) (
        All-append (IsAllowed store) s.done _ h (
          record {
            own = c.own;
            listed = c.listed;
            committed = λ e. (refl, refl);
            signed = λ e. refl;
          },
          tt,
        ))

  module _ (now : Time) (trust : ℕ) (rec : Recommendation) (plan : ChangePlan)
      (c : IsCandidate store rec) where
    carry_out-All :
        (s : State)
        → All (IsAllowed store) s.done
        → All (IsAllowed store) (carry_out now trust rec plan s).done
    unfolding carry_out
    carry_out-All s h =
        let (db', rec', e) = apply_plan s.db rec plan in
        let (_, own, listed) = apply_plan_keeps s.db rec plan in
        elim (Bool-cases e.applied) [
          | inl y ↦ rw y (
              report-All s db' now trust rec'
                (record { own = rw own c.own; listed = rw listed c.listed }) h)
          | inr n ↦ rw n h
        ]

    dispatch-All :
        (mode : Mode) (s : State)
        → All (IsAllowed store) s.done
        → All (IsAllowed store) (dispatch mode now trust rec plan s).done
    unfolding dispatch
    dispatch-All drop_action s h =
        All-append (IsAllowed store) s.done _ h
          (record { own = c.own; listed = c.listed; committed = λ e. cc; signed = λ e. cc }, tt)
    dispatch-All auto_and_report s h = carry_out-All s h
    dispatch-All ask_approval s h = h
    dispatch-All observe s h = h

  visit-All :
      (rows : List StrategyMemory) (now : Time) (trust : ℕ) (rec : Recommendation) (s : State)
      → IsCandidate store rec
      → All (IsAllowed store) s.done
      → All (IsAllowed store) (visit rows store now trust rec s).done
  unfolding visit
  visit-All rows now trust rec s c h =
      let plan = build_change_plan s.db rec now in
      let (mode, log) = arbitrate_execution_mode rows store (request_for rec trust) s.log in
      elim (Bool-cases (not (is_in_system_mode plan.mode) || not plan.reversible)) [
        | inl y ↦ rw y h
        | inr n ↦ rw n (dispatch-All now trust rec plan c mode (record s { log = log }) h)
      ]

  loop-All :
      (rows : List StrategyMemory) (now : Time) (trust max_actions : ℕ) (recs : List Recommendation)
      (s : State)
      → All (IsCandidate store) recs
      → All (IsAllowed store) s.done
      → All (IsAllowed store) (loop rows store now trust max_actions recs s).done
  unfolding loop
  loop-All rows now trust max_actions [] s c h = h
  loop-All rows now trust max_actions (rec ∷ recs) s c h =
      elim (Bool-cases (leb max_actions (length s.done))) [
        | inl y ↦ rw y h
        | inr n ↦ rw n (
            loop-All rows now trust max_actions recs (visit rows store now trust rec s) c.1
              (visit-All rows now trust rec s c.0 h))
      ]

-- Everything that an automatic run reports is a recommendation of its store with an action on the
-- allowlist; what it reports as applied is committed as executed and signed by the AI.
pub auto_execute-IsAllowed :
    (rows : List StrategyMemory) (store : RowId) (now : Time) (setting : String)
    (max_actions lookback : ℕ) (recs : List Recommendation) (db : Db)
    → All
        (IsAllowed store)
        (auto_execute_recommendations rows store now setting max_actions lookback recs db).done
unfolding auto_execute_recommendations
auto_execute-IsAllowed rows store now setting max_actions lookback recs db =
    let start : State = record { db = db; log = []; done = [] } in
    let trust = get_trust_level setting in
    let found = candidates recs store (now - lookback * 86400) in
    elim (Bool-cases (eq_nat trust 0)) [
      | inl y ↦ rw y tt
      | inr n ↦ rw n (
          loop-All store rows now trust max_actions found start
            (candidates-All store recs (now - lookback * 86400)) tt)
    ]
