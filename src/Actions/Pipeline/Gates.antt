-- ===== src/Actions/Pipeline/Gates.antt =====
-- What a recommendation has passed when it is `executed`, and what an error leaves behind.
use meal_key_ecosystem.Plan.{build_change_plan}
use meal_key_ecosystem.Plan.Apply.Effects.{apply_plan_keeps}
use meal_key_ecosystem.Plan.Apply.{Outcome}
use meal_key_ecosystem.Base.{
  ◌≡◌, String, Bool, true, none, arith, or_text, is_some, ◌==◌, if◌then◌else◌, some, refl,
}
use meal_key_ecosystem.Models.{Time, executed, Recommendation, Db, Execution}
use meal_key_ecosystem.Actions.Registry.{build_action_spec}
use meal_key_ecosystem.Actions.Capability.{assert_action_executable, requires_approval_always}
use meal_key_ecosystem.Actions.Executor.{
  execute_recommendation_domain, normalize_action, already_applied,
}
use meal_key_ecosystem.Actions.Pipeline.{
  committed, Settings, run_recommendation_pipeline, strip, PipelineError, capability_check, raised,
  false, invalid_action, need_approval, authorize, verify_and_commit,
  commit_recommendation_executed, stamp_commit,
}

spec_requires : (t : String) → (build_action_spec t none).requires_approval ≡ true
unfolding build_action_spec
spec_requires t = requires_approval_always t

-- the codes of the stages up to AUTHORIZE
abbrev pub is_before_execution : PipelineError → Bool
is_before_execution invalid_action = true
is_before_execution need_approval = true
is_before_execution (capability_check c) = true
is_before_execution _ = false

-- carrying a recommendation out does not touch its status
domain_status :
    (db : Db) (rec : Recommendation) (now : Time)
    → (execute_recommendation_domain db rec now).1.status ≡ rec.status
unfolding execute_recommendation_domain normalize_action
domain_status db rec now =
    let rec' = normalize_action rec in
    ground (arith, apply_plan_keeps db rec' (build_change_plan db rec' now))

-- A verified commit always goes through, and an unverified one never does.
pub commit_recommendation_executed_lem :
    (rec : Recommendation) (now : Time) (actor : String) (verified : Bool)
    → commit_recommendation_executed rec now actor verified ≡ (
        if verified then some (stamp_commit (record rec { status = executed }) now actor) else none)
unfolding commit_recommendation_executed
commit_recommendation_executed_lem rec now actor verified = ground arith

module _ (s : Settings) (db : Db) (rec : Recommendation) (now : Time) (actor : String)
    (approved : Bool) where
  -- A run that commits had the approval, an executable action and an execution that reports the change as
  -- applied (also one that was applied before, whether rolled back since or not) and does not wait for the
  -- platform. It answers with that execution's result and leaves the database as that execution left it;
  -- the recommendation is then `executed`, the times of its adoption and its execution are set, and its
  -- audit holds a verified commit of the pipeline with the actor and the time of the run.
  pub pipeline_committed :
      (e : Execution)
      → (run_recommendation_pipeline s db rec now actor approved).0 ≡ committed e
      → (approved ≡ true)
        × (assert_action_executable (or_text rec.action_type "ops_hint") ≡ none)
        × (e ≡ (execute_recommendation_domain db rec now).2)
        × (e.applied ≡ true)
        × ((e.mode == "awaiting_platform") ≡ false)
        × ((run_recommendation_pipeline s db rec now actor approved).1
            ≡ (execute_recommendation_domain db rec now).0)
        × ((run_recommendation_pipeline s db rec now actor approved).2.status ≡ executed)
        × ((run_recommendation_pipeline s db rec now actor approved).2.content.execution_commit
            ≡ some (record {
              by_whom = "action_pipeline";
              actor = actor;
              at_time = now;
              verified = true;
            }))
        × (is_some (run_recommendation_pipeline s db rec now actor approved).2.adopted_at ≡ true)
        × (is_some (run_recommendation_pipeline s db rec now actor approved).2.executed_at ≡ true)
  unfolding run_recommendation_pipeline authorize verify_and_commit
  pipeline_committed e h = ground (arith, spec_requires (or_text rec.action_type "ops_hint"))

  verify_keeps_status :
      (o : Outcome) (e : PipelineError)
      → (verify_and_commit s now actor o).0 ≡ raised e
      → ((verify_and_commit s now actor o).2.status ≡ o.1.status) × (is_before_execution e ≡ false)
  unfolding verify_and_commit
  verify_keeps_status o e h = (ground arith, ground arith)

  -- A run that raises leaves the recommendation's status as it was.
  pub pipeline_raised :
      (e : PipelineError)
      → (run_recommendation_pipeline s db rec now actor approved).0 ≡ raised e
      → (run_recommendation_pipeline s db rec now actor approved).2.status ≡ rec.status
  unfolding run_recommendation_pipeline authorize
  pipeline_raised e h = ground (
    arith,
    domain_status db rec now,
    verify_keeps_status (execute_recommendation_domain db rec now) e,
  )

  -- A run that raises before the execution (no action type, an action that may not be executed, no
  -- approval) leaves the recommendation and the database as they were.
  pub pipeline_raised_early :
      (e : PipelineError)
      → (run_recommendation_pipeline s db rec now actor approved).0 ≡ raised e
      → is_before_execution e ≡ true
      → ((run_recommendation_pipeline s db rec now actor approved).1 ≡ db)
        × ((run_recommendation_pipeline s db rec now actor approved).2 ≡ rec)
  unfolding run_recommendation_pipeline authorize
  pipeline_raised_early e h b =
      let late = verify_keeps_status (execute_recommendation_domain db rec now) e in
      (ground (arith, late), ground (arith, late))

  domain_again :
      rec.content.executed_in_system ≡ true
      → execute_recommendation_domain db rec now ≡ (db, rec, already_applied rec.action_type)
  unfolding execute_recommendation_domain
  domain_again h = rw h

  verify_applied :
      (d : Db) (r : Recommendation) (e : Execution)
      → e.applied ≡ true
      → (e.mode == "awaiting_platform") ≡ false
      → ((verify_and_commit s now actor (d, r, e)).2.status ≡ executed)
        × ((verify_and_commit s now actor (d, r, e)).1 ≡ d)
  unfolding verify_and_commit
  verify_applied d r e h m = (ground arith, ground arith)

  -- the gates are open: the run is the execution and what follows it
  gates_open :
      approved ≡ true
      → assert_action_executable (or_text rec.action_type "ops_hint") ≡ none
      → (strip (or_text rec.action_type "ops_hint") == "") ≡ false
      → run_recommendation_pipeline s db rec now actor approved
        ≡ verify_and_commit s now actor (execute_recommendation_domain db rec now)
  unfolding run_recommendation_pipeline authorize
  gates_open a c n = rw (n, c, spec_requires (or_text rec.action_type "ops_hint"), a) refl

  -- An approved run of a recommendation whose change was carried out before, rolled back or not,
  -- commits, and the menu stays as it is.
  pub pipeline_again :
      rec.content.executed_in_system ≡ true
      → approved ≡ true
      → assert_action_executable (or_text rec.action_type "ops_hint") ≡ none
      → (strip (or_text rec.action_type "ops_hint") == "") ≡ false
      → ((run_recommendation_pipeline s db rec now actor approved).2.status ≡ executed)
        × ((run_recommendation_pipeline s db rec now actor approved).1 ≡ db)
  unfolding already_applied
  pipeline_again h a c n =
      rw (gates_open a c n, domain_again h)
        (verify_applied db rec (already_applied rec.action_type) refl refl)
