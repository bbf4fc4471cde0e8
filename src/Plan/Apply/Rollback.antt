-- ===== src/Plan/Apply/Rollback.antt =====
-- What `rollback_recommendation` restores after `apply_plan`.
use meal_key_ecosystem.Base.{◌≡◌, true, false, some, ◌==◌, arith, is_some, not, or_else}
use meal_key_ecosystem.Models.{
  RowId, Time, Recommendation, MenuItem, Db, get_item, get_item-set_active, get_item-set_version,
  get_item-add_version, add_version, set_version, set_active,
}
use meal_key_ecosystem.Plan.{in_system, ChangePlan, current_version}
use meal_key_ecosystem.Plan.Apply.{
  Outcome, not_applied, next_version, apply_plan, apply_version, apply_cleanup,
}
use meal_key_ecosystem.Plan.Apply.Undo.{rollback_recommendation}

-- `apply_plan`, then `rollback_recommendation` of the same recommendation
abbrev pub apply_then_rollback : Db → Recommendation → ChangePlan → Time → Outcome
apply_then_rollback db rec plan now =
    let (db', rec', e) = apply_plan db rec plan in rollback_recommendation db' rec' now

-- a plan for one existing row of the menu, and a recommendation that was not rolled back
pub record IsForItem (db : Db) (rec : Recommendation) (plan : ChangePlan) (i : RowId) (m : MenuItem)
    : Type 0 where
  pub mode : plan.mode ≡ in_system
  pub keeps_rows : plan.creates_item ≡ false
  pub target : plan.target_item_id ≡ some i
  pub found : get_item db i ≡ some m
  pub fresh : rec.content.rolled_back ≡ false

module _ (db : Db) (rec : Recommendation) (plan : ChangePlan) (i : RowId) (m : MenuItem)
    (h : IsForItem db rec plan i m) where
  applied_version :
      (plan.action == "menu_cleanup") ≡ false
      → apply_plan db rec plan ≡ apply_version db rec plan i m
  unfolding apply_plan
  applied_version ha = ground arith

  applied_cleanup :
      (plan.action == "menu_cleanup") ≡ true
      → apply_plan db rec plan ≡ apply_cleanup db rec plan i m
  unfolding apply_plan
  applied_cleanup ha = ground arith

  -- A versioned change of an existing item that had a version, of a recommendation that was not rolled
  -- back before, then its rollback: the rollback is reported as applied, and every menu item reads as it
  -- did before the change.
  pub rollback-apply_version :
      (now v : RowId)
      → m.current_version_id ≡ some v
      → (plan.action == "menu_cleanup") ≡ false
      → ((apply_then_rollback db rec plan now).2.mode ≡ "rolled_back")
        × ((j : RowId) → get_item (apply_then_rollback db rec plan now).0 j ≡ get_item db j)
  unfolding rollback_recommendation apply_version
  rollback-apply_version now v hv ha =
      let new = next_version db plan m (current_version db m) in
      let db1 = add_version db new in
      let facts = get_item-add_version db new in
      rw (applied_version ha) (
        ground (arith, h.fresh, h.found, facts i, get_item-set_version db1 i i new.id),
        λ j. ground (
          arith,
          h.fresh,
          h.found,
          facts i,
          facts j,
          get_item-set_version db1 i i new.id,
          get_item-set_version db1 i j new.id,
          get_item-set_version (set_version db1 i new.id) i j v,
        ),
      )

  -- A clean-up of an existing item, of a recommendation that was not rolled back before, then its
  -- rollback: the rollback is reported as applied, and the item is active if it had no version, and
  -- deactivated if it had one.
  pub rollback-apply_cleanup :
      (now : RowId)
      → (plan.action == "menu_cleanup") ≡ true
      → ((apply_then_rollback db rec plan now).2.mode ≡ "rolled_back")
        × (get_item (apply_then_rollback db rec plan now).0 i
            ≡ some (record m { is_active = not (is_some m.current_version_id) }))
  unfolding rollback_recommendation apply_cleanup
  rollback-apply_cleanup now ha =
      let off = get_item-set_active db i i false in
      rw (applied_cleanup ha) (
        ground (arith, h.fresh, h.found, off),
        ground (
          arith,
          h.fresh,
          h.found,
          off,
          get_item-set_active (set_active db i false) i i true,
          get_item-set_version (set_active db i false) i i (or_else m.current_version_id 0),
        ),
      )

-- A rollback that is reported as applied is the last one: a second rollback of the same recommendation
-- reports `idempotent` and changes neither the database nor the recommendation.
pub rollback_twice :
    (db : Db) (rec : Recommendation) (now later : Time)
    → (rollback_recommendation db rec now).2.applied ≡ true
    → rollback_recommendation
        (rollback_recommendation db rec now).0
        (rollback_recommendation db rec now).1
        later
      ≡ (
        (rollback_recommendation db rec now).0,
        (rollback_recommendation db rec now).1,
        not_applied "idempotent" "",
      )
unfolding rollback_recommendation
rollback_twice db rec now later h = ground arith
