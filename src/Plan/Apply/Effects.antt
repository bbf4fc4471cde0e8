-- ===== src/Plan/Apply/Effects.antt =====
-- Which menu items an applied plan can change.
use meal_key_ecosystem.Base.{◌≡◌, ◌≢◌, some, arith, false, or_else, suc, ◌∙◌, refl}
use meal_key_ecosystem.Models.{
  RowId, Recommendation, MenuItem, Db, get_item, get_item-set_active, get_item-set_version,
  get_item-add_version, get_item-add_item, add_version, add_item, get_item-items,
}
use meal_key_ecosystem.Plan.{ChangePlan, current_version}
use meal_key_ecosystem.Plan.Apply.{
  apply_plan, apply_version, apply_cleanup, apply_creation, next_version, ensure_menu, create_item,
  created_item, created_version,
}

module _ (db : Db) (rec : Recommendation) (plan : ChangePlan) (j : RowId) (m : MenuItem)
    (found : get_item db j ≡ some m) where
  menu_items : (ensure_menu db rec.store_id).0.items ≡ db.items
  unfolding ensure_menu
  menu_items = ground arith

  menu_elsewhere : get_item (ensure_menu db rec.store_id).0 j ≡ some m
  menu_elsewhere = get_item-items (ensure_menu db rec.store_id).0 db j menu_items ∙ found

  created_elsewhere :
      (d : Db) (store menu : RowId)
      → get_item d j ≡ some m
      → get_item (create_item d store menu plan) j ≡ some m
  unfolding create_item
  created_elsewhere d store menu h =
      let e : Db = record d { next_id = suc d.next_id } in
      get_item-add_version (add_item e (created_item d store menu)) (created_version d plan) j
      ∙ get_item-add_item e (created_item d store menu) j m (get_item-items e d j refl ∙ h)

  creation_elsewhere : get_item (apply_creation db rec plan).0 j ≡ some m
  unfolding apply_creation
  creation_elsewhere = created_elsewhere (ensure_menu db rec.store_id).0 _ _ menu_elsewhere

  item_elsewhere :
      (i : RowId) (x : MenuItem)
      → i ≢ j
      → (get_item (apply_version db rec plan i x).0 j ≡ some m)
        × (get_item (apply_cleanup db rec plan i x).0 j ≡ some m)
  unfolding apply_version apply_cleanup
  item_elsewhere i x ne =
      let new = next_version db plan x (current_version db x) in
      (
        ground (
          arith,
          found,
          get_item-add_version db new j,
          get_item-set_version (add_version db new) i j new.id,
        ),
        ground (arith, found, get_item-set_active db i j false),
      )

  -- A plan that does not target an item leaves it as it was.
  pub apply_plan_elsewhere :
      plan.target_item_id ≢ some j → get_item (apply_plan db rec plan).0 j ≡ some m
  unfolding apply_plan
  apply_plan_elsewhere ne = ground (
    arith,
    creation_elsewhere,
    item_elsewhere (or_else plan.target_item_id 0)
        (or_else (get_item db (or_else plan.target_item_id 0)) m),
  )

-- applying a plan does not touch these columns of the recommendation
pub apply_plan_keeps :
    (db : Db) (rec : Recommendation) (plan : ChangePlan)
    → ((apply_plan db rec plan).1.status ≡ rec.status)
      × ((apply_plan db rec plan).1.store_id ≡ rec.store_id)
      × ((apply_plan db rec plan).1.action_type ≡ rec.action_type)
unfolding apply_plan
apply_plan_keeps db rec plan = (ground arith, ground arith, ground arith)
