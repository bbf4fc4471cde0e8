-- ===== src/Plan/Tenancy.antt =====
-- A plan changes items of the recommendation's own store only.
use meal_key_ecosystem.Base.{◌≡◌, ◌≢◌, true, some, arith, is_some, Option-cases, inl, inr}
use meal_key_ecosystem.Models.{RowId, Recommendation, MenuItem, Db, get_item}
use meal_key_ecosystem.Plan.{build_change_plan, own_item}
use meal_key_ecosystem.Plan.Apply.{apply_plan}
use meal_key_ecosystem.Plan.Apply.Effects.{apply_plan_elsewhere}

own_item_lem :
    (db : Db) (store i : RowId) {m : MenuItem}
    → own_item db store i ≡ some m
    → (get_item db i ≡ some m) × (m.store_id ≡ store)
unfolding own_item
own_item_lem db store i h = ground arith

-- every plan with a target has looked the item up in the store
target_found :
    (db : Db) (rec : Recommendation) (now i : RowId)
    → (build_change_plan db rec now).target_item_id ≡ some i
    → is_some (own_item db rec.store_id i) ≡ true
unfolding build_change_plan
target_found db rec now i h = ground arith

-- Whatever plan is built, the item that it names exists and belongs to the recommendation's store.
pub build_change_plan_own :
    (db : Db) (rec : Recommendation) (now i : RowId)
    → (build_change_plan db rec now).target_item_id ≡ some i
    → (m : MenuItem) × (get_item db i ≡ some m) × (m.store_id ≡ rec.store_id)
build_change_plan_own db rec now i h = elim (Option-cases (own_item db rec.store_id i)) [
  | inl gone ↦ ground (arith, target_found db rec now i h)
  | inr (m, e) ↦ let (found, own) = own_item_lem db rec.store_id i e in (m, found, own)
]

-- Building a plan and applying it leaves every item of another store as it was.
pub apply_plan-build_elsewhere :
    (db : Db) (rec : Recommendation) (now j : RowId) (m : MenuItem)
    → get_item db j ≡ some m
    → m.store_id ≢ rec.store_id
    → get_item (apply_plan db rec (build_change_plan db rec now)).0 j ≡ some m
apply_plan-build_elsewhere db rec now j m found other =
    apply_plan_elsewhere db rec (build_change_plan db rec now) j m found λ e.
      let (x, at_j, own) = build_change_plan_own db rec now j e in
      other (ground (arith, found, at_j, own))
