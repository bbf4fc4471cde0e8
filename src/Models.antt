-- ===== src/Models.antt =====
-- The rows that the services share: app/models/ohre.py and app/models/entities.py, with the keys of
-- their JSON columns that the modelled code reads. A text that is absent is "", as Python's `or` reads
-- it; ids are numbers that the database hands out, timestamps are seconds, prices are cents.
use meal_key_ecosystem.Base.{
  ℕ, String, Bool, Option, none, some, List, [], ◌∷◌, ◌≡◌, arith, eq_nat, first, update,
  if◌then◌else◌, ◌++◌, suc, refl,
}

abbrev pub RowId : Type 0
RowId = ℕ

abbrev pub Time : Type 0
Time = ℕ

-- `object_ref`: `item:<id>`, or any other text
pub data ObjectRef : Type 0 where
  item_ref : RowId → ObjectRef
  loop_ref : RowId → ObjectRef
  other_ref : String → ObjectRef

pub data RecStatus : Type 0 where
  proposed adopted executed archived : RecStatus

-- an image address, or `mealkey://optimized-main-image/<item>?v=<timestamp>`
pub data Image : Type 0 where
  url : String → Image
  optimized : RowId → Time → Image

-- the result of `apply_plan`, stored as `content["domain_execution"]`
pub record Execution : Type 0 where
  pub applied : Bool
  pub mode : String
  pub action : String
  pub item_id : Option RowId
  pub created_item_id : Option RowId
  pub previous_version_id : Option RowId
  pub new_version_id : Option RowId
  pub rolled_back_at : Option Time

-- `content["execution_commit"]`
pub record ExecutionCommit : Type 0 where
  pub by_whom : String
  pub actor : String
  pub at_time : Time
  pub verified : Bool

-- `content["product_suggestion"]` and its `generated_content`
pub record Suggestion : Type 0 where
  pub action_type : String
  pub title : String
  pub suggested_title : String
  pub title_candidate : String
  pub bundle_name : String
  pub suggested_price : Option ℕ
  pub image_url : String
  pub optimized_image_url : String

-- `content["menu_cleanup"]`
pub record MenuCleanup : Type 0 where
  pub item_id : Option RowId

-- `content["menu_patch"]`
pub record MenuPatch : Type 0 where
  pub item_name : String
  pub name : String
  pub suggested_price : Option ℕ
  pub price : Option ℕ
  pub suggested_category : String
  pub category : String

-- `content["menu_bundle"]`
pub record MenuBundle : Type 0 where
  pub bundle_name : String
  pub suggested_price : Option ℕ

-- the keys of `content_json`
pub record Content : Type 0 where
  pub product_suggestion : Suggestion
  pub menu_cleanup : Option MenuCleanup
  pub menu_patch : Option MenuPatch
  pub menu_bundle : Option MenuBundle
  pub domain_execution : Option Execution
  pub executed_in_system : Bool
  pub execution_commit : Option ExecutionCommit
  pub rolled_back : Bool
  pub execution_mode : String
  pub executor : String
  pub trust_level : Option ℕ

pub record Recommendation : Type 0 where
  pub id : RowId
  pub store_id : RowId
  pub work_thread_id : Option RowId
  pub object_ref : ObjectRef
  pub action_type : String
  pub expected_metric : String
  pub window_hours : ℕ
  pub confidence : ℕ  -- in millionths
  pub content : Content
  pub status : RecStatus
  pub adopted_at : Option Time
  pub executed_at : Option Time
  pub created_at : Time

pub record Menu : Type 0 where
  pub id : RowId
  pub store_id : RowId
  pub status : String

pub record MenuItemVersion : Type 0 where
  pub id : RowId
  pub item_id : RowId
  pub name : String
  pub category : String
  pub price : Option ℕ
  pub description : String
  pub image_url : Option Image
  pub source : String

pub record MenuItem : Type 0 where
  pub id : RowId
  pub store_id : RowId
  pub menu_id : RowId
  pub is_active : Bool
  pub current_version_id : Option RowId

pub record Db : Type 0 where
  pub menus : List Menu
  pub items : List MenuItem
  pub versions : List MenuItemVersion
  pub next_id : RowId

-- `db.get(MenuItem, id)`
unfoldable pub get_item : Db → RowId → Option MenuItem
get_item db i = first (λ m. eq_nat m.id i) db.items

-- `db.get(MenuItemVersion, id)`
pub get_version : Db → RowId → Option MenuItemVersion
get_version db i = first (λ v. eq_nat v.id i) db.versions

-- `item.is_active = b` and `item.current_version_id = v` on the row with an id
unfoldable pub set_active : Db → RowId → Bool → Db
set_active db i b = record db {
  items = update (λ m. eq_nat m.id i) (λ m. record m { is_active = b }) db.items;
}

unfoldable pub set_version : Db → RowId → RowId → Db
set_version db i v = record db {
  items = update (λ m. eq_nat m.id i) (λ m. record m { current_version_id = some v }) db.items;
}

unfoldable pub add_version : Db → MenuItemVersion → Db
add_version db v = record db { versions = db.versions ++ v ∷ []; next_id = suc db.next_id }

abbrev pub with_active : Bool → Option MenuItem → Option MenuItem
with_active b none = none
with_active b (some m) = some (record m { is_active = b })

abbrev pub with_version : RowId → Option MenuItem → Option MenuItem
with_version v none = none
with_version v (some m) = some (record m { current_version_id = some v })

active_rows :
    (i j : RowId) (b : Bool) (xs : List MenuItem)
    → first (λ m. eq_nat m.id j) (update (λ m. eq_nat m.id i) (λ m. record m { is_active = b }) xs)
      ≡ (if eq_nat i j
          then with_active b (first (λ m. eq_nat m.id j) xs)
          else first (λ m. eq_nat m.id j) xs)
unfolding first update
active_rows i j b [] = ground arith
active_rows i j b (m ∷ xs) = ground (arith, active_rows i j b xs)

version_rows :
    (i j v : RowId) (xs : List MenuItem)
    → first
        (λ m. eq_nat m.id j)
        (update (λ m. eq_nat m.id i) (λ m. record m { current_version_id = some v }) xs)
      ≡ (if eq_nat i j
          then with_version v (first (λ m. eq_nat m.id j) xs)
          else first (λ m. eq_nat m.id j) xs)
unfolding first update
version_rows i j v [] = ground arith
version_rows i j v (m ∷ xs) = ground (arith, version_rows i j v xs)

pub get_item-set_active :
    (db : Db) (i j : RowId) (b : Bool)
    → get_item (set_active db i b) j
      ≡ (if eq_nat i j then with_active b (get_item db j) else get_item db j)
unfolding get_item set_active
get_item-set_active db i j b = active_rows i j b db.items

pub get_item-set_version :
    (db : Db) (i j v : RowId)
    → get_item (set_version db i v) j
      ≡ (if eq_nat i j then with_version v (get_item db j) else get_item db j)
unfolding get_item set_version
get_item-set_version db i j v = version_rows i j v db.items

pub get_item-add_version :
    (db : Db) (v : MenuItemVersion) (j : RowId) → get_item (add_version db v) j ≡ get_item db j
unfolding get_item add_version
get_item-add_version db v j = refl

pub add_item : Db → MenuItem → Db
add_item db m = record db { items = db.items ++ m ∷ [] }

first_kept :
    (j : RowId) (xs ys : List MenuItem) (m : MenuItem)
    → first (λ x. eq_nat x.id j) xs ≡ some m
    → first (λ x. eq_nat x.id j) (xs ++ ys) ≡ some m
unfolding first
first_kept j [] ys m h = cc
first_kept j (x ∷ xs) ys m h = ground (arith, first_kept j xs ys m)

-- an insertion hides no row
pub get_item-add_item :
    (db : Db) (x : MenuItem) (j : RowId) (m : MenuItem)
    → get_item db j ≡ some m
    → get_item (add_item db x) j ≡ some m
unfolding get_item add_item
get_item-add_item db x j m h = first_kept j db.items (x ∷ []) m h

-- a query by id reads the table of items only
pub get_item-items : (d e : Db) (j : RowId) → d.items ≡ e.items → get_item d j ≡ get_item e j
unfolding get_item
get_item-items d e j h = rw h
