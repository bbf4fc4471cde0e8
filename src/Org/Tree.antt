-- ===== src/Org/Tree.antt =====
-- app/services/org_tree.py: a merchant's brands and stores. The payloads for the page are left out; `none`
-- is a `ValueError`. A key that the request lacks is `none`.
pub mod Rooted
pub mod Opened
use meal_key_ecosystem.Base.{
  if◌then◌else◌, or_text, ◌>>=◌, none, some, [], ◌∷◌, true, false, String, strip, Bool, Option,
  List, update, ◌++◌, first, eq_nat, any_of, suc, keep, map, not, ◌&&◌, is_some, ◌==◌,
}
use meal_key_ecosystem.Models.{RowId, Menu}
use meal_key_ecosystem.Org.{
  OrgDb, Merchant, Brand, Store, Tenant, TenantStore, is_bound, operator_of,
}

pub record EnterpriseData : Type 0 where
  pub name : Option String
  pub location : Option String
  pub brand_name : Option String
  pub category : Option String
  pub cuisine_type : Option String
  pub business_hours : Option String

pub record StoreData : Type 0 where
  pub name : String
  pub city : String
  pub area : String
  pub address : String

pub merchant_of : OrgDb → Store → Option Merchant
merchant_of db s = first (λ (m : Merchant). eq_nat m.id s.merchant_id) db.merchants

put_merchant : OrgDb → Merchant → OrgDb
put_merchant db m = record db {
  merchants = update (λ (x : Merchant). eq_nat x.id m.id) (λ x. m) db.merchants;
}

put_brand : OrgDb → Brand → OrgDb
put_brand db b = record db { brands = update (λ (x : Brand). eq_nat x.id b.id) (λ x. b) db.brands }

default_brand : RowId → Merchant → Store → Brand
default_brand i m s = record {
  id = i;
  merchant_id = m.id;
  name = or_text (strip m.brand_name) (or_text (strip m.name) s.name);
  category = m.category;
  cuisine_type = m.cuisine_type;
  business_hours = m.business_hours;
  status = "active";
}

-- a store of the merchant without a brand
unfoldable pub lacks_brand : RowId → Store → Bool
lacks_brand merchant s = eq_nat s.merchant_id merchant && not (is_some s.brand_id)

adopt_stores : OrgDb → RowId → RowId → OrgDb
adopt_stores db merchant brand = record db {
  stores =
      update (lacks_brand merchant) (λ (s : Store). record s { brand_id = some brand }) db.stores;
}

-- with the first brand of the merchant, or a new one
with_brand : OrgDb → Merchant → Store → Option Brand → Bool × OrgDb
unfolding default_brand adopt_stores
with_brand db m s (some b) = (any_of (lacks_brand m.id) db.stores, adopt_stores db m.id b.id)
with_brand db m s none =
    let b = default_brand db.next_id m s in
    (
      true,
      adopt_stores (record db { brands = db.brands ++ b ∷ []; next_id = suc db.next_id }) m.id b.id,
    )

rooted : OrgDb → Store → Option Merchant → Bool × OrgDb
unfolding with_brand
rooted db s none = (false, db)
rooted db s (some m) =
    with_brand db m s (first (λ (b : Brand). eq_nat b.merchant_id m.id) db.brands)

-- `ensure_org_tree`: whether it wrote something
pub ensure_org_tree : OrgDb → Store → Bool × OrgDb
unfolding rooted merchant_of
ensure_org_tree db s = rooted db s (merchant_of db s)

-- the stores that share the merchant, but for the store itself
sibling : Store → Store → Bool
sibling s x = eq_nat x.merchant_id s.merchant_id && not (eq_nat x.id s.id)

-- a tenant that has a sibling
pub has_sibling : OrgDb → Store → Tenant → Bool
unfolding sibling
has_sibling db s t =
    any_of (λ (x : Store). sibling s x && is_bound db.tenant_stores t.id x.id) db.stores

pub oldest : List Tenant → List Tenant
oldest [] = []
oldest (t ∷ rest) = t ∷ []

or_oldest : List Tenant → List Tenant → List Tenant
unfolding oldest
or_oldest [] all = oldest all
or_oldest (t ∷ rest) all = t ∷ rest

-- the tenants of its siblings, or the oldest tenant
unfoldable tenants_for : OrgDb → Store → List Tenant
unfolding has_sibling or_oldest
tenants_for db s = or_oldest (keep (has_sibling db s) db.tenants) db.tenants

-- `bind_store_to_merchant_tenants`
pub bind_store_to_merchant_tenants : OrgDb → Store → OrgDb
bind_store_to_merchant_tenants db s = record db {
  tenant_stores =
      db.tenant_stores
      ++ map (λ (t : Tenant). operator_of t.id s.id)
          (keep (λ (t : Tenant). not (is_bound db.tenant_stores t.id s.id)) (tenants_for db s));
}

opened_store : RowId → Brand → StoreData → Store
opened_store i b form = record {
  id = i;
  merchant_id = b.merchant_id;
  brand_id = some b.id;
  name = strip form.name;
  city = strip form.city;
  area = strip form.area;
  address = strip form.address;
  status = "active";
}

open_store : OrgDb → Brand → StoreData → Store × OrgDb
unfolding opened_store bind_store_to_merchant_tenants
open_store db b form =
    let s = opened_store db.next_id b form in
    (
      s,
      bind_store_to_merchant_tenants
          (record db {
            stores = db.stores ++ s ∷ [];
            menus =
                db.menus
                ++ record { id = suc db.next_id; store_id = db.next_id; status = "active" } ∷ [];
            next_id = suc (suc db.next_id);
          })
          s,
    )

own_brand : OrgDb → Merchant → RowId → Option Brand
own_brand db m i = first (λ (b : Brand). eq_nat b.id i && eq_nat b.merchant_id m.id) db.brands

-- `create_store_under_brand`: the new store, and the rows
pub create_store_under_brand : OrgDb → Store → RowId → StoreData → Option (Store × OrgDb)
unfolding merchant_of own_brand open_store
create_store_under_brand db context brand form = do
  m ← merchant_of db context
  b ← own_brand db m brand
  if strip form.name == "" then none else some (open_store db b form)

-- `_clean` of a key that is there, for a name, which may not become empty
renamed : Option String → String → String
renamed none old = old
renamed (some new) old = or_text (strip new) old

cleaned : Option String → String → String
cleaned none old = old
cleaned (some new) old = strip new

updated_brand : EnterpriseData → Brand → Brand
unfolding cleaned
updated_brand form b = record b {
  category = cleaned form.category b.category;
  cuisine_type = cleaned form.cuisine_type b.cuisine_type;
  business_hours = cleaned form.business_hours b.business_hours;
}

-- `update_brand`, after which the merchant's own columns follow the brand of the store
pub update_brand : OrgDb → Store → RowId → EnterpriseData → Option OrgDb
unfolding merchant_of own_brand put_brand put_merchant updated_brand renamed
update_brand db s i form = do
  m ← merchant_of db s
  b ← own_brand db m i
  let b' = record (updated_brand form b) { name = renamed form.name b.name }
  if elim s.brand_id [ none ↦ false | some j ↦ eq_nat j b.id ]
      then some (
          put_merchant (put_brand db b') (record m {
            brand_name = b'.name;
            category = b'.category;
            cuisine_type = b'.cuisine_type;
            business_hours = b'.business_hours;
          }))
      else some (put_brand db b')

created_brand : RowId → Merchant → EnterpriseData → String → Brand
unfolding cleaned
created_brand i m form name = record {
  id = i;
  merchant_id = m.id;
  name = name;
  category = cleaned form.category "";
  cuisine_type = cleaned form.cuisine_type "";
  business_hours = cleaned form.business_hours "";
  status = "active";
}

-- `create_brand`; `none` also where the name is blank, after the tree was ensured
pub create_brand : OrgDb → Store → EnterpriseData → Option OrgDb
unfolding merchant_of cleaned created_brand
create_brand db s form = do
  m ← merchant_of db s
  let after = (ensure_org_tree db s).1
  if cleaned form.name "" == ""
      then none
      else some (record after {
        brands = after.brands ++ created_brand after.next_id m form (cleaned form.name "") ∷ [];
        next_id = suc after.next_id;
      })
