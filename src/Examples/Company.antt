-- ===== src/Examples/Company.antt =====
-- A company with two stores, and its tenants.
use meal_key_ecosystem.Base.{none, some, [], ◌∷◌, ◌≡◌, List, All, ◌⊎◌}
use meal_key_ecosystem.Org.{OrgDb, Store, Tenant, TenantStore, operator_of}
use meal_key_ecosystem.Org.Tenants.{ensure_default_tenant}
use meal_key_ecosystem.Org.Tenants.Bound.{ensure_default_tenant-BindsAll, BindsAll}
use meal_key_ecosystem.Org.Tree.{bind_store_to_merchant_tenants}
use meal_key_ecosystem.Org.Tree.Opened.{bind_store-MayReach, MayReach}

abbrev store_one : Store
store_one = record {
  id = 1;
  merchant_id = 10;
  brand_id = some 20;
  name = "一店";
  city = "上海";
  area = "";
  address = "";
  status = "active";
}

abbrev store_two : Store
store_two = record store_one { id = 2; name = "二店" }

abbrev tenant_one : Tenant
tenant_one = record {
  id = 30;
  name = "甲";
  client_id = "tenant_a";
  client_secret_hash = "";
  status = "active";
  created_at = 100;
}

abbrev tenant_two : Tenant
tenant_two = record tenant_one { id = 31; name = "乙"; client_id = "tenant_b" }

abbrev company : OrgDb
company = record {
  merchants = [];
  brands = [];
  stores = store_one ∷ store_two ∷ [];
  menus = [];
  tenants = tenant_one ∷ tenant_two ∷ [];
  tenant_stores = operator_of 31 1 ∷ [];
  next_id = 40;
}

ensure_default_tenant-BindsAll_example :
    (let r = ensure_default_tenant (λ s. s) "secret" 500 "默认租户" company in
      (((rest : List Tenant) × (company.tenants ≡ r.0 ∷ rest) × ((r.2).tenants ≡ company.tenants))
        ⊎ ((company.tenants ≡ []) × ((r.2).tenants ≡ r.0 ∷ []) × (r.1 ≡ some "secret")))
      × BindsAll ((r.0).id) ((r.2).tenant_stores) (store_one ∷ store_two ∷ [])
      × (ensure_default_tenant (λ s. s) "secret" 500 "默认租户" (r.2) ≡ (r.0, none, r.2)))
ensure_default_tenant-BindsAll_example =
    ensure_default_tenant-BindsAll (λ s. s) "secret" 500 "默认租户" company

bind_store-MayReach_example :
    (rows : List TenantStore) × ((bind_store_to_merchant_tenants company store_two).tenant_stores
      ≡ operator_of 31 1 ∷ rows)
    × All
        (λ (r : TenantStore).
          (r.store_id ≡ 2) × ((t : Tenant) × (r.tenant_id ≡ t.id) × MayReach company store_two t))
        rows
bind_store-MayReach_example = bind_store-MayReach company store_two
