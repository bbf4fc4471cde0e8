-- ===== src/Org/Tenants.antt =====
-- app/services/tenant_service.py: the credentials of tenants, and the stores in their scope. The secret is
-- drawn by app/core/security.py, which also hashes it: both are arguments.
use Prim.Native.String.{◌++◌ as ◌+++◌}
use meal_key_ecosystem.Base.{
  none, some, [], ◌∷◌, true, false, ◌++◌, String, List, if◌then◌else◌, map, Option, Bool, first,
  keep, or_else, ◌==◌, suc, eq_nat, ◌&&◌, cut,
}
use meal_key_ecosystem.Models.{RowId, Time}
use meal_key_ecosystem.Org.{OrgDb, Tenant, TenantStore, Store, is_bound, operator_of}
pub mod Bound

-- `list_tenant_store_ids`
pub list_tenant_store_ids : OrgDb → RowId → List RowId
list_tenant_store_ids db tenant =
    map (λ (r : TenantStore). r.store_id)
      (keep (λ (r : TenantStore). eq_nat r.tenant_id tenant) db.tenant_stores)

-- `get_tenant_by_client_id`
pub get_tenant_by_client_id : OrgDb → String → Option Tenant
get_tenant_by_client_id db client_id =
    first (λ (t : Tenant). t.client_id == client_id && t.status == "active") db.tenants

-- `verify_tenant_secret`
pub verify_tenant_secret : (String → String) → Tenant → String → Bool
verify_tenant_secret hash t secret = t.client_secret_hash == hash secret

-- the rows that bind stores to a tenant, for the stores that were not bound when the loop began
bind_missing : List TenantStore → RowId → List Store → List TenantStore
bind_missing before tenant [] = []
bind_missing before tenant (s ∷ rest) =
    let more = bind_missing before tenant rest in
    if is_bound before tenant s.id then more else operator_of tenant s.id ∷ more

new_tenant : RowId → String → String → String → Time → Tenant
new_tenant i name client_id hashed now = record {
  id = i;
  name = name;
  client_id = client_id;
  client_secret_hash = hashed;
  status = "active";
  created_at = now;
}

bind_all : OrgDb → RowId → OrgDb
unfolding bind_missing
bind_all db tenant = record db {
  tenant_stores = db.tenant_stores ++ bind_missing db.tenant_stores tenant db.stores;
}

default_with :
    (String → String)
    → String
    → Time
    → String
    → OrgDb
    → List Tenant
    → Tenant × Option String × OrgDb
unfolding bind_all new_tenant
default_with hash secret now name db (t ∷ rest) = (t, none, bind_all db t.id)
default_with hash secret now name db [] =
    let t = new_tenant db.next_id name "tenant_default" (hash secret) now in
    (
      t,
      some secret,
      record db {
        tenants = db.tenants ++ t ∷ [];
        tenant_stores =
            db.tenant_stores ++ map (λ (s : Store). operator_of db.next_id s.id) db.stores;
        next_id = suc db.next_id;
      },
    )

-- `ensure_default_tenant`: the tenant, the secret if it is new, and the rows
pub ensure_default_tenant :
    (String → String) → String → Time → String → OrgDb → Tenant × Option String × OrgDb
unfolding default_with
ensure_default_tenant hash secret now name db = default_with hash secret now name db db.tenants

-- `create_tenant`; `drawn` is the end of the client id, if none is given
pub create_tenant :
    (String → String)
    → String
    → String
    → Time
    → String
    → List RowId
    → Option String
    → OrgDb
    → Tenant × String × OrgDb
unfolding new_tenant
create_tenant hash secret drawn now name store_ids client_id db =
    let t =
      new_tenant db.next_id name (or_else client_id ("tenant_" +++ cut 10 drawn)) (hash secret)
        now in
    (
      t,
      secret,
      record db {
        tenants = db.tenants ++ t ∷ [];
        tenant_stores = db.tenant_stores ++ map (λ (i : RowId). operator_of db.next_id i) store_ids;
        next_id = suc db.next_id;
      },
    )
