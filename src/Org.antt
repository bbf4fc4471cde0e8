-- ===== src/Org.antt =====
-- Merchants with their brands and stores, and the tenants that may reach a store: the rows of
-- app/models/entities.py and app/models/tenant.py, app/services/org_tree.py (Org/Tree) and
-- app/services/tenant_service.py (Org/Tenants). A text that is absent is "".
pub mod Tenants
pub mod Tree
use meal_key_ecosystem.Base.{Option, String, List, Bool, any_of, eq_nat, ◌&&◌}
use meal_key_ecosystem.Models.{RowId, Time, Menu}

pub record Merchant : Type 0 where
  pub id : RowId
  pub name : String
  pub brand_name : String
  pub category : String
  pub cuisine_type : String
  pub location : String
  pub business_hours : String

pub record Brand : Type 0 where
  pub id : RowId
  pub merchant_id : RowId
  pub name : String
  pub category : String
  pub cuisine_type : String
  pub business_hours : String
  pub status : String

pub record Store : Type 0 where
  pub id : RowId
  pub merchant_id : RowId
  pub brand_id : Option RowId
  pub name : String
  pub city : String
  pub area : String
  pub address : String
  pub status : String

pub record Tenant : Type 0 where
  pub id : RowId
  pub name : String
  pub client_id : String
  pub client_secret_hash : String
  pub status : String
  pub created_at : Time

pub record TenantStore : Type 0 where
  pub tenant_id : RowId
  pub store_id : RowId
  pub role : String

-- the tenants in the order of their creation
pub record OrgDb : Type 0 where
  pub merchants : List Merchant
  pub brands : List Brand
  pub stores : List Store
  pub menus : List Menu
  pub tenants : List Tenant
  pub tenant_stores : List TenantStore
  pub next_id : RowId

unfoldable pub is_bound : List TenantStore → RowId → RowId → Bool
is_bound rows tenant store =
    any_of (λ (r : TenantStore). eq_nat r.tenant_id tenant && eq_nat r.store_id store) rows

-- `TenantStore(..., role="operator")`
abbrev pub operator_of : RowId → RowId → TenantStore
operator_of tenant store = record { tenant_id = tenant; store_id = store; role = "operator" }
