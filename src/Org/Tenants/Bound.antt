-- ===== src/Org/Tenants/Bound.antt =====
-- Who may reach a store after `ensure_default_tenant` of app/services/tenant_service.py.
use meal_key_ecosystem.Base.{
  eq_nat, none, [], ◌∷◌, true, false, inl, inr, List, ◌++◌, All, ◌≡◌, ◌||◌, ◌⊎◌, any_of-append,
  Bool, String, refl, All-map, any_of, map, ◌&&◌, if◌then◌else◌, arith, ap, append-nil, ◌∙◌, some,
}
use meal_key_ecosystem.Models.{RowId, Time}
use meal_key_ecosystem.Org.{OrgDb, Tenant, TenantStore, Store, is_bound, operator_of}
use meal_key_ecosystem.Org.Tenants.{
  ensure_default_tenant, default_with, bind_missing, bind_all, new_tenant,
}

is_bound-append :
    (xs ys : List TenantStore) (tenant store : RowId)
    → is_bound (xs ++ ys) tenant store ≡ is_bound xs tenant store || is_bound ys tenant store
unfolding is_bound
is_bound-append xs ys tenant store =
    any_of-append (λ (r : TenantStore). eq_nat r.tenant_id tenant && eq_nat r.store_id store) xs ys

bound_more :
    (b : Bool) (x : TenantStore) (more : List TenantStore) (tenant store : RowId)
    → is_bound more tenant store ≡ true
    → is_bound (if b then more else x ∷ more) tenant store ≡ true
unfolding is_bound any_of
bound_more true x more tenant store h = h
bound_more false x more tenant store h = ground (arith, h)

bound_own :
    (tenant store : RowId) (more : List TenantStore)
    → is_bound (operator_of tenant store ∷ more) tenant store ≡ true
unfolding is_bound any_of
bound_own tenant store more = ground arith

bound_first :
    (b : Bool) (tenant store : RowId) (more : List TenantStore)
    → (b ≡ true)
      ⊎ (is_bound (if b then more else operator_of tenant store ∷ more) tenant store ≡ true)
bound_first true tenant store more = inl refl
bound_first false tenant store more = inr (bound_own tenant store more)

bind_missing-binds :
    (before : List TenantStore) (tenant : RowId) (stores : List Store)
    → All
        (λ (s : Store).
          (is_bound before tenant s.id ≡ true)
          ⊎ (is_bound (bind_missing before tenant stores) tenant s.id ≡ true))
        stores
unfolding bind_missing
bind_missing-binds before tenant [] = tt
bind_missing-binds before tenant (s ∷ rest) =
    let more = bind_missing before tenant rest in
    (
      bound_first (is_bound before tenant s.id) tenant s.id more,
      All-map
          (λ (x : Store).
            (is_bound before tenant x.id ≡ true)
            ⊎ (is_bound
                  (if is_bound before tenant s.id then more else operator_of tenant s.id ∷ more)
                  tenant x.id
                ≡ true))
          rest
          (λ x h. elim h [
            | inl e ↦ inl e
            | inr e ↦ inr (
                bound_more (is_bound before tenant s.id) (operator_of tenant s.id) more tenant x.id
                  e)
          ])
          (bind_missing-binds before tenant rest),
    )

-- rows that bind every store
abbrev pub BindsAll : RowId → List TenantStore → List Store → Type 0
BindsAll tenant rows stores = All (λ (s : Store). is_bound rows tenant s.id ≡ true) stores

bind_all-BindsAll :
    (db : OrgDb) (tenant : RowId) → BindsAll tenant (bind_all db tenant).tenant_stores db.stores
unfolding bind_all
bind_all-BindsAll db tenant =
    All-map
      (λ (s : Store).
        is_bound (db.tenant_stores ++ bind_missing db.tenant_stores tenant db.stores) tenant s.id
        ≡ true)
      db.stores
      (λ s h. elim h [
        | inl e ↦
            rw
              (is_bound-append db.tenant_stores (bind_missing db.tenant_stores tenant db.stores)
                tenant s.id)
              (ground (arith, e))
        | inr e ↦
            rw
              (is_bound-append db.tenant_stores (bind_missing db.tenant_stores tenant db.stores)
                tenant s.id)
              (ground (arith, e))
      ])
      (bind_missing-binds db.tenant_stores tenant db.stores)

map-BindsAll :
    (tenant : RowId) (stores : List Store)
    → BindsAll tenant (map (λ (s : Store). operator_of tenant s.id) stores) stores
map-BindsAll tenant [] = tt
map-BindsAll tenant (s ∷ rest) = (
  bound_own tenant s.id (map (λ (x : Store). operator_of tenant x.id) rest),
  All-map
      (λ (x : Store).
        is_bound (operator_of tenant s.id ∷ map (λ (y : Store). operator_of tenant y.id) rest)
          tenant x.id
        ≡ true)
      rest
      (λ x h.
        bound_more false (operator_of tenant s.id)
          (map (λ (y : Store). operator_of tenant y.id) rest) tenant x.id h)
      (map-BindsAll tenant rest),
)

default_with-BindsAll :
    (hash : String → String) (secret : String) (now : Time) (name : String) (db : OrgDb)
    (tenants : List Tenant)
    → (let r = default_with hash secret now name db tenants in
        BindsAll ((r.0).id) ((r.2).tenant_stores) db.stores)
unfolding default_with
default_with-BindsAll hash secret now name db (t ∷ rest) = bind_all-BindsAll db t.id
default_with-BindsAll hash secret now name db [] =
    All-map
      (λ (s : Store).
        is_bound (db.tenant_stores ++ map (λ (x : Store). operator_of db.next_id x.id) db.stores)
          db.next_id s.id
        ≡ true)
      db.stores
      (λ s h.
        rw
          (is_bound-append db.tenant_stores
            (map (λ (x : Store). operator_of db.next_id x.id) db.stores) db.next_id s.id)
          (ground (arith, h)))
      (map-BindsAll db.next_id db.stores)

bind_none :
    (before : List TenantStore) (tenant : RowId) (stores : List Store)
    → BindsAll tenant before stores
    → bind_missing before tenant stores ≡ []
unfolding bind_missing
bind_none before tenant [] h = refl
bind_none before tenant (s ∷ rest) h = rw h.0 (bind_none before tenant rest h.1)

bind_all-nothing :
    (db : OrgDb) (tenant : RowId)
    → BindsAll tenant db.tenant_stores db.stores
    → bind_all db tenant ≡ db
unfolding bind_all
bind_all-nothing db tenant h =
    ap (λ (rows : List TenantStore). record db { tenant_stores = rows })
      (rw (bind_none db.tenant_stores tenant db.stores h) (append-nil db.tenant_stores))

default_step :
    (hash : String → String) (secret : String) (now : Time) (name : String) (db : OrgDb)
    (rows : List Tenant) (t : Tenant) (rest : List Tenant)
    → rows ≡ t ∷ rest
    → default_with hash secret now name db rows ≡ (t, none, bind_all db t.id)
unfolding default_with
default_step hash secret now name db rows t rest e = rw e refl

again_with :
    (hash : String → String) (secret : String) (now : Time) (name : String) (db : OrgDb)
    (tenants : List Tenant)
    → db.tenants ≡ tenants
    → (let r = default_with hash secret now name db tenants in
        default_with hash secret now name (r.2) ((r.2).tenants) ≡ (r.0, none, r.2))
unfolding default_with bind_all
again_with hash secret now name db (t ∷ rest) e =
    default_step hash secret now name (bind_all db t.id) db.tenants t rest e
    ∙ ap (λ (d : OrgDb). (t, none, d))
        (bind_all-nothing (bind_all db t.id) t.id (bind_all-BindsAll db t.id))
again_with hash secret now name db [] e =
    let t = new_tenant db.next_id name "tenant_default" (hash secret) now in
    let after = (default_with hash secret now name db []).2 in
    default_step hash secret now name after (db.tenants ++ t ∷ []) t [] (ap (λ xs. xs ++ t ∷ []) e)
    ∙ ap (λ (d : OrgDb). (t, none, d))
        (bind_all-nothing after t.id (default_with-BindsAll hash secret now name db []))

-- the tenant is the first row, the oldest; without any row it is a new one, which is added
default_with-head :
    (hash : String → String) (secret : String) (now : Time) (name : String) (db : OrgDb)
    (tenants : List Tenant)
    → db.tenants ≡ tenants
    → (let r = default_with hash secret now name db tenants in
        ((rest : List Tenant) × (db.tenants ≡ r.0 ∷ rest) × ((r.2).tenants ≡ db.tenants))
        ⊎ ((db.tenants ≡ []) × ((r.2).tenants ≡ r.0 ∷ []) × (r.1 ≡ some secret)))
unfolding default_with bind_all
default_with-head hash secret now name db (t ∷ rest) e = inl (rest, e, refl)
default_with-head hash secret now name db [] e =
    inr (
      e,
      ap (λ xs. xs ++ new_tenant db.next_id name "tenant_default" (hash secret) now ∷ []) e,
      refl,
    )

-- `ensure_default_tenant` gives the oldest tenant and adds none, or a new one, with its secret, if there is
-- none. It binds every store to that tenant, also a store that belongs to another tenant; a second call
-- gives the same tenant, no secret, and binds nothing.
pub ensure_default_tenant-BindsAll :
    (hash : String → String) (secret : String) (now : Time) (name : String) (db : OrgDb)
    → (let r = ensure_default_tenant hash secret now name db in
        (((rest : List Tenant) × (db.tenants ≡ r.0 ∷ rest) × ((r.2).tenants ≡ db.tenants))
          ⊎ ((db.tenants ≡ []) × ((r.2).tenants ≡ r.0 ∷ []) × (r.1 ≡ some secret)))
        × BindsAll ((r.0).id) ((r.2).tenant_stores) db.stores
        × (ensure_default_tenant hash secret now name (r.2) ≡ (r.0, none, r.2)))
unfolding ensure_default_tenant
ensure_default_tenant-BindsAll hash secret now name db = (
  default_with-head hash secret now name db db.tenants refl,
  default_with-BindsAll hash secret now name db db.tenants,
  again_with hash secret now name db db.tenants refl,
)
