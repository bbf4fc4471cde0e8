-- ===== src/Org/Tree/Opened.antt =====
-- A store that is opened under a brand, app/services/org_tree.py.
use meal_key_ecosystem.Base.{
  refl, [], ◌∷◌, true, false, inl, inr, keep, List, All, ◌≡◌, Bool, keep-All, ◌⊎◌, ◌++◌, All-map,
  Bool-cases, map, arith, not,
}
use meal_key_ecosystem.Models.{RowId}
use meal_key_ecosystem.Org.{OrgDb, Store, Tenant, TenantStore, is_bound, operator_of}
use meal_key_ecosystem.Org.Tree.{
  bind_store_to_merchant_tenants, tenants_for, or_oldest, oldest, has_sibling,
}

-- a tenant that reaches a sibling of the store, or the oldest, where none does
abbrev pub MayReach : OrgDb → Store → Tenant → Type 0
MayReach db s t =
    (has_sibling db s t ≡ true)
    ⊎ (All (λ (x : Tenant). has_sibling db s x ≡ false) db.tenants × (oldest db.tenants ≡ t ∷ []))

keep_none {ℓ} :
    {A : Type ℓ} (p : A → Bool) (xs : List A) → keep p xs ≡ [] → All (λ (x : A). p x ≡ false) xs
unfolding keep
keep_none p [] h = tt
keep_none p (x ∷ xs) h = elim (Bool-cases (p x)) [
  | inl e ↦ absurd (ground (arith, h, e))
  | inr e ↦ (e, keep_none p xs (ground (arith, h, e)))
]

oldest-Holds :
    (P : Tenant → Type 0) (all : List Tenant)
    → ((t : Tenant) → oldest all ≡ t ∷ [] → P t)
    → All P (oldest all)
unfolding oldest
oldest-Holds P [] f = tt
oldest-Holds P (t ∷ rest) f = (f t refl, tt)

or_oldest-MayReach :
    (db : OrgDb) (s : Store) (found : List Tenant)
    → keep (has_sibling db s) db.tenants ≡ found
    → All (λ (t : Tenant). has_sibling db s t ≡ true) found
    → All (MayReach db s) (or_oldest found db.tenants)
unfolding or_oldest
or_oldest-MayReach db s [] e h =
    oldest-Holds (MayReach db s) db.tenants
      (λ t o. inr (keep_none (has_sibling db s) db.tenants e, o))
or_oldest-MayReach db s (t ∷ rest) e h = All-map (MayReach db s) (t ∷ rest) (λ x y. inl y) h

tenants_for-MayReach : (db : OrgDb) (s : Store) → All (MayReach db s) (tenants_for db s)
unfolding tenants_for
tenants_for-MayReach db s =
    or_oldest-MayReach db s (keep (has_sibling db s) db.tenants) refl (
      keep-All (λ (t : Tenant). has_sibling db s t ≡ true) (has_sibling db s) db.tenants (λ t e. e))

-- the bindings that a new store gets
bound_rows :
    (P : Tenant → Type 0) (store : RowId) (ts : List Tenant) (p : Tenant → Bool)
    → All P ts
    → All
        (λ (r : TenantStore). (r.store_id ≡ store) × ((t : Tenant) × (r.tenant_id ≡ t.id) × P t))
        (map (λ (t : Tenant). operator_of t.id store) (keep p ts))
unfolding keep
bound_rows P store [] p h = tt
bound_rows P store (t ∷ ts) p h = elim (Bool-cases (p t)) [
  | inl e ↦ rw e ((refl, (t, refl, h.0)), bound_rows P store ts p h.1)
  | inr e ↦ rw e (bound_rows P store ts p h.1)
]

-- Binding a store to tenants takes no binding away, and binds only that store: to tenants that reach
-- another store of the same merchant, or, where no tenant does, to the oldest tenant.
pub bind_store-MayReach :
    (db : OrgDb) (s : Store)
    → (rows : List TenantStore) × ((bind_store_to_merchant_tenants db s).tenant_stores
        ≡ db.tenant_stores ++ rows)
      × All
          (λ (r : TenantStore).
            (r.store_id ≡ s.id) × ((t : Tenant) × (r.tenant_id ≡ t.id) × MayReach db s t))
          rows
unfolding bind_store_to_merchant_tenants
bind_store-MayReach db s = (
  map (λ (t : Tenant). operator_of t.id s.id)
      (keep (λ (t : Tenant). not (is_bound db.tenant_stores t.id s.id)) (tenants_for db s)),
  refl,
  bound_rows (MayReach db s) s.id (tenants_for db s)
      (λ (t : Tenant). not (is_bound db.tenant_stores t.id s.id)) (tenants_for-MayReach db s),
)
