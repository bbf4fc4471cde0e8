-- ===== src/Org/Tree/Rooted.antt =====
-- What `ensure_org_tree` of app/services/org_tree.py leaves.
use meal_key_ecosystem.Base.{
  none, some, [], ◌∷◌, false, ◌≡◌, update, Option, List, All, arith, first, eq_nat,
}
use meal_key_ecosystem.Models.{RowId}
use meal_key_ecosystem.Org.{OrgDb, Merchant, Brand, Store}
use meal_key_ecosystem.Org.Tree.{
  ensure_org_tree, rooted, with_brand, adopt_stores, lacks_brand, merchant_of,
}

adopted :
    (merchant brand : RowId) (stores : List Store)
    → All
        (λ (s : Store). lacks_brand merchant s ≡ false)
        (update (lacks_brand merchant) (λ (s : Store). record s { brand_id = some brand }) stores)
unfolding update lacks_brand
adopted merchant brand [] = tt
adopted merchant brand (s ∷ rest) = (ground arith, adopted merchant brand rest)

rooted-All :
    (db : OrgDb) (s : Store) (m : Merchant) (o : Option Brand)
    → All (λ (x : Store). lacks_brand m.id x ≡ false) (with_brand db m s o).1.stores
unfolding with_brand adopt_stores
rooted-All db s m (some b) = adopted m.id b.id db.stores
rooted-All db s m none = adopted m.id db.next_id db.stores

-- Once the tree of a store whose merchant exists is ensured, every store of that merchant has a brand.
pub ensure_org_tree-All :
    (db : OrgDb) (s : Store) (m : Merchant)
    → merchant_of db s ≡ some m
    → All (λ (x : Store). lacks_brand m.id x ≡ false) (ensure_org_tree db s).1.stores
unfolding ensure_org_tree rooted
ensure_org_tree-All db s m e =
    rw e (rooted-All db s m (first (λ (b : Brand). eq_nat b.merchant_id m.id) db.brands))
