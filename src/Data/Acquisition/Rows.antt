-- ===== src/Data/Acquisition/Rows.antt =====
-- What a matched row says of its two sides.
use meal_key_ecosystem.Base.{
  none, some, ℕ, String, ◌≡◌, Option, true, refl, Bool-cases, inl, inr, arith, ◌*◌, ◌+◌, ◌≤◌,
  eq_nat, if◌then◌else◌,
}
use meal_key_ecosystem.Data.Acquisition.{
  Ratio, is_close, reconcile_row, relative_to, status_of, missing_side, Metric, distance, matched,
}

-- Both sides have a figure, and they differ by at most a hundredth of the official one (of `unit`, if that
-- is zero).
pub record Matches (unit : ℕ) (collector official : Option ℕ) : Type 0 where
  pub collected : ℕ
  pub reported : ℕ
  pub collector_has : collector ≡ some collected
  pub official_has : official ≡ some reported
  pub above : 100 * collected ≤ 100 * reported + (if eq_nat reported 0 then unit else reported)
  pub below : 100 * reported ≤ 100 * collected + (if eq_nat reported 0 then unit else reported)

status_closes :
    (rel : Ratio) (reason : String) → status_of rel reason ≡ matched → is_close rel ≡ true
unfolding status_of
status_closes rel reason h = elim (Bool-cases (is_close rel)) [
  | inl e ↦ e
  | inr e ↦ ground (arith, h, e)
]

pub row-Matches :
    (unit : ℕ) (day : String) (metric : Metric) (c o : Option ℕ) (reason : String)
    → (reconcile_row unit day metric c o reason).status ≡ matched
    → Matches unit c o
unfolding reconcile_row missing_side is_close relative_to distance
row-Matches unit day metric (some c) (some o) reason h =
    let close = status_closes (relative_to unit c o) reason h in
    record {
      collected = c;
      reported = o;
      collector_has = refl;
      official_has = refl;
      above = ground (arith, close);
      below = ground (arith, close);
    }
row-Matches unit day metric none none reason h = cc
row-Matches unit day metric (some c) none reason h = cc
row-Matches unit day metric none (some o) reason h = cc

pub row-day :
    (unit : ℕ) (day : String) (metric : Metric) (c o : Option ℕ) (reason : String)
    → (reconcile_row unit day metric c o reason).day ≡ day
unfolding reconcile_row missing_side
row-day unit day metric (some c) (some o) reason = refl
row-day unit day metric none none reason = refl
row-day unit day metric (some c) none reason = refl
row-day unit day metric none (some o) reason = refl
