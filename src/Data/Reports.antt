-- ===== src/Data/Reports.antt =====
-- The reports that app/services/data_acquisition_ingest.py compares: the days that they name, and the
-- reconciled rows of a day.
use meal_key_ecosystem.Base.{
  none, [], ◌∷◌, true, false, List, String, Bool, or_text, if◌then◌else◌, ◌&&◌, Option, keep,
  or_else, ℕ, ◌==◌, is_some, last_such, not, ◌||◌, is_in, ◌++◌,
}
use meal_key_ecosystem.Data.Acquisition.{
  explainable_diff, mismatch, orders, gmv, merchant_revenue, Reconciliation, ReconciliationRow,
  reconcile_row, is_reconciled,
}

-- a row of a report: whole orders, and cents
pub record ReportRow : Type 0 where
  pub day : String
  pub orders : Option ℕ
  pub gmv : Option ℕ
  pub merchant_revenue : Option ℕ
  pub refund : Option ℕ
  pub reason : String
  pub revenue_reason : String

abbrev pub no_row : ReportRow
no_row = record {
  day = "";
  orders = none;
  gmv = none;
  merchant_revenue = none;
  refund = none;
  reason = "";
  revenue_reason = "";
}

-- `{row["day"]: row for row in rows}.get(day) or {}`
unfoldable pub by_day : List ReportRow → String → ReportRow
by_day rows day = or_else (last_such (λ (r : ReportRow). r.day == day) rows) no_row

unfoldable pub days_of : List ReportRow → List String
days_of [] = []
days_of (r ∷ rest) = r.day ∷ days_of rest

-- the days of a table keyed by day, in its order
unfoldable pub drop_day : String → List String → List String
drop_day day days = keep (λ d. not (d == day)) days

unfoldable pub first_days : List ReportRow → List String
unfolding drop_day
first_days [] = []
first_days (r ∷ rest) = r.day ∷ drop_day r.day (first_days rest)

unfoldable pub is_mismatch : Reconciliation → Bool
is_mismatch mismatch = true
is_mismatch _ = false

unfoldable pub is_explained : Reconciliation → Bool
is_explained explainable_diff = true
is_explained _ = false

-- the status with which a day is promoted: the worst of the rows that are not unchecked
unfoldable pub worst_status : List ReconciliationRow → String → Reconciliation → Reconciliation
unfolding is_mismatch is_explained
worst_status [] day worst = worst
worst_status (r ∷ rest) day worst =
    let next = worst_status rest day (if is_explained r.status then explainable_diff else worst) in
    let same = worst_status rest day worst in
    if r.day == day then (if is_mismatch r.status then mismatch else next) else same

-- the rows of a day: orders, turnover, and the revenue if both sides have it
unfoldable pub day_rows : ReportRow → ReportRow → String → List ReconciliationRow
day_rows collector official day =
    let reason = or_text collector.reason official.reason in
    let revenue =
      reconcile_row 100 day merchant_revenue collector.merchant_revenue official.merchant_revenue
        collector.revenue_reason in
    reconcile_row 1 day orders collector.orders official.orders reason
    ∷ reconcile_row 100 day gmv collector.gmv official.gmv reason
    ∷ (if is_some official.merchant_revenue && is_some collector.merchant_revenue
        then revenue ∷ []
        else [])

unfoldable pub all_reconciled : List ReconciliationRow → Bool
all_reconciled [] = true
all_reconciled (r ∷ rest) = is_reconciled r.status && all_reconciled rest

unfoldable pub note_revenue : ReportRow → ReportRow → List String → List String
note_revenue collector official unknown =
    if is_some official.merchant_revenue || is_some collector.merchant_revenue
    then unknown
    else (if is_in "merchant_revenue" unknown then unknown else unknown ++ "merchant_revenue" ∷ [])
