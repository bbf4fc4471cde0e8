-- ===== src/Data/Ingest.antt =====
-- `ingest_reconciliation` of app/services/data_acquisition_ingest.py: official figures against collected
-- ones, day by day, and which of them enter the store's funnel. `parse_day` is
-- `date.fromisoformat(text[:10])`, `none` where it raises. The audit of day 0 (app/services/seed_store.py)
-- gives the unknown fields that it starts with.
pub mod Promoted
pub mod Reconciled
use meal_key_ecosystem.Data.Reports.{
  ReportRow, days_of, day_rows, by_day, note_revenue, first_days, worst_status, all_reconciled,
}
use meal_key_ecosystem.Base.{
  ℕ, none, some, [], ◌∷◌, or_else, List, String, Bool, last_such, if◌then◌else◌, ◌++◌, or_text,
  or_number, true, Option, ◌&&◌, ◌||◌, is_some, eq_nat, ◌==◌, ◌+◌, false, strip, not, is_in, ltb,
  sorted_set, keep,
}
use meal_key_ecosystem.Data.Sources.{Funnel, upsert_funnel}
use meal_key_ecosystem.Data.Acquisition.{
  AcquisitionMode, ReconciliationRow, CollectorRun, healthy, degraded, unavailable, matched,
  explainable_diff, mismatch, unchecked, orders, gmv, merchant_revenue, refund, Reconciliation,
  Health, Metric, FactEnvelope, reconcile_row, promote_envelope, is_reconciled, build_collector_run,
  can_enter_high_confidence_storestate,
}

-- the rows of the store: the funnel by day, and the runs with their reconciliation
pub record AcquisitionDb : Type 0 where
  pub funnels : List (ℕ × Funnel)
  pub runs : List CollectorRun
  pub reconciliations : List ReconciliationRow

pub record IngestRequest : Type 0 where
  pub official_rows : List ReportRow
  pub collector_rows : List ReportRow
  pub acquisition_mode : AcquisitionMode
  pub mode_text : String  -- `acquisition_mode` in small letters
  pub baseline_only : Bool
  pub auth_status : String
  pub data_source : String
  pub unknown : List String

-- `str(data_source).strip() or str(acquisition_mode).strip().lower() or "legacy_unknown_source"`
source_of : IngestRequest → String
source_of r = or_text (strip r.data_source) (or_text r.mode_text "legacy_unknown_source")

pub figures_of : IngestRequest → ReportRow → ReportRow → Funnel
unfolding source_of
figures_of r collector official = record {
  orders = or_else (or_number collector.orders (or_number official.orders none)) 0;
  gmv = or_else (or_number collector.gmv (or_number official.gmv none)) 0;
  data_source = source_of r;
}

-- the envelope of the day's turnover, promoted
envelope_of : IngestRequest → ReportRow → Reconciliation → FactEnvelope
envelope_of r collector worst =
    promote_envelope
      (record {
        value = collector.gmv;
        acquisition_mode = r.acquisition_mode;
        confidence = 0;
        reconciliation_status = unchecked;
      })
      healthy worst

find_day : List (ℕ × Funnel) → ℕ → Option Funnel
find_day [] day = none
find_day ((d, f) ∷ rest) day = if eq_nat d day then some f else find_day rest day

put_day : List (ℕ × Funnel) → ℕ → Funnel → List (ℕ × Funnel)
put_day [] day new = []
put_day ((d, old) ∷ rest) day new =
    let others = put_day rest day new in
    if eq_nat d day then (day, new) ∷ others else (d, old) ∷ others

write_day : List (ℕ × Funnel) → ℕ → Option Funnel → List (ℕ × Funnel)
write_day current day none = current
write_day current day (some f) = put_day current day f

-- A row that is stored is assigned to, if its source allows it; otherwise a row is added. The session does
-- not flush, so a row added in this request is not found: `none` is the commit that fails on two rows of
-- one date.
upsert_day : List (ℕ × Funnel) → List (ℕ × Funnel) → ℕ → Funnel → Option (List (ℕ × Funnel))
unfolding write_day
upsert_day stored current day new =
    if is_some (find_day stored day)
    then some (write_day current day (upsert_funnel (find_day current day) new))
    else (if is_some (find_day current day) then none else some (current ++ (day, new) ∷ []))

-- what the loop over the days carries
pub record Progress : Type 0 where
  pub rows : List ReconciliationRow
  pub unknown : List String
  pub funnels : List (ℕ × Funnel)
  pub promoted : ℕ

-- the figures of a day, if they are promoted
pub promoted_figures :
    IngestRequest → List ReconciliationRow → ReportRow → ReportRow → String → Option Funnel
unfolding day_rows worst_status envelope_of figures_of
promoted_figures r rows collector official day =
    let worst = worst_status (rows ++ day_rows collector official day) day matched in
    if all_reconciled (day_rows collector official day)
      && can_enter_high_confidence_storestate (envelope_of r collector worst)
    then some (figures_of r collector official)
    else none

with_funnels : Progress → Option (List (ℕ × Funnel)) → Option Progress
with_funnels p none = none
with_funnels p (some fs) = some (record p { funnels = fs; promoted = p.promoted + 1 })

enter_day : List (ℕ × Funnel) → Progress → ℕ → Option Funnel → Option Progress
unfolding upsert_day with_funnels
enter_day stored p d none = some p
enter_day stored p d (some f) = with_funnels p (upsert_day stored p.funnels d f)

ingest_day :
    (String → Option ℕ) → List (ℕ × Funnel) → IngestRequest → String → Progress → Option Progress
unfolding promoted_figures note_revenue enter_day
ingest_day parse_day stored r day p =
    let official = by_day r.official_rows day in
    let collector = by_day r.collector_rows day in
    elim (parse_day day) [
      | none ↦ none
      | some d ↦
          let next : Progress = record p {
            rows = p.rows ++ day_rows collector official day;
            unknown = note_revenue collector official p.unknown;
          } in
          enter_day stored next d (promoted_figures r p.rows collector official day)
    ]

ingest_days :
    (String → Option ℕ)
    → List (ℕ × Funnel)
    → IngestRequest
    → List String
    → Progress
    → Option Progress
ingest_days parse_day stored r [] p = some p
ingest_days parse_day stored r (day ∷ rest) p = elim (ingest_day parse_day stored r day p) [
  | none ↦ none
  | some q ↦ ingest_days parse_day stored r rest q
]

-- the rows of a report that is only kept as a baseline
baseline_row : IngestRequest → String → Metric → ℕ → Option ℕ → List ReconciliationRow
baseline_row r day metric unit none = []
baseline_row r day metric unit (some v) =
    reconcile_row unit day metric none (some v)
      (if r.baseline_only then "day0_baseline_only" else "collector_missing")
    ∷ []

baseline_rows : IngestRequest → List String → List ReconciliationRow
unfolding baseline_row
baseline_rows r [] = []
baseline_rows r (day ∷ rest) =
    let o = by_day r.official_rows day in
    baseline_row r day orders 1 o.orders
    ++ baseline_row r day gmv 100 o.gmv
    ++ baseline_row r day merchant_revenue 100 o.merchant_revenue
    ++ baseline_row r day refund 100 o.refund
    ++ baseline_rows r rest

pub record Answer : Type 0 where
  pub promoted_days : ℕ
  pub entered_storestate : Bool
  pub unknown_fields : List String
  pub baseline_only : Bool

is_nil : List ReportRow → Bool
is_nil [] = true
is_nil (r ∷ rest) = false

finish : AcquisitionDb → IngestRequest → Health → Progress → Bool → AcquisitionDb × Answer
finish db r state p baseline = (
  record {
    funnels = p.funnels;
    runs = db.runs ++ build_collector_run state 0 0 p.unknown p.rows r.auth_status ∷ [];
    reconciliations = db.reconciliations ++ p.rows;
  },
  record {
    promoted_days = p.promoted;
    entered_storestate = not baseline && ltb 0 p.promoted;
    unknown_fields = p.unknown;
    baseline_only = baseline;
  },
)

-- `none` is the exception of a day that is no date, or of the commit: nothing is committed
pub ingest_reconciliation :
    (String → Option ℕ) → AcquisitionDb → IngestRequest → Option (AcquisitionDb × Answer)
unfolding ingest_days finish baseline_rows is_nil days_of first_days
ingest_reconciliation parse_day db r =
    let start : Progress = record {
      rows = [];
      unknown = r.unknown;
      funnels = db.funnels;
      promoted = 0;
    } in
    if r.baseline_only || is_nil r.collector_rows
    then some (
        finish db r (if is_nil r.collector_rows then unavailable else degraded)
          (record start { rows = baseline_rows r (first_days r.official_rows) }) true)
    else elim (ingest_days parse_day db.funnels r
        (sorted_set (days_of r.official_rows ++ days_of r.collector_rows)) start) [
          | none ↦ none
          | some p ↦ some (finish db r healthy p false)
        ]
