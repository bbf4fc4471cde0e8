-- ===== src/Data/Ingest/Promoted.antt =====
-- What figures have that an ingestion promotes, app/services/data_acquisition_ingest.py.
use meal_key_ecosystem.Data.Reports.{
  worst_status, is_mismatch, is_explained, all_reconciled, day_rows, by_day, ReportRow,
}
use meal_key_ecosystem.Base.{
  ◌==◌, ◌≢◌, ◌⊎◌, false, if◌then◌else◌, refl, eq_iff, All-back, some, [], ◌∷◌, Bool, String, ℕ,
  ◌&&◌, List, Option, All, ◌≡◌, true, Bool-cases, or_text, arith, inl, inr, is_some, ◌++◌,
}
use meal_key_ecosystem.Data.Ingest.{IngestRequest, figures_of, promoted_figures, envelope_of}
use meal_key_ecosystem.Data.Acquisition.{
  ReconciliationRow, orders, gmv, merchant_revenue, screenshot, Reconciliation, matched, mismatch,
  unchecked, blocked, explainable_diff, is_reconciled, reconcile_row, FactEnvelope, healthy,
  can_enter_high_confidence_storestate, Metric,
}
use meal_key_ecosystem.Data.Acquisition.Rows.{Matches, row-Matches, row-day}
use meal_key_ecosystem.Data.Acquisition.Gate.{promote_envelope_enters}
use meal_key_ecosystem.Data.Sources.{Funnel}

-- The figures are those that a request reports for a day, from a source that is not a screenshot. Both sides
-- have the orders and the turnover and agree on them, and on the revenue if both have it; a reason for a
-- larger difference is not enough.
pub record IsReported (parse_day : String → Option ℕ) (r : IngestRequest) (entry : ℕ × Funnel)
    : Type 0 where
  pub day : String
  pub date : parse_day day ≡ some (entry.0)
  pub figures : entry.1 ≡ figures_of r (by_day r.collector_rows day) (by_day r.official_rows day)
  pub source : r.acquisition_mode ≢ screenshot
  pub orders_match :
      Matches 1 (by_day r.collector_rows day).orders (by_day r.official_rows day).orders
  pub gmv_match : Matches 100 (by_day r.collector_rows day).gmv (by_day r.official_rows day).gmv
  pub revenue_match :
      (is_some (by_day r.official_rows day).merchant_revenue
          && is_some (by_day r.collector_rows day).merchant_revenue
        ≡ false)
      ⊎ Matches 100
          (by_day r.collector_rows day).merchant_revenue
          (by_day r.official_rows day).merchant_revenue

and_left : (a b : Bool) → a && b ≡ true → a ≡ true
and_left a b h = ground (arith, h)

and_right : (a b : Bool) → a && b ≡ true → b ≡ true
and_right a b h = ground (arith, h)

-- a row of another day, or one that is neither a mismatch nor an explained difference
abbrev IsUnspoilt : String → ReconciliationRow → Type 0
IsUnspoilt day r =
    ((r.day == day) ≡ false) ⊎ ((is_mismatch r.status ≡ false) × (is_explained r.status ≡ false))

explained_worst :
    (b : Bool) (w : Reconciliation)
    → (if b then explainable_diff else w) ≡ matched
    → (b ≡ false) × (w ≡ matched)
explained_worst true w h = cc
explained_worst false w h = (refl, h)

taken : (b : Bool) (x y : Reconciliation) → b ≡ true → (if b then x else y) ≡ matched → x ≡ matched
taken true x y e h = h
taken false x y e h = cc

passed :
    (b : Bool) (x y : Reconciliation) → b ≡ false → (if b then x else y) ≡ matched → y ≡ matched
passed true x y e h = cc
passed false x y e h = h

not_mismatch :
    (b : Bool) (x : Reconciliation)
    → (if b then mismatch else x) ≡ matched
    → (b ≡ false) × (x ≡ matched)
not_mismatch true x h = cc
not_mismatch false x h = (refl, h)

-- a day whose worst row is matched has no spoilt row
worst_matched :
    (rows : List ReconciliationRow) (day : String) (w : Reconciliation)
    → worst_status rows day w ≡ matched
    → (w ≡ matched) × All (IsUnspoilt day) rows
unfolding worst_status
worst_matched [] day w h = (h, tt)
worst_matched (x ∷ rest) day w h = elim (Bool-cases (x.day == day)) [
  | inr e ↦
      let ih = worst_matched rest day w (passed (x.day == day) _ _ e h) in (ih.0, (inl e, ih.1))
  | inl e ↦
      let now = taken (x.day == day) _ _ e h in
      let fine = not_mismatch (is_mismatch x.status) _ now in
      let ih = worst_matched rest day _ fine.1 in
      let clean = explained_worst (is_explained x.status) w ih.0 in
      (clean.1, (inr (fine.0, clean.0), ih.1))
]

status_matched :
    (s : Reconciliation) → is_reconciled s ≡ true → is_explained s ≡ false → s ≡ matched
unfolding is_reconciled is_explained
status_matched matched h e = refl
status_matched explainable_diff h e = cc
status_matched mismatch h e = cc
status_matched unchecked h e = cc
status_matched blocked h e = cc

unspoilt-Matches :
    (unit : ℕ) (day : String) (metric : Metric) (c o : Option ℕ) (reason : String)
    → is_reconciled (reconcile_row unit day metric c o reason).status ≡ true
    → IsUnspoilt day (reconcile_row unit day metric c o reason)
    → Matches unit c o
unspoilt-Matches unit day metric c o reason h (inl other) =
    let same = (eq_iff _ day).1 (row-day unit day metric c o reason) in
    absurd (ground (arith, other, same))
unspoilt-Matches unit day metric c o reason h (inr clean) =
    row-Matches unit day metric c o reason (status_matched _ h clean.1)

-- the third row of a day, if there is one
third-Matches :
    (b : Bool) (day : String) (c o : Option ℕ) (reason : String)
    → all_reconciled (if b then reconcile_row 100 day merchant_revenue c o reason ∷ [] else [])
      ≡ true
    → All
        (IsUnspoilt day)
        (if b then reconcile_row 100 day merchant_revenue c o reason ∷ [] else [])
    → (b ≡ false) ⊎ Matches 100 c o
unfolding all_reconciled
third-Matches false day c o reason h u = inl refl
third-Matches true day c o reason h u =
    inr (unspoilt-Matches 100 day merchant_revenue c o reason (and_left _ _ h) u.0)

promoted_parts :
    (r : IngestRequest) (rows : List ReconciliationRow) (c o : ReportRow) (day : String)
    (f : Funnel)
    → promoted_figures r rows c o day ≡ some f
    → (all_reconciled (day_rows c o day) ≡ true)
      × (can_enter_high_confidence_storestate
            (envelope_of r c (worst_status (rows ++ day_rows c o day) day matched))
          ≡ true)
      × (f ≡ figures_of r c o)
unfolding promoted_figures
promoted_parts r rows c o day f h = (ground (arith, h), ground (arith, h), ground (arith, h))

pub promoted-IsReported :
    (parse_day : String → Option ℕ) (r : IngestRequest) (rows : List ReconciliationRow)
    (day : String) (d : ℕ) (f : Funnel)
    → parse_day day ≡ some d
    → promoted_figures r rows (by_day r.collector_rows day) (by_day r.official_rows day) day
      ≡ some f
    → IsReported parse_day r (d, f)
unfolding all_reconciled day_rows envelope_of
promoted-IsReported parse_day r rows day d f date h =
    let c = by_day r.collector_rows day in
    let o = by_day r.official_rows day in
    let reason = or_text c.reason o.reason in
    let (ok, gate, made) = promoted_parts r rows c o day f h in
    let worst = worst_status (rows ++ day_rows c o day) day matched in
    let fact : FactEnvelope = record {
      value = c.gmv;
      acquisition_mode = r.acquisition_mode;
      confidence = 0;
      reconciliation_status = unchecked;
    } in
    let entered = (promote_envelope_enters fact healthy worst).0 gate in
    let unspoilt =
      All-back (IsUnspoilt day) rows (day_rows c o day)
        (worst_matched (rows ++ day_rows c o day) day matched entered.1).1 in
    record {
      day = day;
      date = date;
      figures = made;
      source = entered.3;
      orders_match =
          unspoilt-Matches 1 day orders c.orders o.orders reason (and_left _ _ ok) unspoilt.0;
      gmv_match =
          unspoilt-Matches 100 day gmv c.gmv o.gmv reason (and_left _ _ (and_right _ _ ok))
            unspoilt.1.0;
      revenue_match =
          third-Matches (is_some o.merchant_revenue && is_some c.merchant_revenue) day
            c.merchant_revenue o.merchant_revenue c.revenue_reason
            (and_right _ _ (and_right _ _ ok)) unspoilt.1.1;
    }
