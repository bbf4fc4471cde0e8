-- ===== src/Data/Acquisition.antt =====
-- app/services/data_acquisition_pipeline.py, with the types of app/schemas/data_acquisition.py. Figures
-- are natural numbers of a metric's smallest part, `unit` of which are the code's 1.0; a ratio is a pair
-- of a numerator and a denominator, exact where the code has a float. A confidence is in hundredths.
pub mod Gate
pub mod Review
pub mod Rows
use meal_key_ecosystem.Base.{
  ℕ, none, some, [], ◌∷◌, if◌then◌else◌, Option, List, Bool, String, keep, ◌==◌, is_in, ◌&&◌, ltb,
  or_text, length, ◌||◌, leb, ◌+◌, true, eq_nat, ◌*◌, ◌-◌, is_some, not, false, suc, zero,
}

pub data AcquisitionMode : Type 0 where
  official_api service_provider_api authorized_session : AcquisitionMode
  file_import screenshot merchant_confirmation : AcquisitionMode

pub data Health : Type 0 where
  healthy degraded auth_required rate_limited schema_changed unavailable : Health

pub data Reconciliation : Type 0 where
  unchecked matched explainable_diff mismatch blocked : Reconciliation

pub data Metric : Type 0 where
  orders gmv merchant_revenue refund sku_sales : Metric

pub record Ratio : Type 0 where
  pub num : ℕ
  pub den : ℕ

pub record ReconciliationRow : Type 0 where
  pub day : String
  pub metric : Metric
  pub collector_value : ℕ
  pub official_value : ℕ
  pub absolute_diff : ℕ
  pub relative_diff : Ratio
  pub reason : String
  pub status : Reconciliation

-- the columns of `FactEnvelope` that the promotion reads and writes
pub record FactEnvelope : Type 0 where
  pub value : Option ℕ
  pub acquisition_mode : AcquisitionMode
  pub confidence : ℕ
  pub reconciliation_status : Reconciliation

pub record CollectorRun : Type 0 where
  pub health_status : Health
  pub facts_collected : ℕ
  pub facts_rejected : ℕ
  pub facts_unknown : ℕ
  pub reconciliation_rate : Option Ratio
  pub critical_value_diff : Option Ratio
  pub auth_status : String
  pub unknown_fields : List String

abbrev pub order_fact_allowlist : List String
order_fact_allowlist =
    "order_id_hash" ∷ "ordered_at" ∷ "sku_id" ∷ "sku_name" ∷ "quantity" ∷ "gross_amount"
    ∷ "merchant_discount" ∷ "platform_discount" ∷ "merchant_revenue" ∷ "refund_amount"
    ∷ "fulfillment_status" ∷ "fulfillment_duration" ∷ []

abbrev pub pii_denied_keys : List String
pii_denied_keys = "name" ∷ "customer_name" ∷ "phone" ∷ "mobile" ∷ "address" ∷ "full_address" ∷ []

abbrev pub poc_minimal_fact_keys : List String
poc_minimal_fact_keys = "order_count" ∷ "gross_gmv" ∷ "merchant_revenue" ∷ "refund_amount" ∷ []

unfoldable pub is_rejected : String → Bool
is_rejected key = is_in key pii_denied_keys || not (is_in key order_fact_allowlist)

-- `filter_payload`: the keys that are kept with their values, and the number of those that are not
pub filter_payload {ℓ} : {A : Type ℓ} → List (String × A) → List (String × A) × ℕ
filter_payload [] = ([], 0)
filter_payload ((key, value) ∷ rest) =
    let (kept, rejected) = filter_payload rest in
    if is_rejected key then (kept, rejected + 1) else ((key, value) ∷ kept, rejected)

distance : ℕ → ℕ → ℕ
distance a b = if leb a b then b - a else a - b

-- `rel <= match_tolerance`, a tolerance of one hundredth
unfoldable pub is_close : Ratio → Bool
is_close r = leb (r.num * 100) r.den

unfoldable pub relative_to : ℕ → ℕ → ℕ → Ratio
unfolding distance
relative_to unit collector official = record {
  num = distance collector official;
  den = if eq_nat official 0 then unit else official;
}

status_of : Ratio → String → Reconciliation
unfolding is_close
status_of rel reason =
    if is_close rel then matched else (if reason == "" then mismatch else explainable_diff)

missing_side : String → Metric → ℕ → ℕ → String → ReconciliationRow
missing_side day metric collector official reason = record {
  day = day;
  metric = metric;
  collector_value = collector;
  official_value = official;
  absolute_diff = 0;
  relative_diff = record { num = 0; den = 1 };
  reason = or_text reason "missing_side";
  status = unchecked;
}

unfoldable pub reconcile_row :
    ℕ → String → Metric → Option ℕ → Option ℕ → String → ReconciliationRow
unfolding status_of missing_side
reconcile_row unit day metric (some c) (some o) reason =
    let rel = relative_to unit c o in
    record {
      day = day;
      metric = metric;
      collector_value = c;
      official_value = o;
      absolute_diff = rel.num;
      relative_diff = rel;
      reason = reason;
      status = status_of rel reason;
    }
reconcile_row unit day metric none none reason = missing_side day metric 0 0 reason
reconcile_row unit day metric (some c) none reason = missing_side day metric c 0 reason
reconcile_row unit day metric none (some o) reason = missing_side day metric 0 o reason

-- `_MODE_CONFIDENCE`
unfoldable pub mode_confidence : AcquisitionMode → ℕ
mode_confidence official_api = 95
mode_confidence service_provider_api = 90
mode_confidence authorized_session = 70
mode_confidence file_import = 75
mode_confidence screenshot = 40
mode_confidence merchant_confirmation = 85

-- `_UNHEALTHY`
unfoldable pub is_unhealthy : Health → Bool
is_unhealthy auth_required = true
is_unhealthy schema_changed = true
is_unhealthy unavailable = true
is_unhealthy _ = false

-- `recon in {"UNCHECKED", "MISMATCH", "BLOCKED"}`
is_unreconciled : Reconciliation → Bool
is_unreconciled unchecked = true
is_unreconciled mismatch = true
is_unreconciled blocked = true
is_unreconciled _ = false

is_explainable : Reconciliation → Bool
is_explainable explainable_diff = true
is_explainable _ = false

unfoldable pub is_matched : Reconciliation → Bool
is_matched matched = true
is_matched _ = false

unfoldable pub promote_envelope : FactEnvelope → Health → Reconciliation → FactEnvelope
unfolding is_unreconciled is_explainable
promote_envelope e state recon =
    let most = mode_confidence e.acquisition_mode in
    if is_unhealthy state || is_unreconciled recon
    then record e {
      reconciliation_status = if is_unhealthy state then blocked else recon;
      confidence = 0;
    }
    else record e {
      reconciliation_status = recon;
      confidence = if is_explainable recon then (if leb most 55 then most else 55) else most;
    }

unfoldable pub can_enter_high_confidence_storestate : FactEnvelope → Bool
can_enter_high_confidence_storestate e =
    is_matched e.reconciliation_status && leb 70 e.confidence && is_some e.value

pub unknown_minimal_fields : List String → List String
unknown_minimal_fields have = keep (λ key. not (is_in key have)) poc_minimal_fact_keys

unfoldable pub is_reconciled : Reconciliation → Bool
is_reconciled matched = true
is_reconciled explainable_diff = true
is_reconciled _ = false

is_money : Metric → Bool
is_money gmv = true
is_money merchant_revenue = true
is_money refund = true
is_money _ = false

larger : Ratio → Option Ratio → Ratio
larger a none = a
larger a (some b) = if ltb (a.num * b.den) (b.num * a.den) then b else a

-- `max(r.relative_diff for r in money_rows)`
largest_diff : List ReconciliationRow → Option Ratio
unfolding larger
largest_diff [] = none
largest_diff (r ∷ rest) = some (larger r.relative_diff (largest_diff rest))

-- `matched / len(rows)`, if there are rows
rate_of : ℕ → ℕ → Option Ratio
rate_of good zero = none
rate_of good (suc n) = some (record { num = good; den = suc n })

-- `build_collector_run`; its times and ids are left out
pub build_collector_run :
    Health → ℕ → ℕ → List String → List ReconciliationRow → String → CollectorRun
unfolding largest_diff is_money rate_of
build_collector_run state collected rejected unknown rows auth = record {
  health_status = state;
  facts_collected = collected;
  facts_rejected = rejected;
  facts_unknown = length unknown;
  reconciliation_rate =
      rate_of (length (keep (λ (x : ReconciliationRow). is_reconciled x.status) rows))
        (length rows);
  critical_value_diff = largest_diff (keep (λ (x : ReconciliationRow). is_money x.metric) rows);
  auth_status = auth;
  unknown_fields = unknown;
}
