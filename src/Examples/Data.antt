-- ===== src/Examples/Data.antt =====
-- Figures of a day and the runs that bring them.
use meal_key_ecosystem.Data.Reports.{no_row, ReportRow}
use meal_key_ecosystem.Data.Sources.{
  source_priority, normalize_source, is_never_truth, is_production_truth_source, Funnel,
}
use meal_key_ecosystem.Base.{
  lookup, strip, lower, [], ◌∷◌, none, some, true, false, List, All, arith, Holds, String, ◌≡◌,
  Option, ◌↔◌, refl, ℕ, is_some, if◌then◌else◌, ◌==◌, ◌≢◌,
}
use meal_key_ecosystem.Data.Sources.Writes.{upsert_all, upsert_all-HoldsTruth, HoldsTruth}
use meal_key_ecosystem.Data.Acquisition.{
  FactEnvelope, promote_envelope, can_enter_high_confidence_storestate, official_api, screenshot,
  healthy, matched, is_unhealthy, unchecked,
}
use meal_key_ecosystem.Data.Acquisition.Gate.{promote_envelope_enters}
use meal_key_ecosystem.Data.Ingest.{AcquisitionDb, IngestRequest, ingest_reconciliation, Answer}
use meal_key_ecosystem.Data.Ingest.Reconciled.{ingest_reconciliation-All}
use meal_key_ecosystem.Data.Ingest.Promoted.{IsReported}

abbrev official : Funnel
official = record { orders = 40; gmv = 120000; data_source = "official_api" }

abbrev guessed : Funnel
guessed = record { orders = 90; gmv = 900000; data_source = "mock" }

abbrev session_figures : Funnel
session_figures = record { orders = 41; gmv = 121000; data_source = "Authorized_Session" }

official-HoldsTruth : HoldsTruth 90 (some official)
unfolding is_production_truth_source is_never_truth normalize_source lower strip lookup
    source_priority
official-HoldsTruth = record {
  figures = official;
  stored = refl;
  production = refl;
  ranked = omega arith;
}

upsert_all-HoldsTruth_example :
    HoldsTruth 90 (upsert_all (some official) (guessed ∷ session_figures ∷ []))
upsert_all-HoldsTruth_example =
    upsert_all-HoldsTruth 90 (some official) (guessed ∷ session_figures ∷ []) official-HoldsTruth

abbrev fact : FactEnvelope
fact = record {
  value = some 120000;
  acquisition_mode = official_api;
  confidence = 0;
  reconciliation_status = unchecked;
}

promote_envelope_enters_example :
    (can_enter_high_confidence_storestate (promote_envelope fact healthy matched) ≡ true) ↔ (
      (is_unhealthy healthy ≡ false)
      × (matched ≡ matched)
      × (is_some fact.value ≡ true)
      × (fact.acquisition_mode ≢ screenshot))
promote_envelope_enters_example = promote_envelope_enters fact healthy matched

abbrev report : List ReportRow
report =
    (record no_row { day = "2024-05-01"; orders = some 40; gmv = some 120000 })
    ∷ (record no_row { day = "2024-05-02"; orders = some 10; gmv = some 30000 })
    ∷ []

abbrev collected : List ReportRow
collected =
    (record no_row { day = "2024-05-01"; orders = some 40; gmv = some 120500 })
    ∷ (record no_row { day = "2024-05-02"; orders = some 30; gmv = some 90000 })
    ∷ []

abbrev request : IngestRequest
request = record {
  official_rows = report;
  collector_rows = collected;
  acquisition_mode = official_api;
  mode_text = "official_api";
  baseline_only = false;
  auth_status = "authorized";
  data_source = "";
  unknown = [];
}

abbrev parse_may : String → Option ℕ
parse_may day =
    if day == "2024-05-01" then some 1 else (if day == "2024-05-02" then some 2 else none)

abbrev empty_db : AcquisitionDb
empty_db = record { funnels = []; runs = []; reconciliations = [] }

ingest_reconciliation-All_example :
    Holds
      (λ (x : AcquisitionDb × Answer). All (IsReported parse_may request) x.0.funnels)
      (ingest_reconciliation parse_may empty_db request)
ingest_reconciliation-All_example =
    ingest_reconciliation-All (IsReported parse_may request) parse_may request (λ entry h. h)
      empty_db tt
