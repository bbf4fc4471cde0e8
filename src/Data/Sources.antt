-- ===== src/Data/Sources.antt =====
-- app/services/truth_resolution.py: the sources of a figure, and which may replace which. A confidence is
-- in hundredths. A source that is absent is "".
pub mod Writes
use meal_key_ecosystem.Base.{
  ℕ, List, String, Option, or_else, some, map, lower, Bool, ◌∷◌, not, lookup, if◌then◌else◌, strip,
  keep, [], is_in, none, ◌==◌, ltb, true, ◌&&◌, false, leb,
}

abbrev pub legacy_unknown_source : String
legacy_unknown_source = "legacy_unknown_source"

abbrev pub never_production_truth : List String
never_production_truth =
    "synthetic" ∷ "mock" ∷ "fixture" ∷ "sandbox" ∷ "legacy_unknown_source"
    ∷ "invalid_reconciliation" ∷ "test_only" ∷ "external_daily_report_test" ∷ []

abbrev priority_table : List (String × ℕ)
priority_table =
    ("official_api", 90)
    ∷ ("official_api_reconciled", 90)
    ∷ ("service_provider_api", 85)
    ∷ ("authorized_session", 80)
    ∷ ("platform_sync", 50)
    ∷ ("file_import", 40)
    ∷ ("platform_export", 40)
    ∷ ("screenshot", 30)
    ∷ ("merchant_confirmation", 20)
    ∷ ("legacy_unknown_source", 0)
    ∷ ("synthetic", 0)
    ∷ ("mock", 0)
    ∷ ("fixture", 0)
    ∷ ("sandbox", 0)
    ∷ ("invalid_reconciliation", 0)
    ∷ ("test_only", 0)
    ∷ ("external_daily_report_test", 0)
    ∷ []

abbrev confidence_table : List (String × ℕ)
confidence_table =
    ("official_api", 90)
    ∷ ("official_api_reconciled", 90)
    ∷ ("service_provider_api", 85)
    ∷ ("authorized_session", 70)
    ∷ ("platform_sync", 65)
    ∷ ("file_import", 55)
    ∷ ("platform_export", 55)
    ∷ ("screenshot", 40)
    ∷ ("merchant_confirmation", 35)
    ∷ ("legacy_unknown_source", 0)
    ∷ ("synthetic", 0)
    ∷ ("mock", 0)
    ∷ ("fixture", 0)
    ∷ ("sandbox", 0)
    ∷ ("invalid_reconciliation", 0)
    ∷ ("test_only", 0)
    ∷ ("external_daily_report_test", 0)
    ∷ []

abbrev source_aliases : List (String × String)
source_aliases =
    ("authorized_session", "authorized_session")
    ∷ ("official_api", "official_api")
    ∷ ("service_provider_api", "service_provider_api")
    ∷ ("platform_sync", "platform_sync")
    ∷ ("platform_export", "platform_export")
    ∷ ("file_import", "file_import")
    ∷ ("screenshot", "screenshot")
    ∷ ("merchant_confirmation", "merchant_confirmation")
    ∷ ("legacy_unknown_source", "legacy_unknown_source")
    ∷ ("synthetic", "synthetic")
    ∷ ("mock", "mock")
    ∷ ("fixture", "fixture")
    ∷ ("sandbox", "sandbox")
    ∷ ("invalid_reconciliation", "invalid_reconciliation")
    ∷ ("test_only", "test_only")
    ∷ ("external_daily_report_test", "external_daily_report_test")
    ∷ []

unfoldable pub normalize_source : String → String
normalize_source raw =
    let key = lower (strip raw) in
    if key == "" then legacy_unknown_source else or_else (lookup key source_aliases) key

unfoldable pub is_never_truth : String → Bool
is_never_truth source = is_in source never_production_truth

unfoldable pub is_production_truth_source : String → Bool
is_production_truth_source raw = not (is_never_truth (normalize_source raw))

unfoldable pub source_priority : String → ℕ
source_priority raw = or_else (lookup (normalize_source raw) priority_table) 10

-- `may_write_funnel_truth`. The source tests take the normalized names and normalize them again.
unfoldable pub may_write_funnel_truth : String → String → Bool
may_write_funnel_truth existing incoming =
    if strip existing == ""
    then true
    else let new = normalize_source incoming in
      let old = normalize_source existing in
      if is_never_truth new && not (is_never_truth old)
      then false
      else leb (source_priority old) (source_priority new)

lowest : ℕ → List String → ℕ
lowest best [] = best
lowest best (s ∷ rest) =
    let c = or_else (lookup s confidence_table) 50 in lowest (if ltb c best then c else best) rest

-- `confidence_for_sources`: the lowest confidence of the production sources, 0 if there is none
unfoldable pub confidence_for_sources : List String → ℕ
unfolding lowest
confidence_for_sources sources =
    elim (map normalize_source (keep is_production_truth_source sources)) [
      | [] ↦ 0
      | s ∷ rest ↦ lowest (or_else (lookup s confidence_table) 50) rest
    ]

-- the funnel row of a day
pub record Funnel : Type 0 where
  pub orders : ℕ
  pub gmv : ℕ
  pub data_source : String

-- `_upsert_funnel` of app/services/data_acquisition_ingest.py, on the row of the store and day
unfoldable pub upsert_funnel : Option Funnel → Funnel → Option Funnel
upsert_funnel none new = some new
upsert_funnel (some old) new =
    if may_write_funnel_truth old.data_source new.data_source then some new else some old
