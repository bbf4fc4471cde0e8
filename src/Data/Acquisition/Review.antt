-- ===== src/Data/Acquisition/Review.antt =====
-- `classify_poc_review` of app/services/data_acquisition_pipeline.py: the verdict over the runs of a trial.
use meal_key_ecosystem.Base.{
  none, some, ℕ, [], ◌∷◌, arith, List, Bool, ◌*◌, if◌then◌else◌, String, ◌+◌, ◌≡◌, not, ◌++◌,
  sorted_set, false, ◌||◌, true, eq_nat, ◌&&◌, ◌≤◌, length, leb, ltb, All, refl, append-nil_parts,
  sorted_set-nil,
}
use meal_key_ecosystem.Data.Acquisition.{CollectorRun, Ratio, is_unhealthy}
use Prim.Native.String.{◌++◌ as ◌+++◌, String}

pub data Verdict : Type 0 where
  pass pass_with_limits rework stop : Verdict

pub record PocReview : Type 0 where
  pub verdict : Verdict
  pub day_count : ℕ
  pub reliability_ok : Bool
  pub limits : List String
  pub stop_reasons : List String
  pub reached_candidate_action : Bool

-- `r.health_status in _UNHEALTHY`, counted
unfoldable pub unhealthy_runs : List CollectorRun → ℕ
unhealthy_runs [] = 0
unhealthy_runs (r ∷ rest) =
    let n = unhealthy_runs rest in if is_unhealthy r.health_status then n + 1 else n

unfoldable pub add_ratio : Ratio → Ratio → Ratio
add_ratio a b = record { num = a.num * b.den + b.num * a.den; den = a.den * b.den }

-- the rates that are there: their sum and their number
unfoldable pub sum_rates : List CollectorRun → Ratio × ℕ
unfolding add_ratio
sum_rates [] = (record { num = 0; den = 1 }, 0)
sum_rates (r ∷ rest) =
    let (total, n) = sum_rates rest in
    elim r.reconciliation_rate [ none ↦ (total, n) | some a ↦ (add_ratio a total, n + 1) ]

-- `avg_rate >= 0.99`; with no rate the average is 0
unfoldable pub is_reliable_rate : List CollectorRun → Bool
unfolding sum_rates
is_reliable_rate runs =
    let (total, n) = sum_rates runs in
    not (eq_nat n 0) && leb (99 * (n * total.den)) (100 * total.num)

unfoldable pub all_unknown : List CollectorRun → List String
all_unknown [] = []
all_unknown (r ∷ rest) = r.unknown_fields ++ all_unknown rest

unfoldable pub unknown_limits : List String → List String
unknown_limits [] = []
unknown_limits (name ∷ rest) = ("UNKNOWN:" +++ name) ∷ unknown_limits rest

unfoldable pub limits_of : List CollectorRun → Bool → List String
unfolding all_unknown unknown_limits
limits_of runs reached =
    unknown_limits (sorted_set (all_unknown runs))
    ++ (if reached then [] else "no_candidate_action" ∷ [])

unfoldable pub is_nil : List String → Bool
is_nil [] = true
is_nil (x ∷ xs) = false

unfoldable pub classify_poc_review : List CollectorRun → Bool → Bool → Bool → PocReview
unfolding is_nil
classify_poc_review runs reached security pii =
    if security || pii
    then record {
      verdict = stop;
      day_count = length runs;
      reliability_ok = false;
      limits = [];
      stop_reasons =
          (if security then "credential_or_unauthorized" ∷ [] else [])
          ++ (if pii then "unnecessary_pii" ∷ [] else []);
      reached_candidate_action = reached;
    }
    else if ltb (length runs) 7
    then record {
      verdict = rework;
      day_count = length runs;
      reliability_ok = false;
      limits = "incomplete_7_days" ∷ [];
      stop_reasons = [];
      reached_candidate_action = reached;
    }
    else let ok = eq_nat (unhealthy_runs runs) 0 && is_reliable_rate runs in
      let limits = limits_of runs reached in
      record {
        verdict = if not ok then rework else (if is_nil limits then pass else pass_with_limits);
        day_count = length runs;
        reliability_ok = ok;
        limits = limits;
        stop_reasons = [];
        reached_candidate_action = reached;
      }

-- the run of one day is healthy and knows every field
abbrev pub IsClean : CollectorRun → Type 0
IsClean r = (is_unhealthy r.health_status ≡ false) × (r.unknown_fields ≡ [])

runs-IsClean :
    (runs : List CollectorRun) → unhealthy_runs runs ≡ 0 → all_unknown runs ≡ [] → All IsClean runs
unfolding unhealthy_runs all_unknown
runs-IsClean [] h u = tt
runs-IsClean (r ∷ rest) h u =
    let (mine, others) = append-nil_parts r.unknown_fields (all_unknown rest) u in
    ((ground (arith, h), mine), runs-IsClean rest (ground (arith, h)) others)

unknown_limits-nil : (xs : List String) → unknown_limits xs ≡ [] → xs ≡ []
unfolding unknown_limits
unknown_limits-nil [] h = refl
unknown_limits-nil (x ∷ xs) h = cc

limits_nil :
    (runs : List CollectorRun) (reached : Bool)
    → limits_of runs reached ≡ []
    → (reached ≡ true) × (all_unknown runs ≡ [])
unfolding limits_of
limits_nil runs reached h =
    let (a, b) = append-nil_parts (unknown_limits (sorted_set (all_unknown runs))) _ h in
    (
      ground (arith, b),
      sorted_set-nil (all_unknown runs) (unknown_limits-nil (sorted_set (all_unknown runs)) a),
    )

-- A trial passes without limits only if no rule was broken, it ran on at least seven days, the owner was
-- led to an action, no run was unhealthy or left a field unknown, and the rates were good enough.
pub classify_poc_review_pass :
    (runs : List CollectorRun) (reached security pii : Bool)
    → (classify_poc_review runs reached security pii).verdict ≡ pass
    → (security ≡ false)
      × (pii ≡ false)
      × (7 ≤ length runs)
      × (reached ≡ true)
      × (is_reliable_rate runs ≡ true)
      × All IsClean runs
unfolding classify_poc_review is_nil
classify_poc_review_pass runs reached security pii h =
    let gate : (security ≡ false)
        × (pii ≡ false)
        × (7 ≤ length runs)
        × (limits_of runs reached ≡ [])
        × (unhealthy_runs runs ≡ 0)
        × (is_reliable_rate runs ≡ true) =
      (
        ground (arith, h),
        ground (arith, h),
        ground (arith, h),
        ground (arith, h),
        ground (arith, h),
        ground (arith, h),
      ) in
    let (s, p, days, none_left, well, rate) = gate in
    let (r, known) = limits_nil runs reached none_left in
    (s, p, days, r, rate, runs-IsClean runs well known)
