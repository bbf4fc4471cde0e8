-- ===== src/Policy/Lessons.antt =====
-- app/services/strategy_memory.py: what an experiment teaches, and app/services/memory_lifecycle.py: how a
-- lesson ages. Times are seconds; a confidence is a fraction, exact where the code has a float.
-- The lesson's texts and tags are left out.
pub mod Newest
pub mod Aging
use meal_key_ecosystem.Base.{
  none, some, true, false, Bool, if◌then◌else◌, ℕ, List, any_of, ltb, Option, eq_nat, String, ◌*◌,
  keep, first, ◌∷◌, map, ◌-◌, not, ◌+◌, ◌&&◌, update, [], ◌++◌, ◌/◌, ◌==◌, or_else,
}

-- `Experiment.result` and `StrategyMemoryRecord.result`
pub data LessonResult : Type 0 where
  pending unknown positive neutral negative expired : LessonResult

pub data Quality : Type 0 where
  high medium low : Quality

pub record Fraction : Type 0 where
  pub num : ℕ
  pub den : ℕ

-- the columns of `StrategyMemoryRecord` that are written here
pub record Lesson : Type 0 where
  pub id : ℕ
  pub store_id : ℕ
  pub experiment_id : ℕ
  pub action_type : String
  pub result : LessonResult
  pub confidence : Fraction
  pub created_at : ℕ

-- the columns of an experiment and its recommendation that are read
pub record Finished : Type 0 where
  pub experiment_id : ℕ
  pub store_id : ℕ
  pub result : LessonResult
  pub attribution_quality : Quality
  pub action_type : Option String  -- of the recommendation, if there is one

-- `{"high": 1.0, "medium": 0.8, "low": 0.5}`, in tenths
multiplier : Quality → ℕ
multiplier high = 10
multiplier medium = 8
multiplier low = 5

is_success : LessonResult → Bool
is_success positive = true
is_success _ = false

-- `round(base_confidence * quality_multiplier, 2)`; no product ends in a half, so the nearest hundredth is
-- `(n + 5) / 10` of the thousandths
adjusted_confidence : LessonResult → Quality → Fraction
unfolding multiplier is_success
adjusted_confidence result quality = record {
  num = ((if is_success result then 72 else 64) * multiplier quality + 5) / 10;
  den = 100;
}

is_unsettled : LessonResult → Bool
is_unsettled pending = true
is_unsettled unknown = true
is_unsettled _ = false

is_of : ℕ → Lesson → Bool
is_of experiment l = eq_nat l.experiment_id experiment

-- `upsert_strategy_memory_from_experiment`: an open experiment teaches nothing; otherwise the lesson of the
-- experiment is rewritten, or one is added under the id `fresh`
pub upsert_strategy_memory : List Lesson → Finished → ℕ → ℕ → List Lesson
unfolding adjusted_confidence is_unsettled is_of
upsert_strategy_memory rows e fresh now =
    let c = adjusted_confidence e.result e.attribution_quality in
    if is_unsettled e.result
    then rows
    else if any_of (is_of e.experiment_id) rows
    then update (is_of e.experiment_id)
        (λ (l : Lesson). record l { result = e.result; confidence = c }) rows
    else rows
      ++ record {
        id = fresh;
        store_id = e.store_id;
        experiment_id = e.experiment_id;
        action_type = or_else e.action_type "unknown";
        result = e.result;
        confidence = c;
        created_at = now;
      }
        ∷ []

pub same_action : Lesson → Lesson → Bool
same_action a b = eq_nat a.store_id b.store_id && a.action_type == b.action_type

newer : Lesson → Lesson → Lesson
newer best l = if ltb best.created_at l.created_at then l else best

-- the newest lesson of the same store and action, the first of equally new ones
newest : Lesson → List Lesson → Lesson → Lesson
unfolding newer same_action
newest key [] best = best
newest key (l ∷ rest) best = newest key rest (if same_action key l then newer best l else best)

pub latest : List Lesson → Lesson → Lesson
unfolding newest same_action
latest rows l = elim (first (same_action l) rows) [ some best ↦ newest l rows best | none ↦ l ]

is_expired : LessonResult → Bool
is_expired expired = true
is_expired _ = false

-- the fraction is above three tenths
above_30 : Fraction → Bool
above_30 c = ltb (3 * c.den) (10 * c.num)

-- what a run makes of one lesson, given the newest of its action
aged : ℕ → Lesson → Lesson → Lesson
unfolding is_expired above_30
aged now newest_one l =
    let age = (now - l.created_at) / 86400 in
    if ltb 365 age
    then (if is_expired l.result
        then l
        else record l { result = expired; confidence = record { num = 0; den = 1 } })
    else if ltb 180 age
    then (if above_30 l.confidence
        then record l { confidence = record { num = 3; den = 10 } }
        else l)
    else if not (eq_nat newest_one.id l.id) && above_30 l.confidence
    then record l {
      confidence = record { num = 6 * l.confidence.num; den = 10 * l.confidence.den };
    }
    else l

-- `run_memory_lifecycle`. The newest lessons are found before any is changed; no time of creation changes.
pub run_memory_lifecycle : List Lesson → ℕ → List Lesson
unfolding aged latest
run_memory_lifecycle rows now = map (λ (l : Lesson). aged now (latest rows l) l) rows

-- `get_active_memories`, without its order and limit
pub active_memories : List Lesson → ℕ → List Lesson
unfolding is_expired
active_memories rows store =
    keep
      (λ (l : Lesson).
        eq_nat l.store_id store
        && not (is_expired l.result)
        && ltb l.confidence.den (10 * l.confidence.num))
      rows
