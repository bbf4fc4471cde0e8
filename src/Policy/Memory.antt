-- ===== src/Policy/Memory.antt =====
-- The strategy memory as the policy reads it, the owner's trust level, and the arbitration with its log
-- of decisions that the memory changed.
use meal_key_ecosystem.Base.{
  ℕ, String, Bool, true, false, ◌&&◌, Option, none, some, List, [], ◌∷◌, ◌++◌, ◌==◌, eq_nat, any_of,
  is_some, strip, if◌then◌else◌, ltb,
}
use meal_key_ecosystem.Models.{RowId, Time}
use meal_key_ecosystem.Policy.{
  Mode, auto_and_report, ask_approval, observe, drop_action, Request, core_arbitrate,
}

-- `StrategyMemoryRecord.result`
pub data Verdict : Type 0 where
  positive negative neutral unknown : Verdict

pub record StrategyMemory : Type 0 where
  pub store_id : RowId
  pub action_type : String
  pub result : Verdict
  pub lesson : String
  pub created_at : Time

is_negative : Verdict → Bool
is_negative negative = true
is_negative _ = false

is_positive : Verdict → Bool
is_positive positive = true
is_positive _ = false

pub has_negative_memory : List StrategyMemory → RowId → String → Bool
unfolding is_negative
has_negative_memory rows store action =
    any_of (λ m. eq_nat m.store_id store && m.action_type == action && is_negative m.result) rows

later : StrategyMemory → Option StrategyMemory → Option StrategyMemory
later m none = some m
later m (some n) = if ltb m.created_at n.created_at then some n else some m

-- the newest positive record
pub has_positive_memory : List StrategyMemory → RowId → String → Option StrategyMemory
unfolding is_positive later
has_positive_memory [] store action = none
has_positive_memory (m ∷ rows) store action =
    let rest = has_positive_memory rows store action in
    if eq_nat m.store_id store && m.action_type == action && is_positive m.result
    then later m rest
    else rest

-- `get_trust_level`, given the setting's text
unfoldable pub get_trust_level : String → ℕ
get_trust_level val =
    let v = strip val in if v == "1" then 1 else if v == "2" then 2 else if v == "3" then 3 else 0

-- a call of `record_memory_changed_decision`, which keeps one row a day of equal calls
pub record MemoryChanged : Type 0 where
  pub store_id : RowId
  pub action_type : String
  pub naive_mode : Mode
  pub learned_mode : Mode
  pub cause : String

same_mode : Mode → Mode → Bool
same_mode auto_and_report auto_and_report = true
same_mode ask_approval ask_approval = true
same_mode observe observe = true
same_mode drop_action drop_action = true
same_mode _ _ = false

-- `arbitrate_execution_mode` with a database, a store and an action type: the mode, and the log
unfoldable pub arbitrate_execution_mode :
    List StrategyMemory → RowId → Request → List MemoryChanged → Mode × List MemoryChanged
unfolding same_mode
arbitrate_execution_mode rows store r log =
    let neg = has_negative_memory rows store r.action_type in
    let pos = if neg then false else is_some (has_positive_memory rows store r.action_type) in
    let naive = core_arbitrate r false false in
    let learned = core_arbitrate r neg pos in
    (
      learned,
      (if same_mode naive learned
          then log
          else log
            ++ record {
              store_id = store;
              action_type = r.action_type;
              naive_mode = naive;
              learned_mode = learned;
              cause = if neg then "negative_drop" else "positive_boost";
            }
              ∷ []),
    )
