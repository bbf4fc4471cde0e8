-- ===== src/Loop/Thread.antt =====
-- The thread states of app/services/closed_loop.py, and the history that a matter's pack keeps.
use meal_key_ecosystem.Base.{
  ℕ, String, Bool, true, false, Option, none, some, List, [], ◌∷◌, eq_nat, or_text, if◌then◌else◌,
}
use meal_key_ecosystem.Models.{Time}

-- `CANONICAL_STATUSES`, and `APPROVED`, which stands between two of them
pub data ThreadState : Type 0 where
  discovered analyzing need_information need_approval ready_to_execute : ThreadState
  approved executing observing waiting_result completed failed cancelled no_effect : ThreadState

unfoldable pub is_canonical : ThreadState → Bool
is_canonical approved = false
is_canonical _ = true

state_number : ThreadState → ℕ
state_number discovered = 0
state_number analyzing = 1
state_number need_information = 2
state_number need_approval = 3
state_number ready_to_execute = 4
state_number approved = 5
state_number executing = 6
state_number observing = 7
state_number waiting_result = 8
state_number completed = 9
state_number failed = 10
state_number cancelled = 11
state_number no_effect = 12

unfoldable pub same_state : ThreadState → ThreadState → Bool
unfolding state_number
same_state a b = eq_nat (state_number a) (state_number b)

pub record HistoryRow : Type 0 where
  pub state : ThreadState
  pub at_time : Time
  pub note : String
  pub executor : String

-- a change of a metric, in hundredths of a percent
pub record Lift : Type 0 where
  pub is_drop : Bool
  pub size : ℕ

-- `pack["writeback"]`
pub record Writeback : Type 0 where
  pub ok : Bool
  pub mode : String
  pub summary : String
  pub error : String

-- The keys of `pack_json` that the loop reads and writes. `thread_status` is `none` where the key is
-- absent or names no state.
pub record Pack : Type 0 where
  pub thread_status : Option ThreadState
  pub thread_history : List HistoryRow
  pub requires_approval : Option Bool  -- of `action_spec`
  pub writeback : Option Writeback
  pub execution_mode : String
  pub lift_pct : Option Lift

-- `action_spec.get("requires_approval", True)`
unfoldable pub requires_approval : Pack → Bool
requires_approval p = elim p.requires_approval [ none ↦ true | some b ↦ b ]

touch : HistoryRow → Time → String → String → HistoryRow
touch row now note executor = record row {
  at_time = now;
  note = or_text row.note note;
  executor = or_text row.executor executor;
}

-- the last row is refreshed if it has the state, and a new row is appended if not
extend : List HistoryRow → ThreadState → Time → String → String → List HistoryRow
unfolding touch
extend [] s now note executor =
    record { state = s; at_time = now; note = note; executor = executor } ∷ []
extend (row ∷ []) s now note executor =
    if same_state row.state s
    then touch row now note executor ∷ []
    else row ∷ record { state = s; at_time = now; note = note; executor = executor } ∷ []
extend (row ∷ next ∷ rows) s now note executor = row ∷ extend (next ∷ rows) s now note executor

-- `_append_thread_state`
unfoldable pub append_thread_state : Pack → ThreadState → Time → String → String → Pack
unfolding extend
append_thread_state p s now note executor = record p {
  thread_history = extend p.thread_history s now note executor;
  thread_status = some s;
}
