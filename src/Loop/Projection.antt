-- ===== src/Loop/Projection.antt =====
-- The three columns in which app/services/closed_loop.py shows a matter.
use meal_key_ecosystem.Base.{none, some, arith, true, ◌≡◌, Option-cases, if◌then◌else◌, inl, inr}
use meal_key_ecosystem.Loop.Thread.{ThreadState, same_state, is_canonical}
use meal_key_ecosystem.Loop.State.{
  at_now, closed, Item, LoopStatus, was_executed, canonical_status, in_observation, LoopResult,
  not_executed, result_ready, filed_state,
}
use meal_key_ecosystem.Loop.Invariant.{IsConsistent, agrees, is_consistent}

pub data LeftSlot : Type 0 where
  active waiting done need : LeftSlot

pub data CenterType : Type 0 where
  result_card progress approval : CenterType

pub data RightStatus : Type 0 where
  result_shown observe archived need_you : RightStatus

-- `_left_slot`
unfoldable pub left_slot : ThreadState → LeftSlot
left_slot ThreadState.approved = active
left_slot ThreadState.executing = active
left_slot ThreadState.analyzing = active
left_slot ThreadState.observing = waiting
left_slot ThreadState.completed = done
left_slot ThreadState.no_effect = done
left_slot ThreadState.cancelled = done
left_slot ThreadState.failed = done
left_slot _ = need

-- `_center_type`
unfoldable pub center_type : ThreadState → CenterType
center_type ThreadState.waiting_result = result_card
center_type ThreadState.completed = result_card
center_type ThreadState.no_effect = result_card
center_type ThreadState.approved = progress
center_type ThreadState.executing = progress
center_type ThreadState.observing = progress
center_type ThreadState.analyzing = progress
center_type _ = approval

-- `_right_status`
unfoldable pub right_status : ThreadState → RightStatus
right_status ThreadState.waiting_result = result_shown
right_status ThreadState.completed = result_shown
right_status ThreadState.no_effect = result_shown
right_status ThreadState.approved = observe
right_status ThreadState.executing = observe
right_status ThreadState.observing = observe
right_status ThreadState.analyzing = observe
right_status ThreadState.cancelled = archived
right_status ThreadState.failed = archived
right_status _ = need_you

-- `_thread_stage`: the pack's state, or one that the row's status stands for
stage_of_status : LoopStatus → ThreadState
stage_of_status was_executed = ThreadState.observing
stage_of_status in_observation = ThreadState.waiting_result
stage_of_status result_ready = ThreadState.waiting_result
stage_of_status not_executed = ThreadState.cancelled
stage_of_status _ = ThreadState.ready_to_execute

unfoldable pub thread_stage : Item → ThreadState
unfolding stage_of_status
thread_stage x = elim x.pack.thread_status [
  | none ↦ stage_of_status x.status
  | some s ↦ if is_canonical s then s else stage_of_status x.status
]

-- the columns that a status calls for
unfoldable pub left_of : LoopStatus → LeftSlot
left_of was_executed = waiting
left_of in_observation = waiting
left_of not_executed = done
left_of closed = done
left_of _ = need

unfoldable pub center_of : LoopStatus → CenterType
center_of was_executed = progress
center_of in_observation = progress
center_of result_ready = result_card
center_of closed = result_card
center_of _ = approval

unfoldable pub right_of : LoopStatus → RightStatus
right_of was_executed = observe
right_of in_observation = observe
right_of result_ready = result_shown
right_of closed = result_shown
right_of not_executed = archived
right_of at_now = need_you

columns_of :
    (s : LoopStatus) (r : LoopResult) (t : ThreadState)
    → agrees s r t ≡ true
    → (is_canonical t ≡ true)
      × (left_slot t ≡ left_of s)
      × (center_type t ≡ center_of s)
      × (right_status t ≡ right_of s)
unfolding is_canonical agrees same_state filed_state left_slot center_type right_status left_of
    center_of right_of
columns_of s r t h = ground (arith, h)

-- For a consistent matter the two readings of its state are the same, and each of the three columns shows
-- what the matter's status calls for.
pub columns_agree :
    (x : Item)
    → IsConsistent x
    → (thread_stage x ≡ canonical_status x)
      × (left_slot (thread_stage x) ≡ left_of x.status)
      × (center_type (thread_stage x) ≡ center_of x.status)
      × (right_status (thread_stage x) ≡ right_of x.status)
unfolding thread_stage canonical_status IsConsistent is_consistent
columns_agree x h = elim (Option-cases x.pack.thread_status) [
  | inl e ↦ ground (arith, h, e)
  | inr (s, e) ↦ ground (arith, h, e, columns_of x.status x.result s (ground (arith, h, e)))
]
