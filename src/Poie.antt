-- ===== src/Poie.antt =====
-- app/services/poie/arbitrate.py: candidates (app/schemas/poie.py) become cards of the queue that the
-- decision flow reads. A score is in hundredths; the texts that no card of Flow has are left out.
pub mod Order
pub mod Merged
use meal_key_ecosystem.Base.{
  none, some, [], ◌∷◌, true, false, String, Option, ℕ, Bool, ◌++◌, take, List, length, map,
  if◌then◌else◌, contains, ◌==◌, ◌&&◌, ◌-◌, is_in, leb, ltb, ◌||◌,
}
use meal_key_ecosystem.Flow.Cards.{
  ArbiterState, InterruptReason, QueueBucket, DecisionAction, DecisionCard, OpsQueueBrief,
}

pub record CandidateAction : Type 0 where
  pub id : String
  pub title : String
  pub trigger : String
  pub insight : String
  pub why_now : String
  pub already_did : String
  pub success_metric : String
  pub priority : ℕ  -- of its score
  pub suggested_state : ArbiterState
  pub interrupt_reason : InterruptReason

-- `_INTERRUPT_THRESHOLD`
abbrev pub interrupt_threshold : ℕ
interrupt_threshold = 4200

asks_owner : ArbiterState → Bool
asks_owner ArbiterState.confirm = true
asks_owner ArbiterState.need_input = true
asks_owner _ = false

is_noop : ArbiterState → Bool
is_noop ArbiterState.noop = true
is_noop _ = false

is_input : ArbiterState → Bool
is_input ArbiterState.need_input = true
is_input _ = false

bucket_of : ArbiterState → String → QueueBucket
unfolding asks_owner
bucket_of ArbiterState.auto_do trigger = QueueBucket.working_bucket
bucket_of ArbiterState.report_result trigger = QueueBucket.result_bucket
bucket_of s trigger =
    if trigger == "opportunity"
    then QueueBucket.opportunity_bucket
    else if trigger == "goal"
    then QueueBucket.need_you_bucket
    else if asks_owner s
    then QueueBucket.need_you_bucket
    else QueueBucket.working_bucket

choice : String → String → DecisionAction
choice label kind = record { label = label; kind = kind }

owner_actions : CandidateAction → List DecisionAction
unfolding is_input choice
owner_actions x =
    if contains x.id "missing_cost"
    then choice "上传成本表" "upload_cost" ∷ choice "稍后再说" "focus_intent" ∷ []
    else if is_input x.suggested_state || x.trigger == "understanding"
    then choice "在下方告诉我" "focus_intent" ∷ choice "稍后再说" "focus_intent" ∷ []
    else choice "交给 MealKey 执行" "focus_intent"
      ∷ choice "先说说你的顾虑" "focus_intent"
      ∷ choice "先不处理" "focus_intent"
      ∷ []

actions_in : QueueBucket → CandidateAction → List DecisionAction
unfolding owner_actions choice
actions_in QueueBucket.need_you_bucket x = owner_actions x
actions_in QueueBucket.opportunity_bucket x =
    choice "可以，你去推进" "focus_intent" ∷ choice "先记下" "focus_intent" ∷ []
actions_in _ x = []

card_of : CandidateAction → DecisionCard
unfolding bucket_of actions_in
card_of x = record {
  id = x.id;
  title = x.title;
  arbiter_state = x.suggested_state;
  interrupt_reason = x.interrupt_reason;
  queue_bucket = bucket_of x.suggested_state x.trigger;
  priority_score = x.priority;
  why_now = x.why_now;
  ai_judgment = x.insight;
  ai_already_did = x.already_did;
  success_metric = x.success_metric;
  meta = x.trigger;
  business_impact = "";
  actions = actions_in (bucket_of x.suggested_state x.trigger) x;
}

-- `candidate_to_card`
pub candidate_to_card : CandidateAction → Option DecisionCard
unfolding is_noop asks_owner card_of
candidate_to_card x =
    if is_noop x.suggested_state
    then none
    else if asks_owner x.suggested_state && ltb x.priority interrupt_threshold
    then none
    else some (card_of x)

cards_of : List CandidateAction → List DecisionCard
cards_of [] = []
cards_of (x ∷ xs) = elim (candidate_to_card x) [ none ↦ cards_of xs | some c ↦ c ∷ cards_of xs ]

-- `sorted(cards, key=..., reverse=True)`, which is stable
insert_by_score : DecisionCard → List DecisionCard → List DecisionCard
insert_by_score c [] = c ∷ []
insert_by_score c (x ∷ xs) =
    let rest = insert_by_score c xs in
    if leb x.priority_score c.priority_score then c ∷ x ∷ xs else x ∷ rest

pub sort_by_score : List DecisionCard → List DecisionCard
unfolding insert_by_score
sort_by_score [] = []
sort_by_score (c ∷ cs) = insert_by_score c (sort_by_score cs)

-- into the list of its bucket
place_card : QueueBucket → DecisionCard → OpsQueueBrief → OpsQueueBrief
place_card QueueBucket.need_you_bucket c q = record q { need_you = q.need_you ++ c ∷ [] }
place_card QueueBucket.working_bucket c q = record q { working = q.working ++ c ∷ [] }
place_card QueueBucket.result_bucket c q = record q { results = q.results ++ c ∷ [] }
place_card QueueBucket.opportunity_bucket c q = record q {
  opportunities = q.opportunities ++ c ∷ [];
}
place_card QueueBucket.goal_bucket c q = q

-- a card whose title is there already is left out
place_cards : List DecisionCard → List String → OpsQueueBrief → OpsQueueBrief
unfolding place_card
place_cards [] seen q = q
place_cards (c ∷ cs) seen q =
    place_cards cs (if is_in c.title seen then seen else c.title ∷ seen)
      (if is_in c.title seen then q else place_card c.queue_bucket c q)

titles : OpsQueueBrief → List String
titles q =
    map (λ (c : DecisionCard). c.title)
      (q.need_you ++ (q.working ++ (q.results ++ q.opportunities)))

trimmed : OpsQueueBrief → OpsQueueBrief
unfolding sort_by_score
trimmed q = record {
  need_you = take 1 (sort_by_score q.need_you);
  working = take 6 q.working;
  results = take 4 q.results;
  opportunities = take 2 q.opportunities;
}

-- `merge_candidates_into_queue`: the queue, and what it adds to `filtered_noop_count`
pub merge_candidates_into_queue : OpsQueueBrief → List CandidateAction → OpsQueueBrief × ℕ
unfolding place_cards trimmed titles cards_of
merge_candidates_into_queue queue candidates =
    let merged = place_cards (sort_by_score (cards_of candidates)) (titles queue) queue in
    (trimmed merged, length merged.need_you - length (take 1 (sort_by_score merged.need_you)))
