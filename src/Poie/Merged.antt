-- ===== src/Poie/Merged.antt =====
-- The queue after a merge, app/services/poie/arbitrate.py.
use meal_key_ecosystem.Base.{
  eq_iff, none, some, [], ◌∷◌, true, false, inl, inr, Holds, List, All, ◌≡◌, ◌⊎◌, ◌≤◌, take, String,
  All-append, arith, refl, Option, is_in, All-map, if◌then◌else◌, map, All-front, Bool, length,
  length-take_le, All-take,
}
use meal_key_ecosystem.Flow.Cards.{
  DecisionCard, OpsQueueBrief, QueueBucket, ArbiterState, is_need_you,
}
use meal_key_ecosystem.Poie.Order.{sort_by_score-All, sort_by_score-top, IsTopOf}
use meal_key_ecosystem.Poie.{
  trimmed, CandidateAction, candidate_to_card, cards_of, card_of, sort_by_score, place_card,
  place_cards, interrupt_threshold, asks_owner, is_noop, bucket_of, merge_candidates_into_queue,
  titles,
}

-- a card that asks the owner for something scores enough to interrupt
abbrev IsUrgent : DecisionCard → Type 0
IsUrgent c = (is_need_you c.queue_bucket ≡ false) ⊎ (interrupt_threshold ≤ c.priority_score)

asked_in :
    (s : ArbiterState) (x : CandidateAction)
    → x.suggested_state ≡ s
    → Holds IsUrgent (candidate_to_card x)
unfolding candidate_to_card card_of is_need_you bucket_of asks_owner is_noop
asked_in ArbiterState.auto_do x e = rw e (inl refl)
asked_in ArbiterState.confirm x e = rw e (ground arith)
asked_in ArbiterState.need_input x e = rw e (ground arith)
asked_in ArbiterState.report_result x e = rw e (inl refl)
asked_in ArbiterState.noop x e = rw e tt

next_card {ℓ} :
    (P : DecisionCard → Type ℓ) (o : Option DecisionCard) (cs : List DecisionCard)
    → Holds P o
    → All P cs
    → All P (elim o [ none ↦ cs | some c ↦ c ∷ cs ])
next_card P none cs h hs = hs
next_card P (some c) cs h hs = (h, hs)

cards_of-IsUrgent : (xs : List CandidateAction) → All IsUrgent (cards_of xs)
unfolding cards_of
cards_of-IsUrgent [] = tt
cards_of-IsUrgent (x ∷ xs) =
    next_card IsUrgent (candidate_to_card x) (cards_of xs) (asked_in x.suggested_state x refl)
      (cards_of-IsUrgent xs)

-- the cards for the owner that a merge adds have what its cards have
place_card-All {ℓ} :
    (P : DecisionCard → Type ℓ) (b : QueueBucket) (c : DecisionCard) (q : OpsQueueBrief)
    → (is_need_you b ≡ true → P c)
    → All P q.need_you
    → All P (place_card b c q).need_you
unfolding place_card is_need_you
place_card-All P QueueBucket.need_you_bucket c q h hs =
    All-append P q.need_you (c ∷ []) hs (h refl, tt)
place_card-All P QueueBucket.working_bucket c q h hs = hs
place_card-All P QueueBucket.result_bucket c q h hs = hs
place_card-All P QueueBucket.opportunity_bucket c q h hs = hs
place_card-All P QueueBucket.goal_bucket c q h hs = hs

placed-All {ℓ} :
    (P : DecisionCard → Type ℓ) (b : Bool) (c : DecisionCard) (q : OpsQueueBrief)
    → (is_need_you c.queue_bucket ≡ true → P c)
    → All P q.need_you
    → All P (if b then q else place_card c.queue_bucket c q).need_you
placed-All P true c q h hs = hs
placed-All P false c q h hs = place_card-All P c.queue_bucket c q h hs

place_cards-All {ℓ} :
    (P : DecisionCard → Type ℓ) (cs : List DecisionCard) (seen : List String) (q : OpsQueueBrief)
    → All (λ (c : DecisionCard). is_need_you c.queue_bucket ≡ true → P c) cs
    → All P q.need_you
    → All P (place_cards cs seen q).need_you
unfolding place_cards
place_cards-All P [] seen q h hs = hs
place_cards-All P (c ∷ cs) seen q h hs =
    place_cards-All P cs (if is_in c.title seen then seen else c.title ∷ seen)
      (if is_in c.title seen then q else place_card c.queue_bucket c q) h.1
      (placed-All P (is_in c.title seen) c q h.0 hs)

-- a merge takes no card away from the owner's list
place_card-keeps {ℓ} :
    (P : DecisionCard → Type ℓ) (b : QueueBucket) (c : DecisionCard) (q : OpsQueueBrief)
    → All P (place_card b c q).need_you
    → All P q.need_you
unfolding place_card
place_card-keeps P QueueBucket.need_you_bucket c q hs = All-front P q.need_you (c ∷ []) hs
place_card-keeps P QueueBucket.working_bucket c q hs = hs
place_card-keeps P QueueBucket.result_bucket c q hs = hs
place_card-keeps P QueueBucket.opportunity_bucket c q hs = hs
place_card-keeps P QueueBucket.goal_bucket c q hs = hs

placed-keeps {ℓ} :
    (P : DecisionCard → Type ℓ) (b : Bool) (c : DecisionCard) (q : OpsQueueBrief)
    → All P (if b then q else place_card c.queue_bucket c q).need_you
    → All P q.need_you
placed-keeps P true c q hs = hs
placed-keeps P false c q hs = place_card-keeps P c.queue_bucket c q hs

place_cards-keeps {ℓ} :
    (P : DecisionCard → Type ℓ) (cs : List DecisionCard) (seen : List String) (q : OpsQueueBrief)
    → All P (place_cards cs seen q).need_you
    → All P q.need_you
unfolding place_cards
place_cards-keeps P [] seen q hs = hs
place_cards-keeps P (c ∷ cs) seen q hs = placed-keeps P (is_in c.title seen) c q (
    place_cards-keeps P cs (if is_in c.title seen then seen else c.title ∷ seen)
      (if is_in c.title seen then q else place_card c.queue_bucket c q) hs)

-- a card of the queue before the merge, or one that scores enough to interrupt
abbrev pub IsWorth : OpsQueueBrief → DecisionCard → Type 0
IsWorth q c =
    (is_in c.id (map (λ (x : DecisionCard). x.id) q.need_you) ≡ true)
    ⊎ (interrupt_threshold ≤ c.priority_score)

own_id :
    (c : DecisionCard) (cs : List DecisionCard)
    → is_in c.id (map (λ (x : DecisionCard). x.id) (c ∷ cs)) ≡ true
own_id c cs = ground (arith, (eq_iff c.id c.id).1 refl)

later_id :
    (a : String) (c : DecisionCard) (cs : List DecisionCard)
    → is_in a (map (λ (x : DecisionCard). x.id) cs) ≡ true
    → is_in a (map (λ (x : DecisionCard). x.id) (c ∷ cs)) ≡ true
later_id a c cs h = ground (arith, h)

ids_in_own :
    (cs : List DecisionCard)
    → All (λ (c : DecisionCard). is_in c.id (map (λ (x : DecisionCard). x.id) cs) ≡ true) cs
ids_in_own [] = tt
ids_in_own (c ∷ cs) = (
  own_id c cs,
  All-map (λ (y : DecisionCard). is_in y.id (map (λ (x : DecisionCard). x.id) (c ∷ cs)) ≡ true) cs
      (λ y h. later_id y.id c cs h) (ids_in_own cs),
)

urgent-IsWorth :
    (q : OpsQueueBrief) (c : DecisionCard)
    → IsUrgent c
    → is_need_you c.queue_bucket ≡ true
    → IsWorth q c
urgent-IsWorth q c (inl e) h = absurd (ground (arith, e, h))
urgent-IsWorth q c (inr l) h = inr l

-- After a merge the queue has at most one card for the owner, six that are being worked on, four results
-- and two opportunities. The card for the owner was one before or scores at least 42, and none of the
-- owner's cards before the merge scores higher.
pub merge_candidates-IsBrief :
    (q : OpsQueueBrief) (candidates : List CandidateAction)
    → (let r = (merge_candidates_into_queue q candidates).0 in
        ((length r.need_you ≤ 1)
          × (length r.working ≤ 6)
          × (length r.results ≤ 4)
          × (length r.opportunities ≤ 2))
        × All (IsWorth q) r.need_you
        × All (IsTopOf q.need_you) r.need_you)
unfolding merge_candidates_into_queue trimmed
merge_candidates-IsBrief q candidates =
    let cs = sort_by_score (cards_of candidates) in
    let merged = place_cards cs (titles q) q in
    (
      (
        length-take_le 1 (sort_by_score merged.need_you),
        length-take_le 6 merged.working,
        length-take_le 4 merged.results,
        length-take_le 2 merged.opportunities,
      ),
      All-take (IsWorth q) 1 (sort_by_score merged.need_you) (
          sort_by_score-All (IsWorth q) merged.need_you (
            place_cards-All (IsWorth q) cs (titles q) q
              (All-map (λ (c : DecisionCard). is_need_you c.queue_bucket ≡ true → IsWorth q c) cs
                (λ c u. urgent-IsWorth q c u)
                (sort_by_score-All IsUrgent (cards_of candidates) (cards_of-IsUrgent candidates)))
              (All-map (IsWorth q) q.need_you (λ c h. inl h) (ids_in_own q.need_you)))),
      All-map (IsTopOf q.need_you) (take 1 (sort_by_score merged.need_you))
          (λ top h.
            place_cards-keeps (λ (c : DecisionCard). c.priority_score ≤ top.priority_score) cs
              (titles q) q h)
          (sort_by_score-top merged.need_you),
    )
