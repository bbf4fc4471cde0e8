-- ===== src/Poie/Order.antt =====
-- The order of the owner's cards, app/services/poie/arbitrate.py.
use meal_key_ecosystem.Base.{
  [], ◌∷◌, inl, inr, List, ◌≢◌, All, ◌≡◌, arith, Bool-cases, refl, ◌≤◌, take, subst, leb, sym,
  All-map,
}
use meal_key_ecosystem.Flow.Cards.{DecisionCard}
use meal_key_ecosystem.Poie.{insert_by_score, sort_by_score}

-- what all cards have, the sorted cards have
insert_by_score-All {ℓ} :
    (P : DecisionCard → Type ℓ) (c : DecisionCard) (xs : List DecisionCard)
    → P c
    → All P xs
    → All P (insert_by_score c xs)
unfolding insert_by_score
insert_by_score-All P c [] h hs = (h, tt)
insert_by_score-All P c (x ∷ xs) h hs = elim (Bool-cases (leb x.priority_score c.priority_score)) [
  | inl e ↦ rw e (h, (hs.0, hs.1))
  | inr e ↦ rw e (hs.0, insert_by_score-All P c xs h hs.1)
]

pub sort_by_score-All {ℓ} :
    (P : DecisionCard → Type ℓ) (xs : List DecisionCard) → All P xs → All P (sort_by_score xs)
unfolding sort_by_score
sort_by_score-All P [] h = tt
sort_by_score-All P (c ∷ cs) h =
    insert_by_score-All P c (sort_by_score cs) h.0 (sort_by_score-All P cs h.1)

-- no card of a list scores higher
abbrev pub IsTopOf : List DecisionCard → DecisionCard → Type 0
IsTopOf xs top = All (λ (c : DecisionCard). c.priority_score ≤ top.priority_score) xs

insert_by_score-ne-nil : (c : DecisionCard) (xs : List DecisionCard) → insert_by_score c xs ≢ []
unfolding insert_by_score
insert_by_score-ne-nil c [] h = cc
insert_by_score-ne-nil c (x ∷ xs) h = ground (arith, h)

sort_nil : (cs : List DecisionCard) → sort_by_score cs ≡ [] → cs ≡ []
unfolding sort_by_score
sort_nil [] h = refl
sort_nil (c ∷ cs) h = absurd (insert_by_score-ne-nil c (sort_by_score cs) h)

insert_top :
    (c : DecisionCard) (cs ys : List DecisionCard)
    → sort_by_score cs ≡ ys
    → All (IsTopOf cs) (take 1 ys)
    → All (IsTopOf (c ∷ cs)) (take 1 (insert_by_score c ys))
unfolding insert_by_score
insert_top c cs [] e h =
    ((omega arith, subst (λ (xs : List DecisionCard). IsTopOf xs c) (sym (sort_nil cs e)) tt), tt)
insert_top c cs (x ∷ ys) e h = elim (Bool-cases (leb x.priority_score c.priority_score)) [
  | inl t ↦ rw t (
    (
      omega arith,
      All-map (λ (y : DecisionCard). y.priority_score ≤ c.priority_score) cs
          (λ y l. ground (arith, l, t)) h.0,
    ),
    tt,
  )
  | inr t ↦ rw t ((ground (arith, t), h.0), tt)
]

pub sort_by_score-top : (xs : List DecisionCard) → All (IsTopOf xs) (take 1 (sort_by_score xs))
unfolding sort_by_score
sort_by_score-top [] = tt
sort_by_score-top (c ∷ cs) = insert_top c cs (sort_by_score cs) refl (sort_by_score-top cs)
