-- ===== src/Flow/Project/Running.antt =====
-- What the system says that it does by itself.
use meal_key_ecosystem.Flow.Cards.{OpsQueueBrief}
use meal_key_ecosystem.Base.{
  [], ◌∷◌, List, ℕ, Bool, String, is_in, length, take, Bool-cases, suc, inl, ◌≤◌, ◌≡◌, false, map,
  inr, if◌then◌else◌, zero, length-take_le,
}
use meal_key_ecosystem.Flow.Project.{Doing, key_of, distinct, auto_doing, OpsQueueBrief, doing_card}

-- No key of the list is among those seen, and none comes twice.
abbrev pub IsDistinct : List String → List Doing → Type 0
IsDistinct seen [] = Unit
IsDistinct seen (d ∷ rest) = (is_in (key_of d) seen ≡ false) × IsDistinct (key_of d ∷ seen) rest

distinct-IsDistinct : (seen : List String) (ds : List Doing) → IsDistinct seen (distinct seen ds)
unfolding distinct
distinct-IsDistinct seen [] = tt
distinct-IsDistinct seen (d ∷ rest) = elim (Bool-cases (is_in (key_of d) seen)) [
  | inl e ↦ rw e (distinct-IsDistinct seen rest)
  | inr e ↦ rw e (e, distinct-IsDistinct (key_of d ∷ seen) rest)
]

take-IsDistinct :
    (n : ℕ) (seen : List String) (ds : List Doing)
    → IsDistinct seen ds
    → IsDistinct seen (take n ds)
take-IsDistinct zero seen ds h = tt
take-IsDistinct (suc n) seen [] h = tt
take-IsDistinct (suc n) seen (d ∷ rest) h = (h.0, take-IsDistinct n (key_of d ∷ seen) rest h.1)

-- Of what the system does by itself, at most four things are shown, and none twice.
pub auto_doing_bounded :
    (queue : OpsQueueBrief) (protect : Bool)
    → (length (auto_doing queue protect) ≤ 4) × IsDistinct [] (auto_doing queue protect)
unfolding auto_doing
auto_doing_bounded queue protect =
    let cards = map doing_card (take 3 queue.working) in
    let all =
      distinct []
        (if protect then record { title = "盯售罄 / 闭店 / 骤降"; id = "" } ∷ cards else cards) in
    (length-take_le 4 all, take-IsDistinct 4 [] all (distinct-IsDistinct [] _))
