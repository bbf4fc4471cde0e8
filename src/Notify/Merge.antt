-- ===== src/Notify/Merge.antt =====
-- The texts of a row that gathers several notices, app/services/notification_service.py.
use Prim.Native.Char.{Char, code}
use Prim.Native.String.{◌++◌ as ◌+++◌}
use meal_key_ecosystem.Base.{
  ℕ, String, ◌≡◌, cut, Bool, if◌then◌else◌, List, ◌∷◌, refl, [], leb, strip, ◌==◌, ◌++◌, ◌||◌,
  or_text, ◌&&◌, is_in, eq_nat, decimal, ◌≤◌, true, arith,
}

-- `splitlines`, up to empty lines
is_line_end : ℕ → Bool
is_line_end c =
    (leb 10 c && leb c 13)
    || (leb 28 c && leb c 30)
    || eq_nat c 133
    || eq_nat c 8232
    || eq_nat c 8233

with_letter : Char → List String → List String
with_letter c [] = String.◌∷◌ c "" ∷ []
with_letter c (line ∷ rest) = String.◌∷◌ c line ∷ rest

split_lines : String → List String
unfolding is_line_end with_letter
split_lines String.[] = []
split_lines (String.◌∷◌ c text) =
    let rest = split_lines text in if is_line_end (code c) then "" ∷ rest else with_letter c rest

-- stripped, without empty lines and repetitions, in the order of their first appearance
distinct_lines : List String → List String → List String
distinct_lines made [] = made
distinct_lines made (line ∷ rest) =
    let value = strip line in
    distinct_lines (if value == "" || is_in value made then made else made ++ value ∷ []) rest

join_lines : List String → String
join_lines [] = ""
join_lines (line ∷ []) = line
join_lines (line ∷ next ∷ rest) = line +++ ("\n" +++ join_lines (next ∷ rest))

-- `_merge_title`
pub merge_title : String → String → ℕ → String
merge_title existing incoming count =
    cut 180 (strip (or_text incoming (or_text existing "经营提醒")))
    +++ ("（" +++ (decimal count +++ "）"))

-- `_merge_body`; "" is its `None`
pub merge_body : String → String → String
unfolding split_lines distinct_lines join_lines
merge_body existing incoming =
    cut 1000 (join_lines (distinct_lines [] (split_lines existing ++ split_lines incoming)))

priority_rank : String → ℕ
priority_rank p =
    if p == "urgent"
    then 4
    else if p == "high"
    then 3
    else if p == "normal"
    then 2
    else if p == "low"
    then 1
    else 0

-- `_pick_priority`
unfoldable pub pick_priority : String → String → String
unfolding priority_rank
pick_priority left right = if leb (priority_rank right) (priority_rank left) then left else right

priority_rank_le : (p : String) → priority_rank p ≤ 4
unfolding priority_rank
priority_rank_le p = ground arith

-- A row that was urgent stays so.
pub pick_priority-urgent :
    (left right : String) → left == "urgent" ≡ true → pick_priority left right == "urgent" ≡ true
unfolding pick_priority
pick_priority-urgent left right h = ground (arith, priority_rank_le right, h)

merge_body_test : merge_body " a\r\nb" "b\n\nc " ≡ "a\nb\nc"
unfolding merge_body split_lines distinct_lines join_lines is_line_end with_letter cut strip
merge_body_test = refl

pick_priority_test : pick_priority "high" "urgent" ≡ "urgent"
unfolding pick_priority
pick_priority_test = refl
