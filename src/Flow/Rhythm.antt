-- ===== src/Flow/Rhythm.antt =====
-- app/services/operating_rhythm.py: the rhythm of a store's day, and the phase of an hour.
pub mod Peaks
use meal_key_ecosystem.Base.{
  ◌>>=◌, ℕ, Option, List, Bool, or_else, if◌then◌else◌, String, none, true, leb, some, ◌∷◌, false,
  ◌+◌, ◌&&◌, strip, [], contains, ltb, ◌||◌, hour_of,
}

-- the times as texts "HH:MM"
pub record StoreRhythm : Type 0 where
  pub lunch_peak_start : String
  pub lunch_peak_end : String
  pub dinner_peak_start : String
  pub dinner_peak_end : String
  pub quiet_hours : String × String
  pub source : String

rhythm_of : String → String → String → String → String → String → StoreRhythm
rhythm_of a b c d from to = record {
  lunch_peak_start = a;
  lunch_peak_end = b;
  dinner_peak_start = c;
  dinner_peak_end = d;
  quiet_hours = (from, to);
  source = "category_default";
}

abbrev pub default_rhythm : StoreRhythm
default_rhythm = record {
  lunch_peak_start = "11:00";
  lunch_peak_end = "13:30";
  dinner_peak_start = "17:00";
  dinner_peak_end = "20:00";
  quiet_hours = ("22:30", "08:00");
  source = "category_default";
}

-- `_CATEGORY_DEFAULTS`
category_defaults : List (String × StoreRhythm)
unfolding rhythm_of
category_defaults =
    ("快餐", rhythm_of "11:00" "13:30" "17:00" "20:00" "22:30" "08:00")
    ∷ ("盖饭", rhythm_of "11:00" "13:30" "17:00" "20:00" "22:30" "08:00")
    ∷ ("夜宵", rhythm_of "21:00" "02:00" "17:00" "20:00" "05:00" "16:00")
    ∷ ("烧烤", rhythm_of "18:00" "23:00" "18:00" "23:00" "04:00" "16:00")
    ∷ ("饮品", rhythm_of "10:00" "14:00" "15:00" "21:00" "22:30" "09:00")
    ∷ ("甜品", rhythm_of "13:00" "17:00" "18:00" "21:00" "22:30" "10:00")
    ∷ ("正餐", rhythm_of "11:00" "14:00" "17:00" "21:00" "22:30" "08:00")
    ∷ []

-- what the owner's setting gives, as far as it does
pub record OwnerRhythm : Type 0 where
  pub lunch_peak_start : Option String
  pub lunch_peak_end : Option String
  pub dinner_peak_start : Option String
  pub dinner_peak_end : Option String
  pub quiet_hours : Option (String × String)

owner_rhythm : OwnerRhythm → StoreRhythm
owner_rhythm o = record {
  lunch_peak_start = or_else o.lunch_peak_start default_rhythm.lunch_peak_start;
  lunch_peak_end = or_else o.lunch_peak_end default_rhythm.lunch_peak_end;
  dinner_peak_start = or_else o.dinner_peak_start default_rhythm.dinner_peak_start;
  dinner_peak_end = or_else o.dinner_peak_end default_rhythm.dinner_peak_end;
  quiet_hours = or_else o.quiet_hours default_rhythm.quiet_hours;
  source = "owner_set";
}

first_category : String → List (String × StoreRhythm) → Option StoreRhythm
first_category category [] = none
first_category category ((key, rhythm) ∷ rest) =
    if contains category key then some rhythm else first_category category rest

-- `resolve_store_rhythm`: the setting, if it is there and parses; the category of the store's merchant, if
-- it has one; the default
pub resolve_store_rhythm : Option OwnerRhythm → Option String → StoreRhythm
unfolding owner_rhythm category_defaults first_category
resolve_store_rhythm (some o) category = owner_rhythm o
resolve_store_rhythm none none = default_rhythm
resolve_store_rhythm none (some category) =
    or_else (first_category (strip category) category_defaults) default_rhythm

-- the hours that the texts of a rhythm name
pub record Hours : Type 0 where
  pub lunch_start : ℕ
  pub lunch_end : ℕ
  pub dinner_start : ℕ
  pub dinner_end : ℕ
  pub quiet_start : ℕ
  pub quiet_end : ℕ

-- `int(text.split(":")[0])` of all six; `none` is its `ValueError`
pub hours_of : StoreRhythm → Option Hours
hours_of r = do
  lunch_start ← hour_of r.lunch_peak_start
  lunch_end ← hour_of r.lunch_peak_end
  dinner_start ← hour_of r.dinner_peak_start
  dinner_end ← hour_of r.dinner_peak_end
  quiet_start ← hour_of (r.quiet_hours.0)
  quiet_end ← hour_of (r.quiet_hours.1)
  some (record {
    lunch_start = lunch_start;
    lunch_end = lunch_end;
    dinner_start = dinner_start;
    dinner_end = dinner_end;
    quiet_start = quiet_start;
    quiet_end = quiet_end;
  })

pub data Phase : Type 0 where
  quiet night_learn deep_review morning_readiness lunch_nba : Phase
  lunch_protect lunch_review dinner_strategy evening_review : Phase

-- an hour is in the quiet hours, which may span midnight
abbrev pub is_between : ℕ → ℕ → ℕ → Bool
is_between start end hour =
    if leb start end then leb start hour && ltb hour end else leb start hour || ltb hour end

-- `is_in_quiet_hours` on the hours that the texts name
unfoldable pub is_in_quiet_hours : Hours → ℕ → Bool
is_in_quiet_hours t hour = is_between t.quiet_start t.quiet_end hour

-- `is_in_quiet_hours`; `none` is its `ValueError`
unfoldable pub quiet_at : StoreRhythm → ℕ → Option Bool
quiet_at r hour = do
  start ← hour_of (r.quiet_hours.0)
  end ← hour_of (r.quiet_hours.1)
  some (is_between start end hour)

-- the end of the day: the dinner peak and what surrounds it
evening : ℕ → Hours → Option Phase
evening hour t =
    if leb t.dinner_start (hour + 1) && ltb hour t.dinner_start
    then some lunch_nba
    else if leb t.dinner_start hour && ltb hour t.dinner_end
    then some lunch_protect
    else if leb t.dinner_end hour
    then some evening_review
    else none

-- between the peaks; where neither test passes the code goes on to the evening
afternoon : ℕ → Hours → Option Phase
unfolding evening
afternoon hour t =
    let later = evening hour t in
    if leb t.lunch_end hour && ltb (hour + 1) t.dinner_start
    then (if ltb hour (t.lunch_end + 1)
        then some lunch_review
        else (if leb 16 hour then some dinner_strategy else later))
    else later

-- `lunch_start - 2 <= hour` and the like are written with the sums on the other side
unfoldable pub match_phase : ℕ → Hours → Option Phase
unfolding afternoon
match_phase hour t =
    if leb 2 hour && ltb hour 6
    then some night_learn
    else if leb 6 hour && ltb (hour + 2) t.lunch_start && ltb hour 9
    then some deep_review
    else if leb t.lunch_start (hour + 2) && ltb (hour + 1) t.lunch_start
    then some morning_readiness
    else if leb t.lunch_start (hour + 1) && ltb hour t.lunch_start
    then some lunch_nba
    else if leb t.lunch_start hour && ltb hour t.lunch_end
    then some lunch_protect
    else afternoon hour t

-- the phases that quiet hours give way to
is_kept : Phase → Bool
is_kept lunch_nba = true
is_kept lunch_protect = true
is_kept morning_readiness = true
is_kept dinner_strategy = true
is_kept night_learn = true
is_kept deep_review = true
is_kept _ = false

-- the phase that fills a gap of `match_phase`
gap_phase : ℕ → Hours → Phase
gap_phase hour t =
    if leb t.lunch_end hour && ltb hour t.dinner_start
    then (if leb 15 hour then dinner_strategy else lunch_review)
    else (if ltb hour 2 then evening_review else deep_review)

quiet_phase : Option Phase → Phase
unfolding is_kept
quiet_phase none = quiet
quiet_phase (some p) = if is_kept p then p else quiet

-- `resolve_operating_phase` of app/services/decision_flow.py
unfoldable pub resolve_operating_phase : ℕ → Hours → Phase
unfolding quiet_phase gap_phase
resolve_operating_phase hour t =
    if is_in_quiet_hours t hour
    then quiet_phase (match_phase hour t)
    else or_else (match_phase hour t) (gap_phase hour t)
