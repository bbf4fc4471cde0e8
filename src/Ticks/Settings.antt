-- ===== src/Ticks/Settings.antt =====
-- `upsert_setting` of app/services/settings_store.py on the keys of app/services/operating_clock.py: the
-- markers of the phases that ran, and the cards that are pinned.
use meal_key_ecosystem.Base.{
  Option, ℕ, List, String, Bool, contains, eq_nat, is_some, first, ◌&&◌, cut, true, if◌then◌else◌,
  some, ◌||◌, false, update, strip, ◌++◌, ◌==◌, ◌∷◌, none, [],
}
use Prim.Native.Char.{code}
use meal_key_ecosystem.Models.{RowId}
use meal_key_ecosystem.Flow.Rhythm.{Phase}
pub mod Pins

-- `clock_run:{store}:{day}:{phase}` and `nba:{store}:{day}:{phase}`
pub data KeyKind : Type 0 where
  clock_run nba : KeyKind

pub record SettingKey : Type 0 where
  pub kind : KeyKind
  pub store : RowId
  pub day : ℕ
  pub phase : Phase

pub record AppSetting : Type 0 where
  pub key : SettingKey
  pub value : String

-- `clock_marker_key` and `nba_pin_key`
pub clock_marker_key : RowId → Phase → ℕ → SettingKey
clock_marker_key store phase day = record {
  kind = clock_run;
  store = store;
  day = day;
  phase = phase;
}

pub nba_pin_key : RowId → Phase → ℕ → SettingKey
nba_pin_key store phase day = record { kind = nba; store = store; day = day; phase = phase }

same_kind : KeyKind → KeyKind → Bool
same_kind clock_run clock_run = true
same_kind nba nba = true
same_kind _ _ = false

phase_number : Phase → ℕ
phase_number Phase.quiet = 0
phase_number Phase.night_learn = 1
phase_number Phase.deep_review = 2
phase_number Phase.morning_readiness = 3
phase_number Phase.lunch_nba = 4
phase_number Phase.lunch_protect = 5
phase_number Phase.lunch_review = 6
phase_number Phase.dinner_strategy = 7
phase_number Phase.evening_review = 8

unfoldable pub same_phase : Phase → Phase → Bool
unfolding phase_number
same_phase a b = eq_nat (phase_number a) (phase_number b)

unfoldable pub same_key : SettingKey → SettingKey → Bool
unfolding same_kind
same_key a b =
    same_kind a.kind b.kind
    && eq_nat a.store b.store
    && eq_nat a.day b.day
    && same_phase a.phase b.phase

-- `set(text) <= {"*"}`
unfoldable pub only_stars : String → Bool
only_stars String.[] = true
only_stars (String.◌∷◌ c text) = eq_nat (code c) b'*' && only_stars text

-- a mask that a page sends back
unfoldable pub is_mask : String → Bool
unfolding only_stars
is_mask value = contains value "***" || only_stars (strip value)

-- the value of a row that is there
assigned : String → String → String
unfolding is_mask
assigned old value = if strip value == "" then "" else if is_mask value then old else value

unfoldable pub find_setting : List AppSetting → SettingKey → Option AppSetting
find_setting rows k = first (λ (x : AppSetting). same_key x.key k) rows

-- `upsert_setting`, which no caller here gives `None`
pub upsert_setting : List AppSetting → SettingKey → String → List AppSetting
unfolding assigned
upsert_setting rows k value =
    if is_some (find_setting rows k)
    then update (λ (x : AppSetting). same_key x.key k)
        (λ (x : AppSetting). record x { value = assigned x.value value }) rows
    else rows ++ record { key = k; value = value } ∷ []

unfoldable pub clock_already_ran : List AppSetting → RowId → Phase → ℕ → Bool
clock_already_ran rows store phase day =
    is_some (find_setting rows (clock_marker_key store phase day))

-- `mark_clock_ran`; `stamp` is the time as a text
unfoldable pub mark_clock_ran : List AppSetting → RowId → Phase → ℕ → String → List AppSetting
mark_clock_ran rows store phase day stamp =
    upsert_setting rows (clock_marker_key store phase day) stamp

pin_of : Option AppSetting → Option String
pin_of none = none
pin_of (some x) = if strip x.value == "" then none else some (strip x.value)

pub load_nba_pin : List AppSetting → RowId → Phase → ℕ → Option String
unfolding pin_of
load_nba_pin rows store phase day = pin_of (find_setting rows (nba_pin_key store phase day))

pub save_nba_pin : List AppSetting → RowId → Phase → String → ℕ → List AppSetting
save_nba_pin rows store phase now_id day =
    upsert_setting rows (nba_pin_key store phase day) (cut 120 now_id)
