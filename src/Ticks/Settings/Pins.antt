-- ===== src/Ticks/Settings/Pins.antt =====
-- What a pin and a marker leave for later reads, app/services/operating_clock.py.
use meal_key_ecosystem.Base.{
  some, [], ◌∷◌, true, false, List, first, ◌≡◌, update, refl, is_some, String, arith, strip,
  Bool-cases, ℕ, ◌++◌, inl, cut, ◌==◌, inr, sym, ◌∙◌, ap, eq_nat-eq, if◌then◌else◌, eq_nat,
}
use meal_key_ecosystem.Models.{RowId}
use meal_key_ecosystem.Flow.Rhythm.{Phase}
use meal_key_ecosystem.Ticks.Settings.{
  AppSetting, SettingKey, same_key, find_setting, upsert_setting, assigned, is_mask, load_nba_pin,
  save_nba_pin, pin_of, nba_pin_key, same_kind, same_phase, KeyKind, clock_run, nba, phase_number,
}

same_kind_refl : (k : KeyKind) → same_kind k k ≡ true
unfolding same_kind
same_kind_refl clock_run = refl
same_kind_refl nba = refl

same_key_refl : (k : SettingKey) → same_key k k ≡ true
unfolding same_key same_phase
same_key_refl k = ground (arith, same_kind_refl k.kind)

-- an assignment keeps every key that was there
find-update :
    (k j : SettingKey) (value : String) (rows : List AppSetting)
    → is_some (find_setting rows j) ≡ true
    → is_some (
        find_setting
          (update
            (λ (x : AppSetting). same_key x.key k)
            (λ (x : AppSetting). record x { value = assigned x.value value })
            rows)
          j)
      ≡ true
unfolding find_setting update first
find-update k j value [] h = h
find-update k j value (x ∷ rest) h = ground (arith, h, find-update k j value rest)

find-append :
    (j : SettingKey) (y : AppSetting) (rows : List AppSetting)
    → is_some (find_setting rows j) ≡ true
    → is_some (find_setting (rows ++ y ∷ []) j) ≡ true
unfolding find_setting first
find-append j y [] h = absurd (ground (arith, h))
find-append j y (x ∷ rest) h = ground (arith, h, find-append j y rest)

find-own :
    (y : AppSetting) (rows : List AppSetting) → is_some (find_setting (rows ++ y ∷ []) y.key) ≡ true
unfolding find_setting first
find-own y [] = ground (arith, same_key_refl y.key)
find-own y (x ∷ rest) = ground (arith, find-own y rest)

pub upsert_setting-keeps :
    (rows : List AppSetting) (k j : SettingKey) (value : String)
    → is_some (find_setting rows j) ≡ true
    → is_some (find_setting (upsert_setting rows k value) j) ≡ true
unfolding upsert_setting
upsert_setting-keeps rows k j value h = elim (Bool-cases (is_some (find_setting rows k))) [
  | inl e ↦ rw e (find-update k j value rows h)
  | inr e ↦ rw e (find-append j (record { key = k; value = value }) rows h)
]

pub upsert_setting-has :
    (rows : List AppSetting) (k : SettingKey) (value : String)
    → is_some (find_setting (upsert_setting rows k value) k) ≡ true
unfolding upsert_setting
upsert_setting-has rows k value = elim (Bool-cases (is_some (find_setting rows k))) [
  | inl e ↦ rw e (find-update k k value rows e)
  | inr e ↦ rw e (find-own (record { key = k; value = value }) rows)
]

pin-update :
    (k : SettingKey) (value : String) (rows : List AppSetting)
    → is_mask value ≡ false
    → strip value == "" ≡ false
    → is_some (find_setting rows k) ≡ true
    → pin_of (
        find_setting
          (update
            (λ (x : AppSetting). same_key x.key k)
            (λ (x : AppSetting). record x { value = assigned x.value value })
            rows)
          k)
      ≡ some (strip value)
unfolding find_setting update first pin_of assigned
pin-update k value [] m s h = absurd (ground (arith, h))
pin-update k value (x ∷ rest) m s h = elim (Bool-cases (same_key x.key k)) [
  | inl e ↦ rw (e, e, s, m) (rw s refl)
  | inr e ↦ rw (e, e) (pin-update k value rest m s (ground (arith, h, e)))
]

pin-append :
    (k : SettingKey) (value : String) (rows : List AppSetting)
    → strip value == "" ≡ false
    → is_some (find_setting rows k) ≡ false
    → pin_of (find_setting (rows ++ record { key = k; value = value } ∷ []) k) ≡ some (strip value)
unfolding find_setting first pin_of
pin-append k value [] s h = rw (same_key_refl k, s) refl
pin-append k value (x ∷ rest) s h = elim (Bool-cases (same_key x.key k)) [
  | inl e ↦ absurd (ground (arith, h, e))
  | inr e ↦ rw e (pin-append k value rest s (ground (arith, h, e)))
]

phase_at : ℕ → Phase
phase_at n =
    if eq_nat n 0
    then Phase.quiet
    else if eq_nat n 1
    then Phase.night_learn
    else if eq_nat n 2
    then Phase.deep_review
    else if eq_nat n 3
    then Phase.morning_readiness
    else if eq_nat n 4
    then Phase.lunch_nba
    else if eq_nat n 5
    then Phase.lunch_protect
    else if eq_nat n 6
    then Phase.lunch_review
    else if eq_nat n 7
    then Phase.dinner_strategy
    else Phase.evening_review

phase_at-number : (p : Phase) → phase_at (phase_number p) ≡ p
unfolding phase_at phase_number
phase_at-number Phase.quiet = refl
phase_at-number Phase.night_learn = refl
phase_at-number Phase.deep_review = refl
phase_at-number Phase.morning_readiness = refl
phase_at-number Phase.lunch_nba = refl
phase_at-number Phase.lunch_protect = refl
phase_at-number Phase.lunch_review = refl
phase_at-number Phase.dinner_strategy = refl
phase_at-number Phase.evening_review = refl

pub same_phase-eq : (p q : Phase) → same_phase p q ≡ true → p ≡ q
unfolding same_phase
same_phase-eq p q h =
    sym (phase_at-number p)
    ∙ ap phase_at (eq_nat-eq (phase_number p) (phase_number q) h)
    ∙ phase_at-number q

-- A card that is pinned for a phase of a day is the one that is read for it, stripped and cut at 120
-- characters, whatever was pinned before, if its id is not blank and does not look like a mask.
pub save_nba_pin-load :
    (rows : List AppSetting) (store : RowId) (phase : Phase) (now_id : String) (day : ℕ)
    → is_mask (cut 120 now_id) ≡ false
    → strip (cut 120 now_id) == "" ≡ false
    → load_nba_pin (save_nba_pin rows store phase now_id day) store phase day
      ≡ some (strip (cut 120 now_id))
unfolding load_nba_pin save_nba_pin upsert_setting
save_nba_pin-load rows store phase now_id day m s =
    elim (Bool-cases (is_some (find_setting rows (nba_pin_key store phase day)))) [
      | inl e ↦ rw e (pin-update (nba_pin_key store phase day) (cut 120 now_id) rows m s e)
      | inr e ↦ rw e (pin-append (nba_pin_key store phase day) (cut 120 now_id) rows s e)
    ]
