-- ===== src/Flow/Rhythm/Peaks.antt =====
-- The phase of the hours of a peak.
use meal_key_ecosystem.Base.{inl, inr, ℕ, ◌≤◌, ◌<◌, ◌≡◌, some, ◌⊎◌, arith, Bool-cases, refl}
use meal_key_ecosystem.Flow.Rhythm.{
  Hours, afternoon, evening, quiet_phase, is_kept, match_phase, resolve_operating_phase,
  lunch_protect, is_in_quiet_hours,
}

-- an hour of a peak
abbrev pub IsPeak : Hours → ℕ → Type 0
IsPeak t hour =
    ((t.lunch_start ≤ hour) × (hour < t.lunch_end))
    ⊎ ((t.dinner_start ≤ hour) × (hour < t.dinner_end))

match_phase_peak :
    (t : Hours) (hour : ℕ)
    → 6 ≤ hour
    → t.lunch_start ≤ t.dinner_start
    → IsPeak t hour
    → match_phase hour t ≡ some lunch_protect
unfolding match_phase afternoon evening
match_phase_peak t hour day order (inl h) = ground (arith, day, order, h.0, h.1)
match_phase_peak t hour day order (inr h) = ground (arith, day, order, h.0, h.1)

pub peak_protected :
    (t : Hours) (hour : ℕ)
    → 6 ≤ hour
    → t.lunch_start ≤ t.dinner_start
    → IsPeak t hour
    → resolve_operating_phase hour t ≡ lunch_protect
unfolding resolve_operating_phase quiet_phase is_kept
peak_protected t hour day order peak = elim (Bool-cases (is_in_quiet_hours t hour)) [
  | inl q ↦ rw (q, match_phase_peak t hour day order peak) refl
  | inr q ↦ rw (q, match_phase_peak t hour day order peak) refl
]
