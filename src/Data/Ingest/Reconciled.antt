-- ===== src/Data/Ingest/Reconciled.antt =====
-- Which figures an ingestion leaves in the funnel.
use meal_key_ecosystem.Data.Reports.{days_of, by_day}
use meal_key_ecosystem.Base.{
  subst, none, some, [], ◌∷◌, String, ℕ, List, Option, All, ◌≡◌, Bool-cases, eq_nat, arith, inl,
  inr, Option-cases, Holds, is_some, ◌||◌, All-append, Holds-then, Holds-self, sorted_set, ◌++◌,
}
use meal_key_ecosystem.Data.Ingest.{
  AcquisitionDb, IngestRequest, Answer, ingest_reconciliation, promoted_figures, ingest_day,
  ingest_days, Progress, finish, upsert_day, put_day, find_day, is_nil, with_funnels, write_day,
  enter_day,
}
use meal_key_ecosystem.Data.Acquisition.{ReconciliationRow}
use meal_key_ecosystem.Data.Sources.{Funnel, upsert_funnel, may_write_funnel_truth}
use meal_key_ecosystem.Data.Ingest.Promoted.{IsReported, promoted-IsReported}

module _ (P : ℕ × Funnel → Type 0) where
  put_day-All :
      (fs : List (ℕ × Funnel)) (d : ℕ) (f : Funnel) → P (d, f) → All P fs → All P (put_day fs d f)
  unfolding put_day
  put_day-All [] d f new h = tt
  put_day-All ((e, old) ∷ rest) d f new h = elim (Bool-cases (eq_nat e d)) [
    | inl t ↦ rw t (new, put_day-All rest d f new h.1)
    | inr t ↦ rw t (h.0, put_day-All rest d f new h.1)
  ]

  find_day-Holds :
      (fs : List (ℕ × Funnel)) (d : ℕ) → All P fs → Holds (λ f. P (d, f)) (find_day fs d)
  unfolding find_day
  find_day-Holds [] d h = tt
  find_day-Holds ((e, old) ∷ rest) d h = elim (Bool-cases (eq_nat e d)) [
    | inl t ↦ let same : e ≡ d = ground (arith, t) in rw t (subst (λ x. P (x, old)) same h.0)
    | inr t ↦ rw t (find_day-Holds rest d h.1)
  ]

  upsert_funnel-Holds :
      (d : ℕ) (row : Option Funnel) (new : Funnel)
      → P (d, new)
      → Holds (λ f. P (d, f)) row
      → Holds (λ f. P (d, f)) (upsert_funnel row new)
  unfolding upsert_funnel
  upsert_funnel-Holds d none new hn h = hn
  upsert_funnel-Holds d (some old) new hn h =
      elim (Bool-cases (may_write_funnel_truth old.data_source new.data_source)) [
        | inl t ↦ rw t hn
        | inr t ↦ rw t h
      ]

  write_day-All :
      (fs : List (ℕ × Funnel)) (d : ℕ) (o : Option Funnel)
      → Holds (λ f. P (d, f)) o
      → All P fs
      → All P (write_day fs d o)
  unfolding write_day
  write_day-All fs d none ho h = h
  write_day-All fs d (some f) ho h = put_day-All fs d f ho h

  upsert_day-All :
      (stored current : List (ℕ × Funnel)) (d : ℕ) (f : Funnel)
      → P (d, f)
      → All P current
      → Holds (All P) (upsert_day stored current d f)
  unfolding upsert_day
  upsert_day-All stored current d f new h = elim (Bool-cases (is_some (find_day stored d))) [
    | inl e ↦ rw e (
        write_day-All current d (upsert_funnel (find_day current d) f)
          (upsert_funnel-Holds d (find_day current d) f new (find_day-Holds current d h)) h)
    | inr e ↦ elim (Bool-cases (is_some (find_day current d))) [
      | inl c ↦ rw (e, c) tt
      | inr c ↦ rw (e, c) (All-append P current ((d, f) ∷ []) h (new, tt))
    ]
  ]

  with_funnels-All :
      (p : Progress) (o : Option (List (ℕ × Funnel)))
      → Holds (All P) o
      → Holds (λ (q : Progress). All P q.funnels) (with_funnels p o)
  unfolding with_funnels
  with_funnels-All p none h = tt
  with_funnels-All p (some fs) h = h

  enter_day-All :
      (stored : List (ℕ × Funnel)) (p : Progress) (d : ℕ) (o : Option Funnel)
      → Holds (λ f. P (d, f)) o
      → All P p.funnels
      → Holds (λ (q : Progress). All P q.funnels) (enter_day stored p d o)
  unfolding enter_day
  enter_day-All stored p d none ho h = h
  enter_day-All stored p d (some f) ho h =
      with_funnels-All p (upsert_day stored p.funnels d f)
        (upsert_day-All stored p.funnels d f ho h)

  module _ (parse_day : String → Option ℕ) (r : IngestRequest)
      (reported : (entry : ℕ × Funnel) → IsReported parse_day r entry → P entry) where
    promoted-Holds :
        (rows : List ReconciliationRow) (day : String) (d : ℕ)
        → parse_day day ≡ some d
        → Holds
            (λ f. P (d, f))
            (promoted_figures r rows (by_day r.collector_rows day) (by_day r.official_rows day) day)
    promoted-Holds rows day d date =
        elim (Option-cases (
          promoted_figures r rows (by_day r.collector_rows day) (by_day r.official_rows day) day)) [
            | inl e ↦ rw e tt
            | inr (f, e) ↦
                rw e (reported (d, f) (promoted-IsReported parse_day r rows day d f date e))
          ]

    ingest_day-All :
        (stored : List (ℕ × Funnel)) (day : String) (p : Progress)
        → All P p.funnels
        → Holds (λ (q : Progress). All P q.funnels) (ingest_day parse_day stored r day p)
    unfolding ingest_day
    ingest_day-All stored day p h =
        Holds-then (λ d. parse_day day ≡ some d) (λ (q : Progress). All P q.funnels) (parse_day day)
          _ (Holds-self (parse_day day))
          (λ d e.
            enter_day-All stored _ d
              (promoted_figures r p.rows (by_day r.collector_rows day) (by_day r.official_rows day)
                day)
              (promoted-Holds p.rows day d e) h)

    ingest_days-All :
        (stored : List (ℕ × Funnel)) (days : List String) (p : Progress)
        → All P p.funnels
        → Holds (λ (q : Progress). All P q.funnels) (ingest_days parse_day stored r days p)
    unfolding ingest_days
    ingest_days-All stored [] p h = h
    ingest_days-All stored (day ∷ rest) p h =
        Holds-then (λ (q : Progress). All P q.funnels) (λ (q : Progress). All P q.funnels)
          (ingest_day parse_day stored r day p) _ (ingest_day-All stored day p h)
          (λ q hq. ingest_days-All stored rest q hq)

    -- Whatever holds of the stored figures and of all figures that the request may bring in, holds of all
    -- figures that an ingestion leaves, if it commits. Those that it may bring in are the figures of a day
    -- from a source that is not a screenshot, for which the official report and the collector both have the
    -- orders and the turnover and differ in each by at most a hundredth of the official figure (of one order
    -- or 100 cents, where that is zero), also in the revenue, if both have it; a larger difference is not brought in, even with a reason for it.
    pub ingest_reconciliation-All :
        (db : AcquisitionDb)
        → All P db.funnels
        → Holds
            (λ (x : AcquisitionDb × Answer). All P x.0.funnels)
            (ingest_reconciliation parse_day db r)
    unfolding ingest_reconciliation finish
    ingest_reconciliation-All db h =
        elim (Bool-cases (r.baseline_only || is_nil r.collector_rows)) [
          | inl e ↦ rw e h
          | inr e ↦ rw e (
              Holds-then (λ (q : Progress). All P q.funnels)
                (λ (x : AcquisitionDb × Answer). All P x.0.funnels) _ _
                (ingest_days-All db.funnels
                  (sorted_set (days_of r.official_rows ++ days_of r.collector_rows)) _ h)
                (λ q hq. hq))
        ]
