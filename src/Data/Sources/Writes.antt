-- ===== src/Data/Sources/Writes.antt =====
-- What a sequence of writes makes of a day's figures.
use meal_key_ecosystem.Base.{
  ℕ, arith, Option, String, ◌≡◌, strip, List, some, true, ◌∷◌, ◌==◌, [], false, ◌≤◌, Bool-cases,
  inl, inr, lower, eq_iff, refl,
}
use meal_key_ecosystem.Data.Sources.{
  Funnel, upsert_funnel, may_write_funnel_truth, is_production_truth_source, source_priority,
  normalize_source, is_never_truth,
}

-- the row after the writes of a list, in their order
abbrev pub upsert_all : Option Funnel → List Funnel → Option Funnel
upsert_all row [] = row
upsert_all row (new ∷ rest) = upsert_all (upsert_funnel row new) rest

-- the number by which sources are compared
abbrev pub rank : String → ℕ
rank source = source_priority (normalize_source source)

-- the row holds a production figure of at least a rank
pub record HoldsTruth (least : ℕ) (row : Option Funnel) : Type 0 where
  pub figures : Funnel
  pub stored : row ≡ some figures
  pub production : is_production_truth_source figures.data_source ≡ true
  pub ranked : least ≤ rank figures.data_source

blank_is_unknown : (s : String) → (strip s == "") ≡ true → is_production_truth_source s ≡ false
unfolding is_production_truth_source normalize_source is_never_truth lower
blank_is_unknown s h = rw ((eq_iff (strip s) "").0 h) refl

-- what replaces a production figure is a production figure of no lower rank
may_write-keeps :
    (old new : String)
    → is_production_truth_source old ≡ true
    → may_write_funnel_truth old new ≡ true
    → (is_production_truth_source new ≡ true) × (rank old ≤ rank new)
unfolding may_write_funnel_truth is_production_truth_source
may_write-keeps old new h w = elim (Bool-cases (strip old == "")) [
  | inl blank ↦ ground (arith, h, blank_is_unknown old blank)
  | inr e ↦ (ground (arith, e, h, w), ground (arith, e, h, w))
]

upsert-HoldsTruth :
    (least : ℕ) (row : Option Funnel) (new : Funnel)
    → HoldsTruth least row
    → HoldsTruth least (upsert_funnel row new)
unfolding upsert_funnel
upsert-HoldsTruth least row new h =
    elim (Bool-cases (may_write_funnel_truth h.figures.data_source new.data_source)) [
      | inl w ↦
          let (production, higher) =
            may_write-keeps h.figures.data_source new.data_source h.production w in
          record {
            figures = new;
            stored = ground (arith, h.stored, w);
            production = production;
            ranked = omega (arith, h.ranked, higher);
          }
      | inr w ↦ record {
        figures = h.figures;
        stored = ground (arith, h.stored, w);
        production = h.production;
        ranked = h.ranked;
      }
    ]

-- Once a day's figures come from a source that is production truth, whatever is written later, in any
-- order: the day keeps figures whose source is production truth and ranks at least as high.
pub upsert_all-HoldsTruth :
    (least : ℕ) (row : Option Funnel) (writes : List Funnel)
    → HoldsTruth least row
    → HoldsTruth least (upsert_all row writes)
upsert_all-HoldsTruth least row [] h = h
upsert_all-HoldsTruth least row (new ∷ rest) h =
    upsert_all-HoldsTruth least (upsert_funnel row new) rest (upsert-HoldsTruth least row new h)
