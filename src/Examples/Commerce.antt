-- ===== src/Examples/Commerce.antt =====
-- A shop that subscribes, and its partner.
use meal_key_ecosystem.Base.{ℕ, ◌+◌, ◌/◌, ◌≡◌, arith, ◌*◌, none, ◌↔◌, ◌≢◌, Holds, zero}
use meal_key_ecosystem.Commercial.Policy.{IsRounding}
use meal_key_ecosystem.Commercial.Pricing.{collected_subscription_base}
use meal_key_ecosystem.Commercial.Partner.{Counts, split_commission}
use meal_key_ecosystem.Commercial.Partner.Split.{IsFair, split_commission-IsFair}

-- halves are rounded up
abbrev half_up : ℕ → ℕ → ℕ
half_up n d = (2 * n + d) / (2 * d)

half_up-IsRounding : IsRounding half_up
half_up-IsRounding = record {
  cent = record {
    not_above = λ n. omega arith;
    not_below = λ n. omega arith;
    mono = λ m n h. omega (arith, h);
  };
  twelfth = record {
    not_above = λ n. omega arith;
    not_below = λ n. omega arith;
    mono = λ m n h. omega (arith, h);
  };
  third = record {
    not_above = λ n. omega arith;
    not_below = λ n. omega arith;
    mono = λ m n h. omega (arith, h);
  };
}

abbrev counts : Counts
counts = record {
  new_qualified_stores = 320;
  ninety_day_qualified_stores = 55;
  months_since_first_paid = 7;
}

split_commission-IsFair_example :
    ((split_commission half_up 29999 1000 0 counts ≡ none) ↔ (zero ≢ 0))
    × Holds
        (IsFair (collected_subscription_base 29999 1000))
        (split_commission half_up 29999 1000 0 counts)
split_commission-IsFair_example =
    split_commission-IsFair half_up 29999 1000 0 counts half_up-IsRounding
