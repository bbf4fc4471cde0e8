-- ===== src/Loop/Rows/Matters.antt =====
-- Filing the recommendation and the experiment writes no matter.
use meal_key_ecosystem.Base.{arith, ◌≡◌, String}
use meal_key_ecosystem.Models.{Time, Recommendation}
use meal_key_ecosystem.Loop.State.{Item, LoopDb}
use meal_key_ecosystem.Loop.Rows.{ensure_recommendation, ensure_experiment}

module _ (db : LoopDb) (x : Item) (now : Time) where
  pub ensure_recommendation-loops : (ensure_recommendation db x now).0.loops ≡ db.loops
  unfolding ensure_recommendation
  ensure_recommendation-loops = ground arith

  pub ensure_experiment-loops :
      (rec : Recommendation) (executor : String)
      → (ensure_experiment db rec x now executor).0.loops ≡ db.loops
  unfolding ensure_experiment
  ensure_experiment-loops rec executor = ground arith
