-- ===== src/Examples/Experience.antt =====
-- Two lessons of a shop, one of them old.
use meal_key_ecosystem.Base.{[], ◌∷◌}
use meal_key_ecosystem.Policy.Lessons.{Lesson, positive, run_memory_lifecycle}
use meal_key_ecosystem.Policy.Lessons.Aging.{run_memory_lifecycle-IsAged, Pairwise, IsAged}

abbrev lesson : Lesson
lesson = record {
  id = 1;
  store_id = 4;
  experiment_id = 9;
  action_type = "change_title";
  result = positive;
  confidence = record { num = 72; den = 100 };
  created_at = 1000;
}

abbrev newer_lesson : Lesson
newer_lesson = record lesson { id = 2; created_at = 40000000 }

run_memory_lifecycle-IsAged_example :
    Pairwise
      (IsAged 41000000 (lesson ∷ newer_lesson ∷ []))
      (lesson ∷ newer_lesson ∷ [])
      (run_memory_lifecycle (lesson ∷ newer_lesson ∷ []) 41000000)
run_memory_lifecycle-IsAged_example =
    run_memory_lifecycle-IsAged (lesson ∷ newer_lesson ∷ []) 41000000
