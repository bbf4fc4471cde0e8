-- ===== src/Examples/Models.antt =====
-- A call of the language models with one that is overloaded.
use meal_key_ecosystem.Base.{String, ◌≡◌, List, ℕ, if◌then◌else◌, ◌==◌}
use meal_key_ecosystem.Llm.Bindings.{
  Candidate, resolve_purpose_model_chain, resolve_candidate_api_key,
}
use meal_key_ecosystem.Llm.Failover.{Called, returned, raised, execute_with_failover, prefer}
use meal_key_ecosystem.Llm.Failover.First.{
  execute_with_failover-first_answer, first_answer, answer_of,
}

abbrev env : String → String
env name =
    if name == "MOONSHOT_API_KEY"
    then "key-1"
    else (if name == "DEEPSEEK_API_KEY" then "key-2" else "")

abbrev run : Candidate → String → Called ℕ
run c key = if key == "key-2" then raised "overloaded" else returned 7

abbrev chain : List Candidate
chain = resolve_purpose_model_chain env "consulting"

execute_with_failover-first_answer_example :
    (execute_with_failover (resolve_candidate_api_key env) run chain "deepseek-v4-pro").answer
    ≡ first_answer (answer_of (resolve_candidate_api_key env) run) (prefer "deepseek-v4-pro" chain)
execute_with_failover-first_answer_example =
    execute_with_failover-first_answer (resolve_candidate_api_key env) run chain "deepseek-v4-pro"
