-- ===== src/Llm/Failover.antt =====
-- app/services/llm_engine/failover.py: the models of a chain are tried in turn. The parameter `run` is the call
-- of a model, which gives a value or raises a text; `key_of` is `resolve_candidate_api_key`.
pub mod First
use meal_key_ecosystem.Base.{
  zero, suc, none, some, true, false, ℕ, String, Bool, Option, any_of, List, if◌then◌else◌, ltb,
  contains, ◌==◌, length, keep, lower, strip, ◌∷◌, ◌++◌, [], not,
}
use meal_key_ecosystem.Llm.Bindings.{Candidate, Provider}

pub data Called {ℓ} (A : Type ℓ) : Type ℓ where
  returned : A → Called A
  raised : String → Called A

pub record FailoverAttempt : Type 0 where
  pub candidate_id : String
  pub provider : Provider
  pub model : String
  pub ok : Bool
  pub detail : String

pub record FailoverResult {ℓ} (A : Type ℓ) : Type ℓ where
  pub answer : Option (Candidate × A)  -- `candidate` and `value`, if `ok`
  pub attempts : List FailoverAttempt
  pub reason : String
  pub failover_used : Bool

unfoldable pub is_retryable_failure : String → Bool
is_retryable_failure error = any_of (contains (lower error)) (
    "llm_http_408" ∷ "llm_http_409" ∷ "llm_http_429" ∷ "llm_http_500" ∷ "llm_http_502"
    ∷ "llm_http_503" ∷ "llm_http_504" ∷ "llm_unreachable" ∷ "timeout" ∷ "temporarily" ∷ "rate limit"
    ∷ "overloaded" ∷ "connection reset" ∷ [])

-- `sorted` by whether the model is not the preferred one: a stable order of two classes
unfoldable pub prefer : String → List Candidate → List Candidate
prefer model chain =
    if model == ""
    then chain
    else (keep (λ (c : Candidate). c.model == strip model) chain)
      ++ keep (λ (c : Candidate). not (c.model == strip model)) chain

attempt : Candidate → Bool → String → FailoverAttempt
attempt c ok detail = record {
  candidate_id = c.id;
  provider = c.provider;
  model = c.model;
  ok = ok;
  detail = detail;
}

-- `text[:n]`
cut_text : ℕ → String → String
cut_text zero text = ""
cut_text (suc n) String.[] = ""
cut_text (suc n) (String.◌∷◌ c text) = String.◌∷◌ c (cut_text n text)

module _ {ℓ} {A : Type ℓ} where
  -- one candidate: the value, or the detail of the failed attempt
  try_candidate : (Candidate → String) → (Candidate → String → Called A) → Candidate → Called A
  try_candidate key_of run c = if key_of c == "" then raised "missing_api_key" else run c (key_of c)

  -- after a candidate: its value is the answer, or the chain goes on after the failed attempt
  settle :
      Candidate
      → List FailoverAttempt
      → Called A
      → (List FailoverAttempt → FailoverResult A)
      → FailoverResult A
  unfolding attempt
  settle c made (returned v) go_on = record {
    answer = some (c, v);
    attempts = made ++ attempt c true "ok" ∷ [];
    reason = "ok";
    failover_used = ltb 0 (length made);
  }
  settle c made (raised text) go_on = go_on (made ++ attempt c false (cut_text 240 text) ∷ [])

  -- the loop over the chain, after the attempts that were made
  try_all :
      (Candidate → String)
      → (Candidate → String → Called A)
      → List Candidate
      → List FailoverAttempt
      → FailoverResult A
  try_all key_of run [] made = record {
    answer = none;
    attempts = made;
    reason = "all_failed";
    failover_used = ltb 1 (length made);
  }
  try_all key_of run (c ∷ rest) made =
      settle c made (try_candidate key_of run c) (λ later. try_all key_of run rest later)

  try_chain :
      (Candidate → String) → (Candidate → String → Called A) → List Candidate → FailoverResult A
  unfolding try_all
  try_chain key_of run [] = record {
    answer = none;
    attempts = [];
    reason = "empty_chain";
    failover_used = false;
  }
  try_chain key_of run (c ∷ rest) = try_all key_of run (c ∷ rest) []

  pub execute_with_failover :
      (Candidate → String)
      → (Candidate → String → Called A)
      → List Candidate
      → String
      → FailoverResult A
  execute_with_failover key_of run chain prefer_model =
      try_chain key_of run (prefer prefer_model chain)
