-- ===== src/Llm/Failover/First.antt =====
-- What a call with failover promises: the answer of the first model of the chain that gives one.
use meal_key_ecosystem.Base.{
  none, some, [], ◌∷◌, String, Option, List, ◌≡◌, if◌then◌else◌, Bool-cases, ◌∙◌, refl, ◌==◌, inl,
  ap, inr,
}
use meal_key_ecosystem.Llm.Bindings.{Candidate}
use meal_key_ecosystem.Llm.Failover.{
  Called, returned, raised, FailoverResult, FailoverAttempt, execute_with_failover, try_all,
  try_candidate, try_chain, settle, prefer,
}

module _ {ℓ} {A : Type ℓ} where
  abbrev value_of : Called A → Option A
  value_of (returned v) = some v
  value_of (raised text) = none

  -- the value of a candidate that has a key and answers
  unfoldable pub answer_of :
      (Candidate → String) → (Candidate → String → Called A) → Candidate → Option A
  answer_of key_of run c = if key_of c == "" then none else value_of (run c (key_of c))

  abbrev pub or_next : Candidate → Option A → Option (Candidate × A) → Option (Candidate × A)
  or_next c (some v) later = some (c, v)
  or_next c none later = later

  -- the first candidate of a chain that answers, with its value
  abbrev pub first_answer : (Candidate → Option A) → List Candidate → Option (Candidate × A)
  first_answer f [] = none
  first_answer f (c ∷ rest) = or_next c (f c) (first_answer f rest)

  answer_try :
      (key_of : Candidate → String) (run : Candidate → String → Called A) (c : Candidate)
      → value_of (try_candidate key_of run c) ≡ answer_of key_of run c
  unfolding try_candidate answer_of
  answer_try key_of run c = elim (Bool-cases (key_of c == "")) [
    | inl e ↦ rw e refl
    | inr e ↦ rw e refl
  ]

  settle_answer :
      (c : Candidate) (made : List FailoverAttempt) (r : Called A)
      (go_on : List FailoverAttempt → FailoverResult A) (later : Option (Candidate × A))
      → ((more : List FailoverAttempt) → (go_on more).answer ≡ later)
      → (settle c made r go_on).answer ≡ or_next c (value_of r) later
  unfolding settle
  settle_answer c made (returned v) go_on later h = refl
  settle_answer c made (raised text) go_on later h = h _

  try_all_first :
      (key_of : Candidate → String) (run : Candidate → String → Called A) (chain : List Candidate)
      (made : List FailoverAttempt)
      → (try_all key_of run chain made).answer ≡ first_answer (answer_of key_of run) chain
  unfolding try_all
  try_all_first key_of run [] made = refl
  try_all_first key_of run (c ∷ rest) made =
      settle_answer c made (try_candidate key_of run c) _ (first_answer (answer_of key_of run) rest)
        (λ more. try_all_first key_of run rest more)
      ∙ ap (λ o. or_next c o (first_answer (answer_of key_of run) rest)) (answer_try key_of run c)

  try_chain_first :
      (key_of : Candidate → String) (run : Candidate → String → Called A) (chain : List Candidate)
      → (try_chain key_of run chain).answer ≡ first_answer (answer_of key_of run) chain
  unfolding try_chain
  try_chain_first key_of run [] = refl
  try_chain_first key_of run (c ∷ rest) = try_all_first key_of run (c ∷ rest) []

  -- With failover the answer is that of the first model, the preferred ones first, that has a key and
  -- answers; there is none only if no model of the chain does.
  pub execute_with_failover-first_answer :
      (key_of : Candidate → String) (run : Candidate → String → Called A) (chain : List Candidate)
      (model : String)
      → (execute_with_failover key_of run chain model).answer
        ≡ first_answer (answer_of key_of run) (prefer model chain)
  unfolding execute_with_failover
  execute_with_failover-first_answer key_of run chain model =
      try_chain_first key_of run (prefer model chain)
