-- ===== src/Data/Acquisition/Gate.antt =====
-- What an envelope needs to become a fact, and what of a payload is kept.
use meal_key_ecosystem.Base.{
  [], ◌∷◌, Bool, not, ◌||◌, arith, String, List, All, is_in, ◌≡◌, length, true, ◌+◌, false, ◌↔◌,
  is_some, ◌≢◌, Bool-cases, inl, inr,
}
use meal_key_ecosystem.Data.Acquisition.{
  FactEnvelope, Health, Reconciliation, promote_envelope, can_enter_high_confidence_storestate,
  is_unreconciled, is_explainable, filter_payload, is_rejected, order_fact_allowlist,
  pii_denied_keys, mode_confidence, screenshot, is_matched, is_unhealthy, matched,
}

-- An envelope enters the state with high confidence exactly when its connector is healthy enough, its
-- figures are matched, it has a value, and it does not come from a screenshot.
pub promote_envelope_enters :
    (e : FactEnvelope) (state : Health) (recon : Reconciliation)
    → (can_enter_high_confidence_storestate (promote_envelope e state recon) ≡ true) ↔ (
        (is_unhealthy state ≡ false)
        × (recon ≡ matched)
        × (is_some e.value ≡ true)
        × (e.acquisition_mode ≢ screenshot))
unfolding promote_envelope can_enter_high_confidence_storestate is_matched mode_confidence
    is_unhealthy is_unreconciled is_explainable
promote_envelope_enters e state recon = (
  λ h. (ground arith, ground arith, ground arith, λ x. ground arith),
  λ (clean, ok, given, shot). ground arith,
)

-- a key that may be kept
abbrev pub IsAllowedKey {ℓ} : {A : Type ℓ} → String × A → Type 0
IsAllowedKey (key, value) =
    (is_in key order_fact_allowlist ≡ true) × (is_in key pii_denied_keys ≡ false)

neither : (a b : Bool) → a || not b ≡ false → (b ≡ true) × (a ≡ false)
neither a b h = (ground (arith, h), ground (arith, h))

key_allowed :
    (key : String)
    → is_rejected key ≡ false
    → (is_in key order_fact_allowlist ≡ true) × (is_in key pii_denied_keys ≡ false)
unfolding is_rejected
key_allowed key h = neither (is_in key pii_denied_keys) (is_in key order_fact_allowlist) h

module _ {ℓ} {A : Type ℓ} where
  kept_keys : (payload : List (String × A)) → All IsAllowedKey (filter_payload payload).0
  unfolding filter_payload
  kept_keys [] = tt
  kept_keys ((key, value) ∷ rest) = elim (Bool-cases (is_rejected key)) [
    | inl r ↦ rw r (kept_keys rest)
    | inr k ↦ rw k (key_allowed key k, kept_keys rest)
  ]

  kept_count :
      (payload : List (String × A))
      → length (filter_payload payload).0 + (filter_payload payload).1 ≡ length payload
  unfolding filter_payload
  kept_count [] = omega arith
  kept_count ((key, value) ∷ rest) = elim (Bool-cases (is_rejected key)) [
    | inl r ↦ rw r (omega (arith, kept_count rest))
    | inr k ↦ rw k (omega (arith, kept_count rest))
  ]

  -- What the filter keeps of a payload is on the allowlist and no personal data; kept and rejected keys
  -- together are all keys.
  pub filter_payload_lem :
      (payload : List (String × A))
      → All IsAllowedKey (filter_payload payload).0
        × (length (filter_payload payload).0 + (filter_payload payload).1 ≡ length payload)
  filter_payload_lem payload = (kept_keys payload, kept_count payload)
