-- ===== src/Platform/Modes/Production.antt =====
-- Production never runs on a mock.
use meal_key_ecosystem.Base.{
  true, false, ◌≡◌, String, Bool-cases, ◌⊎◌, not, ◌==◌, inl, inr, List, if◌then◌else◌, update, Bool,
  All, ◌||◌, arith, refl, ◌∷◌, ◌&&◌, ap, [],
}
use meal_key_ecosystem.Platform.Modes.{
  assert_mode_allowed, resolve_fetch_mode, disable_production_mock_connectors, is_forbidden,
  disable, is_mock, is_test_only, is_allowed, requested_mode, ModeResult, mode, refused,
  PlatformConnection, platform_unavailable, ErrorCode, configuration_error,
}

-- a result is an error, or a real mode
abbrev pub IsReal : ModeResult → Type 0
IsReal (refused e) = Unit
IsReal (mode m) = (is_allowed m ≡ true) × (is_mock m ≡ false) × (is_test_only m ≡ false)

guarded :
    (r : ModeResult) (b : Bool) (e : ErrorCode)
    → (b ≡ false → IsReal r)
    → IsReal (if b then refused e else r)
guarded r true e h = tt
guarded r false e h = h refl

guards-IsReal :
    (m : String)
    → IsReal (
        if m == ""
        then refused platform_unavailable
        else if not (is_allowed m)
        then refused configuration_error
        else if is_mock m && true
        then refused configuration_error
        else if is_test_only m && true
        then refused configuration_error
        else mode m)
guards-IsReal m = guarded _ (m == "") _ (λ blank. guarded _ (not (is_allowed m)) _ (λ known.
    guarded _ (is_mock m && true) _ (λ real.
      guarded _ (is_test_only m && true) _
        (λ tested. (ground (arith, known), ground (arith, real), ground (arith, tested))))))

assert_mode-IsReal : (text : String) → IsReal (assert_mode_allowed false text)
unfolding assert_mode_allowed
assert_mode-IsReal text = guards-IsReal (requested_mode text)

-- In production, whatever is asked for and whatever the connection says, the mode is an error or one that
-- is allowed and neither a mock nor a test source.
pub resolve_fetch_mode-IsReal :
    (requested connection_mode : String)
    → IsReal (resolve_fetch_mode false requested connection_mode)
unfolding resolve_fetch_mode
resolve_fetch_mode-IsReal requested connection_mode = elim (Bool-cases (not (requested == ""))) [
  | inl e ↦ rw e (assert_mode-IsReal requested)
  | inr e ↦ elim (Bool-cases (not (connection_mode == ""))) [
    | inl f ↦ rw (e, f) (assert_mode-IsReal connection_mode)
    | inr f ↦ rw (e, f) tt
  ]
]

-- a connection by a mock or a test source is disabled
abbrev pub IsSafe : PlatformConnection → Type 0
IsSafe c =
    (c.status ≡ "disabled")
    ⊎ ((is_mock (requested_mode c.connector_mode) ≡ false)
        × (is_test_only (requested_mode c.connector_mode) ≡ false))

neither : (a b : Bool) → a || b ≡ false → (a ≡ false) × (b ≡ false)
neither a b h = (ground (arith, h), ground (arith, h))

disabled_rows :
    (rows : List PlatformConnection)
    → All IsSafe (update is_forbidden disable rows)
      × (update is_forbidden disable (update is_forbidden disable rows)
          ≡ update is_forbidden disable rows)
unfolding update is_forbidden disable
disabled_rows [] = (tt, refl)
disabled_rows (c ∷ rest) =
    let (safe, again) = disabled_rows rest in
    elim (Bool-cases (
      is_mock (requested_mode c.connector_mode)
      || is_test_only (requested_mode c.connector_mode))) [
        | inl e ↦ rw (e, e) ((inl refl, safe), ap (λ x. disable c ∷ x) again)
        | inr e ↦ rw (e, e) ((inr (neither _ _ e), safe), ap (λ x. c ∷ x) again)
      ]

-- After a start in production every connection by a mock or a test source is disabled, and a second start
-- changes nothing.
pub disable_production-IsSafe :
    (rows : List PlatformConnection)
    → All IsSafe (disable_production_mock_connectors false rows).0
      × ((disable_production_mock_connectors false
            (disable_production_mock_connectors false rows).0).0
          ≡ (disable_production_mock_connectors false rows).0)
unfolding disable_production_mock_connectors
disable_production-IsSafe rows = disabled_rows rows
