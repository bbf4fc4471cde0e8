-- ===== src/Platform/Modes.antt =====
-- app/services/connector_mode.py, and the row of app/models/settings.py that it reads. A message is left out
-- where the code's callers read only the error's code. An absent mode is "".
pub mod Production
use meal_key_ecosystem.Base.{
  none, some, true, false, String, Bool, if◌then◌else◌, List, Option, ◌||◌, ◌==◌, not, ◌∷◌, [],
  is_in, some, lower, ℕ, ◌&&◌, any_of, strip, update, keep, contains,
}

-- the columns of `PlatformConnection` that the services here read and write
pub record PlatformConnection : Type 0 where
  pub id : String
  pub store_id : String
  pub platform : String
  pub status : String
  pub connector_mode : String
  pub connected_at : Option ℕ
  pub last_error : String
  pub mobile_connect : Option (String × ℕ)  -- `mobile_connect` of `meta_json`: the code, and when

pub data ErrorCode : Type 0 where
  configuration_error platform_unavailable auth_required schema_changed : ErrorCode

-- a mode, or the code of a `ConnectorModeError`
pub data ModeResult : Type 0 where
  mode : String → ModeResult
  refused : ErrorCode → ModeResult

abbrev mock_modes : List String
mock_modes = "mock" ∷ "fixture" ∷ "sandbox" ∷ []

abbrev test_only_modes : List String
test_only_modes = "daily_report_test" ∷ []

abbrev allowed_modes : List String
allowed_modes = "mock" ∷ "http" ∷ "mobile" ∷ "oauth" ∷ "human_paste" ∷ "daily_report_test" ∷ []

unfoldable pub is_mock : String → Bool
is_mock m = is_in m mock_modes

unfoldable pub is_test_only : String → Bool
is_test_only m = is_in m test_only_modes

unfoldable pub is_allowed : String → Bool
is_allowed m = is_in m allowed_modes

-- the mode as it is compared
unfoldable pub requested_mode : String → String
requested_mode text = lower (strip text)

-- `assert_mode_allowed`; `allows_mock` is `settings.is_dev`
unfoldable pub assert_mode_allowed : Bool → String → ModeResult
assert_mode_allowed allows_mock text =
    let m = requested_mode text in
    if m == ""
    then refused platform_unavailable
    else if not (is_allowed m)
    then refused configuration_error
    else if is_mock m && not allows_mock
    then refused configuration_error
    else if is_test_only m && not allows_mock
    then refused configuration_error
    else mode m

-- `resolve_fetch_mode`: what was asked for, else the mode of the connection
pub resolve_fetch_mode : Bool → String → String → ModeResult
resolve_fetch_mode allows_mock requested connection_mode =
    if not (requested == "")
    then assert_mode_allowed allows_mock requested
    else if not (connection_mode == "")
    then assert_mode_allowed allows_mock connection_mode
    else refused platform_unavailable

-- `classify_connector_failure`, of an exception's own code if it is a `ConnectorModeError`, and its text
pub classify_connector_failure : Option ErrorCode → String → ErrorCode
classify_connector_failure (some own) text = own
classify_connector_failure none text =
    let low = lower text in
    if any_of (contains low) ("401" ∷ "403" ∷ "unauthorized" ∷ "auth_required" ∷ "token" ∷ [])
    then auth_required
    else if any_of (contains low) ("schema" ∷ "422" ∷ "unprocessable" ∷ [])
    then schema_changed
    else platform_unavailable

-- the connection is by a source that production forbids
is_forbidden : PlatformConnection → Bool
is_forbidden c = let m = requested_mode c.connector_mode in is_mock m || is_test_only m

disable : PlatformConnection → PlatformConnection
disable c = record c {
  status = "disabled";
  last_error =
      if is_test_only (requested_mode c.connector_mode)
      then "CONFIGURATION_ERROR: production forbids unauthenticated daily-report test source"
      else "CONFIGURATION_ERROR: production forbids mock";
}

ids_of : List PlatformConnection → List String
ids_of [] = []
ids_of (c ∷ rest) = c.id ∷ ids_of rest

-- `disable_production_mock_connectors`: the rows after it, and the ids that it returns
pub disable_production_mock_connectors :
    Bool → List PlatformConnection → List PlatformConnection × List String
unfolding is_forbidden disable ids_of
disable_production_mock_connectors allows_mock rows =
    if allows_mock
    then (rows, [])
    else (update is_forbidden disable rows, ids_of (keep is_forbidden rows))
