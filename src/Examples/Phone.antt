-- ===== src/Examples/Phone.antt =====
-- A phone that connects a store.
use meal_key_ecosystem.Base.{upper}
use meal_key_ecosystem.Base.{any_of}
use meal_key_ecosystem.Platform.Codes.{is_taken}
use meal_key_ecosystem.Base.{
  [], ◌∷◌, none, some, ℕ, false, ◌≡◌, String, arith, refl, if◌then◌else◌, eq_nat,
}
use meal_key_ecosystem.Platform.Modes.{PlatformConnection, resolve_fetch_mode}
use meal_key_ecosystem.Platform.Modes.Production.{resolve_fetch_mode-IsReal, IsReal}
use meal_key_ecosystem.Platform.Codes.{ConnectCode, CodeDb, create_connect_code, Payload}
use meal_key_ecosystem.Platform.Codes.Fresh.{create_connect_code_ends, IsCreated}

abbrev mock_connection : PlatformConnection
mock_connection = record {
  id = "c1";
  store_id = "s1";
  platform = "美团";
  status = "connected";
  connector_mode = " Mock";
  connected_at = none;
  last_error = "";
  mobile_connect = none;
}

resolve_fetch_mode-IsReal_example : IsReal (resolve_fetch_mode false "" "Mock")
resolve_fetch_mode-IsReal_example = resolve_fetch_mode-IsReal "" "Mock"

abbrev old_code : ConnectCode
old_code = record {
  code = "A1B2C3";
  store_id = "s1";
  platform = "美团";
  status = "pending";
  expires_at = 1900;
  connected_at = none;
}

abbrev phone_db : CodeDb
phone_db = record { codes = old_code ∷ []; connections = mock_connection ∷ [] }

-- the first draw is taken
abbrev draws : ℕ → String
draws n = if eq_nat n 0 then "a1b2c3" else "ffee00"

create_connect_code_ends_example :
    (after : CodeDb) × (shown : Payload) × (create_connect_code draws 5 phone_db "s2" "美团" 2000
      ≡ some (after, shown))
    × IsCreated phone_db after "s2" "美团" 2000 shown
unfolding is_taken any_of upper
create_connect_code_ends_example =
    create_connect_code_ends draws 5 1 phone_db "s2" "美团" 2000 (omega arith) refl
