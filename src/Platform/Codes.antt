-- ===== src/Platform/Codes.antt =====
-- app/services/connect_codes.py: the codes with which a phone connects a store. Times are seconds; what one
-- call does happens at one time. `draws` are the texts that `secrets` gives, `fuel` the number that may be
-- drawn. The id of a new connection is left out, and the synchronisation after a confirmation
-- (app/services/platform_sync.py), which keeps the status.
pub mod Fresh
pub mod Confirmed
use meal_key_ecosystem.Base.{
  none, some, true, false, String, ℕ, List, Bool, Option, update, if◌then◌else◌, ◌+◌, ◌==◌, first,
  or_text, any_of, suc, ◌++◌, upper, ◌&&◌, leb, ◌∷◌, [], zero, ◌-◌,
}
use meal_key_ecosystem.Platform.Modes.{PlatformConnection}

pub record ConnectCode : Type 0 where
  pub code : String
  pub store_id : String
  pub platform : String
  pub status : String
  pub expires_at : ℕ
  pub connected_at : Option ℕ

pub record CodeDb : Type 0 where
  pub codes : List ConnectCode
  pub connections : List PlatformConnection

abbrev pub expire_seconds : ℕ
expire_seconds = 900

-- a code is taken
unfoldable pub is_taken : List ConnectCode → String → Bool
is_taken codes code = any_of (λ (c : ConnectCode). c.code == code) codes

-- `while code exists: code = secrets.token_hex(3).upper()`, from the draw `n` on; `none` is that the fuel is
-- used up
draw_code : (ℕ → String) → List ConnectCode → ℕ → ℕ → Option String
draw_code draws codes zero n = none
draw_code draws codes (suc fuel) n =
    let next = draw_code draws codes fuel (n + 1) in
    if is_taken codes (upper (draws n)) then next else some (upper (draws n))

-- the status and the seconds that are left, of `_to_payload`
live_status : ConnectCode → ℕ → String × ℕ
live_status c now =
    if c.status == "pending"
    then (if leb c.expires_at now then ("expired", 0) else ("pending", c.expires_at - now))
    else (c.status, 0)

pub record Payload : Type 0 where
  pub code : String
  pub store_id : String
  pub platform : String
  pub status : String
  pub connected_at : Option ℕ
  pub expires_in_seconds : ℕ

to_payload : ConnectCode → ℕ → Payload
unfolding live_status
to_payload c now = record {
  code = c.code;
  store_id = c.store_id;
  platform = c.platform;
  status = (live_status c now).0;
  connected_at = c.connected_at;
  expires_in_seconds = (live_status c now).1;
}

is_code_of : String → String → ConnectCode → Bool
is_code_of store code c = c.code == code && c.store_id == store

unfoldable pub find_code : List ConnectCode → String → String → Option ConnectCode
unfolding is_code_of
find_code codes store code = first (is_code_of store code) codes

pub get_connect_code : CodeDb → String → String → ℕ → Option Payload
unfolding to_payload
get_connect_code db store code now = elim (find_code db.codes store code) [
  | none ↦ none
  | some c ↦ some (to_payload c now)
]

is_connection_of : String → String → PlatformConnection → Bool
is_connection_of store platform c = c.store_id == store && c.platform == platform

new_connection : String → String → PlatformConnection
new_connection store platform = record {
  id = "";
  store_id = store;
  platform = platform;
  status = "pending";
  connector_mode = "mobile";
  connected_at = none;
  last_error = "";
  mobile_connect = none;
}

-- assigns to the connection of a store with a platform, which is made where there is none
put_connection :
    String
    → String
    → (PlatformConnection → PlatformConnection)
    → List PlatformConnection
    → List PlatformConnection
unfolding new_connection is_connection_of
put_connection store platform f rows =
    if any_of (is_connection_of store platform) rows
    then update (is_connection_of store platform) f rows
    else rows ++ f (new_connection store platform) ∷ []

set_pending : PlatformConnection → PlatformConnection
set_pending c = record c { status = "pending"; connector_mode = "mobile"; last_error = "" }

pub created_code : String → String → String → ℕ → ConnectCode
created_code code store platform now = record {
  code = code;
  store_id = store;
  platform = platform;
  status = "pending";
  expires_at = now + expire_seconds;
  connected_at = none;
}

create_with : CodeDb → String → String → ℕ → Option String → Option (CodeDb × Payload)
unfolding created_code put_connection set_pending to_payload
create_with db store platform now none = none
create_with db store platform now (some code) =
    let c = created_code code store platform now in
    some (
      record {
        codes = db.codes ++ c ∷ [];
        connections = put_connection store platform set_pending db.connections;
      },
      to_payload c now,
    )

pub create_connect_code :
    (ℕ → String) → ℕ → CodeDb → String → String → ℕ → Option (CodeDb × Payload)
unfolding draw_code create_with
create_connect_code draws fuel db store platform now =
    create_with db store platform now (draw_code draws db.codes fuel 0)

pub data Confirmation : Type 0 where
  linked : Payload → Confirmation
  not_found expired : Confirmation

set_connected : String → ℕ → PlatformConnection → PlatformConnection
set_connected code now c = record c {
  status = "connected";
  connector_mode = "mobile";
  connected_at = some now;
  last_error = "";
  mobile_connect = some (code, now);
}

confirmed_code : ConnectCode → ℕ → ConnectCode
confirmed_code c now = record c { status = "connected"; connected_at = some now }

-- what is written when a code is confirmed
connect_with : CodeDb → String → ConnectCode → ℕ → CodeDb
unfolding set_connected confirmed_code is_code_of put_connection
connect_with db store c now = record {
  codes = update (is_code_of store c.code) (λ x. confirmed_code x now) db.codes;
  connections =
      put_connection store (or_text c.platform "外卖平台") (set_connected c.code now) db.connections;
}

confirm_found : CodeDb → String → ℕ → Option ConnectCode → CodeDb × Confirmation
unfolding connect_with to_payload live_status confirmed_code
confirm_found db store now none = (db, not_found)
confirm_found db store now (some c) =
    if (live_status c now).0 == "expired"
    then (db, expired)
    else (connect_with db store c now, linked (to_payload (confirmed_code c now) now))

pub confirm_connect_code : CodeDb → String → String → ℕ → CodeDb × Confirmation
unfolding confirm_found
confirm_connect_code db store code now = confirm_found db store now (find_code db.codes store code)
