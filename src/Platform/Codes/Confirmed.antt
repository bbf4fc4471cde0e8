-- ===== src/Platform/Codes/Confirmed.antt =====
-- What a confirmed code changes.
use meal_key_ecosystem.Base.{
  none, some, true, ℕ, String, ◌≡◌, Holds, ◌≤◌, ◌⊎◌, inl, inr, Option, leb, arith, refl,
}
use meal_key_ecosystem.Platform.Codes.{
  confirm_found, confirm_connect_code, CodeDb, ConnectCode, find_code, live_status, expired,
  not_found,
}

-- a code that waits, and whose time is over
abbrev pub IsOver : ConnectCode → ℕ → Type 0
IsOver c now = (c.status ≡ "pending") × (c.expires_at ≤ now)

refused_found :
    (db : CodeDb) (store : String) (now : ℕ) (o : Option ConnectCode)
    → Holds (λ c. IsOver c now) o
    → ((confirm_found db store now o).0 ≡ db)
      × (((confirm_found db store now o).1 ≡ expired)
          ⊎ ((confirm_found db store now o).1 ≡ not_found))
unfolding confirm_found live_status
refused_found db store now none h = (refl, inr refl)
refused_found db store now (some c) h =
    let late : leb c.expires_at now ≡ true = ground (arith, h.1) in rw (h.0, late) (refl, inl refl)

-- A code that the store does not have, or one that waits and is over, connects nothing: the database stays as
-- it is, and the error says so.
pub confirm_connect_code_refused :
    (db : CodeDb) (store code : String) (now : ℕ)
    → Holds (λ c. IsOver c now) (find_code db.codes store code)
    → ((confirm_connect_code db store code now).0 ≡ db)
      × (((confirm_connect_code db store code now).1 ≡ expired)
          ⊎ ((confirm_connect_code db store code now).1 ≡ not_found))
unfolding confirm_connect_code
confirm_connect_code_refused db store code now h =
    refused_found db store now (find_code db.codes store code) h
