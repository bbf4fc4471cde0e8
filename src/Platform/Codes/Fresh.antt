-- ===== src/Platform/Codes/Fresh.antt =====
-- The loop that draws a code ends.
use meal_key_ecosystem.Base.{
  zero, suc, some, false, ℕ, String, List, ◌<◌, upper, ◌+◌, ◌≡◌, arith, suc, Bool-cases, inr, inl,
  subst, ◌++◌, refl, ◌∷◌, leb, [], ◌-◌, ap,
}
use meal_key_ecosystem.Platform.Codes.{
  create_with, put_connection, set_pending, draw_code, create_connect_code, is_taken, CodeDb,
  ConnectCode, created_code, Payload, to_payload, live_status, expire_seconds,
}

-- the loop gives a text that is not taken, by the draw `k` that is not
draw_code_ends :
    (draws : ℕ → String) (codes : List ConnectCode) (fuel n k : ℕ)
    → k < fuel
    → is_taken codes (upper (draws (n + k))) ≡ false
    → (code : String) × (draw_code draws codes fuel n ≡ some code) × (is_taken codes code ≡ false)
unfolding draw_code
draw_code_ends draws codes zero n k h free = absurd (omega (arith, h))
draw_code_ends draws codes (suc fuel) n zero h free =
    let here : is_taken codes (upper (draws n)) ≡ false =
      subst (λ i. is_taken codes (upper (draws i)) ≡ false) (omega arith) free in
    (upper (draws n), rw here refl, here)
draw_code_ends draws codes (suc fuel) n (suc k) h free =
    elim (Bool-cases (is_taken codes (upper (draws n)))) [
      | inr e ↦ (upper (draws n), rw e refl, e)
      | inl e ↦
          let later : is_taken codes (upper (draws (n + 1 + k))) ≡ false =
            subst (λ i. is_taken codes (upper (draws i)) ≡ false) (omega arith) free in
          rw e (draw_code_ends draws codes fuel (n + 1) k (omega (arith, h)) later)
    ]

-- the database has a new pending code of the store, which no other code is, for fifteen minutes
pub record IsCreated (before after : CodeDb) (store platform : String) (now : ℕ) (shown : Payload)
    : Type 0 where
  pub code : String
  pub fresh : is_taken before.codes code ≡ false
  pub added : after.codes ≡ before.codes ++ created_code code store platform now ∷ []
  pub given : shown.code ≡ code
  pub pending : shown.status ≡ "pending"
  pub left : shown.expires_in_seconds ≡ expire_seconds

-- The loop that draws codes ends as soon as a code is drawn that no store has: with more fuel than the number
-- of the first such draw, a code is created that no other code equals, pending for the store for fifteen
-- minutes.
pub create_connect_code_ends :
    (draws : ℕ → String) (fuel k : ℕ) (db : CodeDb) (store platform : String) (now : ℕ)
    → k < fuel
    → is_taken db.codes (upper (draws k)) ≡ false
    → (after : CodeDb) × (shown : Payload) × (create_connect_code draws fuel db store platform now
        ≡ some (after, shown))
      × IsCreated db after store platform now shown
unfolding create_connect_code create_with created_code to_payload live_status
create_connect_code_ends draws fuel k db store platform now h free =
    let from_start : is_taken db.codes (upper (draws (0 + k))) ≡ false =
      subst (λ i. is_taken db.codes (upper (draws i)) ≡ false) (omega arith) free in
    let (code, drawn, fresh) = draw_code_ends draws db.codes fuel 0 k h from_start in
    let short : leb (now + 900) now ≡ false = ground arith in
    let rest : now + 900 - now ≡ 900 = omega arith in
    let c = created_code code store platform now in
    (
      record {
        codes = db.codes ++ c ∷ [];
        connections = put_connection store platform set_pending db.connections;
      },
      to_payload c now,
      ap (create_with db store platform now) drawn,
      record {
        code = code;
        fresh = fresh;
        added = refl;
        given = refl;
        pending = rw short refl;
        left = rw (short, rest) refl;
      },
    )
