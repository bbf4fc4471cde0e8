-- ===== src/Loop/Observe/Window.antt =====
-- What a tick leaves behind when the windows of observation end.
use meal_key_ecosystem.Loop.State.Lookup.{get_loop-put_loop_other}
use meal_key_ecosystem.Loop.State.{Item, put_loop, LoopDb, result_ready, is_waiting, get_loop}
use meal_key_ecosystem.Base.{
  arith, ◌≡◌, Bool-cases, List, any_of, false, All, true, Bool, ◌∷◌, ◌&&◌, [], eq_nat, refl, inl,
  update-All, inr, update, All-map, keep, ◌||◌, ◌≢◌, ◌∙◌,
}
use meal_key_ecosystem.Models.{Time, RowId}
use meal_key_ecosystem.Loop.Observe.{
  judge, judged_task, attributed, evaluated, put_experiment, closed_item, close_observation, tick,
  watched, ended, Evaluators, Verdict, tick_observing_loops,
}

judge_loops : (env : Evaluators) (db : LoopDb) (x : Item) → (judge env db x).0.loops ≡ db.loops
unfolding judge judged_task attributed evaluated put_experiment
judge_loops env db x = ground arith

closed_item-status :
    (x : Item) (v : Verdict) (now : Time) → (closed_item x v now).status ≡ result_ready
unfolding closed_item
closed_item-status x v now = refl

pub close_observation-loops :
    (env : Evaluators) (db : LoopDb) (x : Item) (now : Time)
    → (close_observation env db x now).loops
      ≡ update (λ y. eq_nat y.id x.id) (λ _. closed_item x (judge env db x).1 now) db.loops
unfolding close_observation put_loop
close_observation-loops env db x now = ground (arith, judge_loops env db x)

-- the window of a waiting row has ended
unfoldable pub is_due : Time → Item → Bool
is_due now x = watched x && ended x now

same_ended : Time → Item → Item → Bool
same_ended now y z = eq_nat z.id y.id && ended z now

-- each due row of a database has its number among the rows that the loop still visits
IsListed : Time → List Item → Item → Type 0
IsListed now xs y = is_due now y ≡ true → any_of (same_ended now y) xs ≡ true

module _ (env : Evaluators) (now : Time) where
  IsListed-next :
      (x y : Item) (xs : List Item)
      → eq_nat y.id x.id && ended x now ≡ false
      → IsListed now (x ∷ xs) y
      → IsListed now xs y
  unfolding any_of same_ended IsListed
  IsListed-next x y xs miss h due = ground (arith, h due)

  closed_not_due :
      (x y : Item) (xs : List Item) (v : Verdict) → IsListed now xs (closed_item x v now)
  unfolding is_due watched is_waiting IsListed
  closed_not_due x y xs v due = ground (arith, closed_item-status x v now, due)

  closed-IsListed :
      (x : Item) (xs : List Item) (db : LoopDb)
      → All (IsListed now (x ∷ xs)) db.loops
      → All (IsListed now xs) (close_observation env db x now).loops
  closed-IsListed x xs db h = rw (close_observation-loops env db x now) (
      update-All (IsListed now xs) _ _ db.loops (λ y e _. closed_not_due x y xs (judge env db x).1)
        (λ y e. IsListed-next x y xs (ground (arith, e))) h)

  skipped-IsListed :
      (x : Item) (xs : List Item) (db : LoopDb)
      → ended x now ≡ false
      → All (IsListed now (x ∷ xs)) db.loops
      → All (IsListed now xs) db.loops
  skipped-IsListed x xs db e h =
      All-map (IsListed now xs) db.loops (λ y. IsListed-next x y xs (ground (arith, e))) h

  tick-IsListed :
      (xs : List Item) (db : LoopDb)
      → All (IsListed now xs) db.loops
      → All (IsListed now []) (tick env now xs db).0.loops
  unfolding tick
  tick-IsListed [] db h = h
  tick-IsListed (x ∷ xs) db h = elim (Bool-cases (ended x now)) [
    | inl e ↦ rw e (tick-IsListed xs (close_observation env db x now) (closed-IsListed x xs db h))
    | inr e ↦ rw e (tick-IsListed xs db (skipped-IsListed x xs db e h))
  ]

  IsListed-at_first :
      (seen : List Item) (xs : List Item)
      → ((y : Item)
          → any_of (same_ended now y) (keep watched xs) ≡ true
          → any_of (same_ended now y) seen ≡ true)
      → All (IsListed now seen) xs
  unfolding any_of same_ended IsListed is_due keep
  IsListed-at_first seen [] sub = tt
  IsListed-at_first seen (x ∷ xs) sub = (
    λ due. sub x (ground (arith, due)),
    IsListed-at_first seen xs (λ y h. sub y (ground (arith, h))),
  )

  -- After a tick no matter of any store is still waiting with an observation window that has ended.
  pub tick_leaves_none :
      (db : LoopDb) → All (λ x. is_due now x ≡ false) (tick_observing_loops env db now).0.loops
  unfolding tick_observing_loops IsListed any_of
  tick_leaves_none db =
      All-map _ _
        (λ x h. elim (Bool-cases (is_due now x)) [ inl e ↦ ground (arith, h e) | inr e ↦ e ])
        (tick-IsListed (keep watched db.loops) db
          (IsListed-at_first (keep watched db.loops) db.loops (λ y h. h)))

-- is the number among those that the tick returns?
unfoldable pub reported : RowId → List RowId → Bool
reported j [] = false
reported j (i ∷ is) = eq_nat i j || reported j is

module _ (env : Evaluators) (now : Time) (store j : RowId) where
  close_observation_other :
      (db : LoopDb) (x : Item)
      → x.id ≢ j
      → get_loop (close_observation env db x now) store j ≡ get_loop db store j
  unfolding close_observation closed_item get_loop
  close_observation_other db x ne =
      let (db', v) = judge env db x in
      ground
        (arith, judge_loops env db x, get_loop-put_loop_other db' (closed_item x v now) store j ne)

  tick_none : (db : LoopDb) → get_loop (tick env now [] db).0 store j ≡ get_loop db store j
  unfolding tick
  tick_none db = refl

  tick_due :
      (x : Item) (xs : List Item) (db : LoopDb)
      → ended x now ≡ true
      → (tick env now (x ∷ xs) db).0 ≡ (tick env now xs (close_observation env db x now)).0
        × (tick env now (x ∷ xs) db).1 ≡ x.id ∷ (tick env now xs (close_observation env db x now)).1
  unfolding tick
  tick_due x xs db e = rw e (refl, refl)

  tick_not_due :
      (x : Item) (xs : List Item) (db : LoopDb)
      → ended x now ≡ false
      → tick env now (x ∷ xs) db ≡ tick env now xs db
  unfolding tick
  tick_not_due x xs db e = rw e refl

  not_reported :
      (i : RowId) (is js : List RowId)
      → is ≡ i ∷ js
      → reported j is ≡ false
      → (i ≢ j) × (reported j js ≡ false)
  unfolding reported
  not_reported i is js e h = (ground (arith, e, h), ground (arith, e, h))

  tick_keeps :
      (xs : List Item) (db : LoopDb)
      → reported j (tick env now xs db).1 ≡ false
      → get_loop (tick env now xs db).0 store j ≡ get_loop db store j
  tick_keeps [] db h = tick_none db
  tick_keeps (x ∷ xs) db h = elim (Bool-cases (ended x now)) [
    | inl e ↦
        let (same, ids) = tick_due x xs db e in
        let (ne, rest) = not_reported x.id _ _ ids h in
        rw same
          (tick_keeps xs (close_observation env db x now) rest ∙ close_observation_other db x ne)
    | inr e ↦
        rw (tick_not_due x xs db e) (tick_keeps xs db (ground (arith, tick_not_due x xs db e, h)))
  ]

  -- A tick changes no matter whose number it does not return.
  pub tick_unreported :
      (db : LoopDb)
      → reported j (tick_observing_loops env db now).1.ready ≡ false
      → get_loop (tick_observing_loops env db now).0 store j ≡ get_loop db store j
  unfolding tick_observing_loops
  tick_unreported db h = tick_keeps (keep watched db.loops) db h
