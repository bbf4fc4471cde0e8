-- ===== src/Policy/Lessons/Aging.antt =====
-- How confidence in lessons moves with age.
use meal_key_ecosystem.Base.{
  false, ◌≢◌, subst, sym, ap, All-map, if◌then◌else◌, [], ◌∷◌, true, ℕ, ◌*◌, ◌≤◌, ◌≡◌, ◌+◌, ◌⊎◌,
  List, Bool-cases, ◌<◌, refl, ltb, map, arith, ◌-◌, ◌/◌, inl, inr, not, eq_nat, ◌&&◌,
}
use meal_key_ecosystem.Policy.Lessons.Newest.{IsTop, IsRowOf, latest-IsTop, latest-IsRowOf}
use meal_key_ecosystem.Policy.Lessons.{
  same_action, Lesson, Fraction, aged, run_memory_lifecycle, above_30, latest, is_expired, expired,
  LessonResult,
}

-- the rows of two lists, one by one
abbrev pub Pairwise : (Lesson → Lesson → Type 0) → List Lesson → List Lesson → Type 0
Pairwise R [] [] = Unit
Pairwise R [] (b ∷ bs) = ⊥
Pairwise R (a ∷ xs) [] = ⊥
Pairwise R (a ∷ xs) (b ∷ bs) = R a b × Pairwise R xs bs

-- 366 and 181 days, in seconds
abbrev year : ℕ
year = 31622400

abbrev half_year : ℕ
half_year = 15638400

-- at most three tenths
abbrev pub IsLow : Fraction → Type 0
IsLow c = 10 * c.num ≤ 3 * c.den

-- What a run at `now` may do to one of the rows: no column changes but the result and the confidence, which
-- does not rise; a row of a year expires, and no other result changes; one of half a year is low; a younger
-- one falls to six tenths of its confidence if it is not low and there is a newer one of its store and
-- action (no newer one with its id), and keeps it if no row of these has another id.
pub record IsAged (now : ℕ) (rows : List Lesson) (before after : Lesson) : Type 0 where
  pub not_above :
      after.confidence.num * before.confidence.den ≤ before.confidence.num * after.confidence.den
  pub same_row :
      (after.id ≡ before.id)
      × (after.store_id ≡ before.store_id)
      × (after.experiment_id ≡ before.experiment_id)
      × (after.action_type ≡ before.action_type)
      × (after.created_at ≡ before.created_at)
  pub result :
      ((now < before.created_at + year) × (after.result ≡ before.result))
      ⊎ ((before.created_at + year ≤ now)
          × (after.result ≡ expired)
          × ((before.result ≡ expired) ⊎ (after.confidence.num ≡ 0)))
  pub old :
      (now < before.created_at + half_year)
      ⊎ (before.created_at + year ≤ now)
      ⊎ IsLow after.confidence
  pub superseded :
      (before.created_at + half_year ≤ now)
      ⊎ IsLow before.confidence
      ⊎ (after.confidence
          ≡ record { num = 6 * before.confidence.num; den = 10 * before.confidence.den })
      ⊎ IsTop before before rows
      ⊎ ((x : Lesson) × (x.id ≡ before.id)
          × (before.created_at < x.created_at)
          × IsRowOf before rows x)
  pub kept :
      (before.created_at + half_year ≤ now)
      ⊎ (after.confidence ≡ before.confidence)
      ⊎ ((x : Lesson) × (x.id ≢ before.id) × IsRowOf before rows x)

six_tenths : (n d : ℕ) → 6 * n * d ≤ n * (10 * d)
six_tenths n d = ground arith

expired_result : (r : LessonResult) → is_expired r ≡ true → r ≡ expired
unfolding is_expired
expired_result r h = ground (arith, h)

module _ (now : ℕ) (rows : List Lesson) where
  -- of a year or more
  long_ago :
      (l : Lesson) (c : Fraction)
      → l.created_at + year ≤ now
      → c.num * l.confidence.den ≤ l.confidence.num * c.den
      → (l.result ≡ expired) ⊎ (c.num ≡ 0)
      → IsAged now rows l (record l { result = expired; confidence = c })
  long_ago l c age lower why = record {
    not_above = lower;
    same_row = (refl, refl, refl, refl, refl);
    result = inr (age, refl, why);
    old = inr (inl age);
    superseded = inl (omega (arith, age));
    kept = inl (omega (arith, age));
  }

  -- of half a year to a year
  fading :
      (l : Lesson) (c : Fraction)
      → now < l.created_at + year
      → l.created_at + half_year ≤ now
      → c.num * l.confidence.den ≤ l.confidence.num * c.den
      → IsLow c
      → IsAged now rows l (record l { confidence = c })
  fading l c age age' lower low = record {
    not_above = lower;
    same_row = (refl, refl, refl, refl, refl);
    result = inl (age, refl);
    old = inr (inr low);
    superseded = inl age';
    kept = inl age';
  }

  -- the row with the id of the newest is the newest, unless a newer one has its id
  own_id :
      (l n : Lesson)
      → IsTop l n rows
      → (n ≡ l) ⊎ IsRowOf l rows n
      → n.id ≡ l.id
      → IsTop l l rows
        ⊎ ((x : Lesson) × (x.id ≡ l.id) × (l.created_at < x.created_at) × IsRowOf l rows x)
  own_id l n top (inl e) same = inl (subst (λ x. IsTop l x rows) e top)
  own_id l n top (inr row) same = elim (Bool-cases (ltb l.created_at n.created_at)) [
    | inl t ↦ inr (n, same, ground (arith, t), row)
    | inr t ↦
        let no_newer : n.created_at ≤ l.created_at = ground (arith, t) in
        inl (
          All-map (λ (x : Lesson). (same_action l x ≡ false) ⊎ (x.created_at ≤ l.created_at)) rows
            (λ x h. elim h [ inl e ↦ inl e | inr e ↦ inr (omega (arith, e, no_newer)) ]) top)
  ]

  other_row : (l n : Lesson) → (n ≡ l) ⊎ IsRowOf l rows n → n.id ≢ l.id → IsRowOf l rows n
  other_row l n (inl e) other = absurd (other (ap (λ (x : Lesson). x.id) e))
  other_row l n (inr row) other = row

  fresh :
      (l n : Lesson)
      → IsTop l n rows
      → (n ≡ l) ⊎ IsRowOf l rows n
      → now < l.created_at + half_year
      → IsAged now rows l (
          if not (eq_nat n.id l.id) && above_30 l.confidence
          then record l {
            confidence = record { num = 6 * l.confidence.num; den = 10 * l.confidence.den };
          }
          else l)
  unfolding above_30
  fresh l n top row age = elim (Bool-cases (eq_nat n.id l.id)) [
    | inl s ↦ rw s (record {
      not_above = omega arith;
      same_row = (refl, refl, refl, refl, refl);
      result = inl (omega (arith, age), refl);
      old = inl age;
      superseded = inr (inr (inr (own_id l n top row (ground (arith, s)))));
      kept = inr (inl refl);
    })
    | inr s ↦ elim (Bool-cases (ltb (3 * l.confidence.den) (10 * l.confidence.num))) [
      | inl g ↦
          rw (s, g)
            (record {
              not_above = six_tenths l.confidence.num l.confidence.den;
              same_row = (refl, refl, refl, refl, refl);
              result = inl (omega (arith, age), refl);
              old = inl age;
              superseded = inr (inr (inl refl));
              kept =
                  let other : n.id ≢ l.id = λ e. ground (arith, e, s) in
                  inr (inr (n, other, other_row l n row other));
            })
      | inr g ↦
          rw (s, g)
            (record {
              not_above = omega arith;
              same_row = (refl, refl, refl, refl, refl);
              result = inl (omega (arith, age), refl);
              old = inl age;
              superseded = inr (inl (ground (arith, g)));
              kept = inr (inl refl);
            })
    ]
  ]

  aged-IsAged :
      (n l : Lesson)
      → IsTop l n rows
      → (n ≡ l) ⊎ IsRowOf l rows n
      → IsAged now rows l (aged now n l)
  unfolding aged above_30
  aged-IsAged n l top row = elim (Bool-cases (ltb 365 ((now - l.created_at) / 86400))) [
    | inl e ↦
        let age : l.created_at + year ≤ now = ground (arith, e) in
        elim (Bool-cases (is_expired l.result)) [
          | inl f ↦
              let was = expired_result l.result f in
              rw (e, f)
                (subst (λ r. IsAged now rows l (record l { result = r })) (sym was)
                  (long_ago l l.confidence age (omega arith) (inl was)))
          | inr f ↦
              rw (e, f) (long_ago l (record { num = 0; den = 1 }) age (omega arith) (inr refl))
        ]
    | inr e ↦
        let age : now < l.created_at + year = ground (arith, e) in
        elim (Bool-cases (ltb 180 ((now - l.created_at) / 86400))) [
          | inl f ↦
              let age' : l.created_at + half_year ≤ now = ground (arith, f) in
              elim (Bool-cases (ltb (3 * l.confidence.den) (10 * l.confidence.num))) [
                | inl g ↦
                    rw (e, f, g)
                      (fading l (record { num = 3; den = 10 }) age age' (ground (arith, g))
                        (omega arith))
                | inr g ↦
                    rw (e, f, g) (fading l l.confidence age age' (omega arith) (ground (arith, g)))
              ]
          | inr f ↦ rw (e, f) (fresh l n top row (ground (arith, f)))
        ]
  ]

  map-IsAged :
      (some_rows : List Lesson)
      → Pairwise
          (IsAged now rows)
          some_rows
          (map (λ (l : Lesson). aged now (latest rows l) l) some_rows)
  map-IsAged [] = tt
  map-IsAged (l ∷ rest) =
      (aged-IsAged (latest rows l) l (latest-IsTop rows l) (latest-IsRowOf rows l), map-IsAged rest)

-- A run of the lifecycle raises the confidence in no lesson and writes nothing of a row but the confidence
-- and the result. A lesson of 366 days or more is left expired, and without confidence unless it was expired
-- before; no younger one changes its result. One of 181 to 365 days is left with a confidence of at most
-- three tenths. One of at most 180 days with a confidence above three tenths, of whose store and action
-- there is a newer one, none of the newer ones with its id, is left with six tenths of its confidence; the
-- confidence of one of at most 180 days changes only if its store and action have a row with another id.
pub run_memory_lifecycle-IsAged :
    (rows : List Lesson) (now : ℕ) → Pairwise (IsAged now rows) rows (run_memory_lifecycle rows now)
unfolding run_memory_lifecycle
run_memory_lifecycle-IsAged rows now = map-IsAged now rows rows
