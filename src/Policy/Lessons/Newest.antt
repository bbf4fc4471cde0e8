-- ===== src/Policy/Lessons/Newest.antt =====
-- The newest lesson of a store and an action, as app/services/memory_lifecycle.py finds it.
use meal_key_ecosystem.Base.{
  sym, ◌∙◌, [], ◌∷◌, none, some, true, false, inl, inr, List, All, Option, ◌≡◌, ◌≤◌, ◌⊎◌,
  Bool-cases, arith, first, first-Mem, Holds, ltb, if◌then◌else◌, Mem, mem-cons_self,
  mem-cons_of_mem, refl, Bool, subst, first-Holds,
}
use meal_key_ecosystem.Policy.Lessons.{Lesson, same_action, newer, newest, latest}

-- no lesson with the store and the action of `key` is newer than `top`
abbrev pub IsTop : Lesson → Lesson → List Lesson → Type 0
IsTop key top rows =
    All (λ (x : Lesson). (same_action key x ≡ false) ⊎ (x.created_at ≤ top.created_at)) rows

-- one step of the search
step-above :
    (s : Bool) (best l : Lesson)
    → (best.created_at ≤ (if s then newer best l else best).created_at)
      × ((s ≡ false) ⊎ (l.created_at ≤ (if s then newer best l else best).created_at))
unfolding newer
step-above true best l = (ground arith, inr (ground arith))
step-above false best l = (omega arith, inl refl)

step-one :
    (s : Bool) (best l : Lesson)
    → ((if s then newer best l else best) ≡ best)
      ⊎ (((if s then newer best l else best) ≡ l) × (s ≡ true))
unfolding newer
step-one true best l = elim (Bool-cases (ltb best.created_at l.created_at)) [
  | inl t ↦ inr (rw t refl, refl)
  | inr t ↦ inl (rw t refl)
]
step-one false best l = inl refl

newest-IsTop :
    (key : Lesson) (rows : List Lesson) (best : Lesson)
    → (best.created_at ≤ (newest key rows best).created_at) × IsTop key (newest key rows best) rows
unfolding newest
newest-IsTop key [] best = (omega arith, tt)
newest-IsTop key (l ∷ rest) best =
    let step = step-above (same_action key l) best l in
    let h = newest-IsTop key rest (if same_action key l then newer best l else best) in
    (
      omega (arith, h.0, step.0),
      (elim (step.1) [ inl e ↦ inl e | inr e ↦ inr (omega (arith, h.0, e)) ], h.1),
    )

-- a row of the key's store and action
abbrev pub IsRowOf : Lesson → List Lesson → Lesson → Type 0
IsRowOf key rows x = Mem x rows × (same_action key x ≡ true)

row_later :
    (key l : Lesson) (rest : List Lesson) (x : Lesson)
    → IsRowOf key rest x
    → IsRowOf key (l ∷ rest) x
row_later key l rest x h = (mem-cons_of_mem l h.0, h.1)

newest-IsRowOf :
    (key : Lesson) (rows : List Lesson) (best : Lesson)
    → (newest key rows best ≡ best) ⊎ IsRowOf key rows (newest key rows best)
unfolding newest
newest-IsRowOf key [] best = inl refl
newest-IsRowOf key (l ∷ rest) best =
    elim (newest-IsRowOf key rest (if same_action key l then newer best l else best)) [
      | inr h ↦ inr (row_later key l rest _ h)
      | inl e ↦ elim (step-one (same_action key l) best l) [
        | inl f ↦ inl (e ∙ f)
        | inr (f, s) ↦ inr (subst (IsRowOf key (l ∷ rest)) (sym (e ∙ f)) (mem-cons_self, s))
      ]
    ]

none_same :
    (key top : Lesson) (rows : List Lesson)
    → first (same_action key) rows ≡ none
    → IsTop key top rows
unfolding first
none_same key top [] e = tt
none_same key top (x ∷ rest) e = elim (Bool-cases (same_action key x)) [
  | inl s ↦ absurd (ground (arith, e, s))
  | inr s ↦ (inl s, none_same key top rest (ground (arith, e, s)))
]

found-IsTop :
    (rows : List Lesson) (l : Lesson) (o : Option Lesson)
    → first (same_action l) rows ≡ o
    → IsTop l (elim o [ some best ↦ newest l rows best | none ↦ l ]) rows
found-IsTop rows l none e = none_same l l rows e
found-IsTop rows l (some best) e = (newest-IsTop l rows best).1

found-IsRowOf :
    (rows : List Lesson) (l : Lesson) (o : Option Lesson)
    → Holds (IsRowOf l rows) o
    → ((elim o [ some best ↦ newest l rows best | none ↦ l ]) ≡ l)
      ⊎ IsRowOf l rows (elim o [ some best ↦ newest l rows best | none ↦ l ])
found-IsRowOf rows l none h = inl refl
found-IsRowOf rows l (some best) h =
    inr (elim (newest-IsRowOf l rows best) [ inl e ↦ subst (IsRowOf l rows) (sym e) h | inr m ↦ m ])

both :
    (p : Lesson → Bool) (P : Lesson → Type 0) (o : Option Lesson)
    → Holds P o
    → Holds (λ x. p x ≡ true) o
    → Holds (λ x. P x × (p x ≡ true)) o
both p P none h k = tt
both p P (some x) h k = (h, k)

-- The lesson that counts as the newest is no older than any of its store and action.
pub latest-IsTop : (rows : List Lesson) (l : Lesson) → IsTop l (latest rows l) rows
unfolding latest
latest-IsTop rows l = found-IsTop rows l (first (same_action l) rows) refl

-- It is a row of the store and the action, if there is any.
pub latest-IsRowOf :
    (rows : List Lesson) (l : Lesson) → (latest rows l ≡ l) ⊎ IsRowOf l rows (latest rows l)
unfolding latest
latest-IsRowOf rows l = found-IsRowOf rows l (first (same_action l) rows) (
    both (same_action l) (λ x. Mem x rows) (first (same_action l) rows)
      (first-Mem (same_action l) rows) (first-Holds (same_action l) rows))
