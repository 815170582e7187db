-- ===== src/Cobb/Latest.antt =====
-- Which measurements the page of Cobb/Recent shows: the latest of the completed ones.
use testbench.Common.{
  ℕ, zero, suc, ◌≤◌, ◌≡◌, refl, true, List, [], ◌∷◌, ltb, filter, take, length, All, arith,
  Bool-cases, ◌⊎◌, inl, inr, ap, eq_iff,
}
use testbench.Cobb.Recent.{Measurement, is_completed, insert, sort, completed_measurements}

-- Each one is at least as late as all that follow.
pub IsDescending : List Measurement → Type 0
IsDescending [] = Unit
IsDescending (m ∷ ms) = All (λ (x : Measurement). x.time ≤ m.time) ms × IsDescending ms

-- `m` stands in the list.
pub data Stands (m : Measurement) : List Measurement → Type 0 where
  first : {ms : List Measurement} → Stands m (m ∷ ms)
  after : {x : Measurement} {ms : List Measurement} → Stands m ms → Stands m (x ∷ ms)

module _ (P : Measurement → Type 0) where
  insert-All : (m : Measurement) (xs : List Measurement) → P m → All P xs → All P (insert m xs)
  unfolding insert
  insert-All m [] p h = (p, tt)
  insert-All m (x ∷ xs) p (q, h) = elim (Bool-cases (ltb m.time x.time)) [
    | inl later ↦ rw later (q, insert-All m xs p h)
    | inr newest ↦ rw newest (p, (q, h))
  ]

  sort-All : (ms : List Measurement) → All P ms → All P (sort ms)
  unfolding sort
  sort-All [] h = tt
  sort-All (m ∷ ms) (p, h) = insert-All m (sort ms) p (sort-All ms h)

  take-All : (n : ℕ) (ms : List Measurement) → All P ms → All P (take n ms)
  take-All zero ms h = tt
  take-All (suc n) [] h = tt
  take-All (suc n) (m ∷ ms) (p, h) = (p, take-All n ms h)

All-weaken :
    (a b : ℕ) (ms : List Measurement)
    → a ≤ b
    → All (λ (x : Measurement). x.time ≤ a) ms
    → All (λ (x : Measurement). x.time ≤ b) ms
All-weaken a b [] le h = tt
All-weaken a b (m ∷ ms) le (p, h) = (omega arith, All-weaken a b ms le h)

insert-IsDescending :
    (m : Measurement) (xs : List Measurement) → IsDescending xs → IsDescending (insert m xs)
unfolding insert IsDescending
insert-IsDescending m [] h = (tt, tt)
insert-IsDescending m (x ∷ xs) (le, h) = elim (Bool-cases (ltb m.time x.time)) [
  | inl later ↦ rw later (
    insert-All (λ (y : Measurement). y.time ≤ x.time) m xs (ground arith) le,
    insert-IsDescending m xs h,
  )
  | inr newest ↦
      let below : x.time ≤ m.time = ground arith in
      rw newest ((below, All-weaken x.time m.time xs below le), (le, h))
]

sort-IsDescending : (ms : List Measurement) → IsDescending (sort ms)
unfolding sort IsDescending
sort-IsDescending [] = tt
sort-IsDescending (m ∷ ms) = insert-IsDescending m (sort ms) (sort-IsDescending ms)

take-IsDescending : (n : ℕ) (ms : List Measurement) → IsDescending ms → IsDescending (take n ms)
unfolding IsDescending
take-IsDescending zero ms h = tt
take-IsDescending (suc n) [] h = tt
take-IsDescending (suc n) (m ∷ ms) (le, h) = (take-All _ n ms le, take-IsDescending n ms h)

insert-Stands : (m : Measurement) (xs : List Measurement) → Stands m (insert m xs)
unfolding insert
insert-Stands m [] = first
insert-Stands m (x ∷ xs) = elim (Bool-cases (ltb m.time x.time)) [
  | inl later ↦ rw later (after (insert-Stands m xs))
  | inr newest ↦ rw newest first
]

insert-Stands_other :
    (k m : Measurement) (xs : List Measurement) → Stands k xs → Stands k (insert m xs)
unfolding insert
insert-Stands_other k m [] s = after s
insert-Stands_other k m (x ∷ xs) first = elim (Bool-cases (ltb m.time x.time)) [
  | inl later ↦ rw later first
  | inr newest ↦ rw newest (after first)
]
insert-Stands_other k m (x ∷ xs) (after s) = elim (Bool-cases (ltb m.time x.time)) [
  | inl later ↦ rw later (after (insert-Stands_other k m xs s))
  | inr newest ↦ rw newest (after (after s))
]

sort-Stands : (k : Measurement) (ms : List Measurement) → Stands k ms → Stands k (sort ms)
unfolding sort
sort-Stands k [] s = elim s [ ]
sort-Stands k (m ∷ ms) first = insert-Stands m (sort ms)
sort-Stands k (m ∷ ms) (after s) = insert-Stands_other k m (sort ms) (sort-Stands k ms s)

filter-Stands :
    (k : Measurement) (ms : List Measurement)
    → is_completed k ≡ true
    → Stands k ms
    → Stands k (filter is_completed ms)
filter-Stands k [] done s = elim s [ ]
filter-Stands k (m ∷ ms) done first = rw done first
filter-Stands k (m ∷ ms) done (after s) = elim (Bool-cases (is_completed m)) [
  | inl kept ↦ rw kept (after (filter-Stands k ms done s))
  | inr left ↦ rw left (filter-Stands k ms done s)
]

filter-completed :
    (ms : List Measurement)
    → All (λ (m : Measurement). m.measurement_state ≡ "COMPLETED") (filter is_completed ms)
filter-completed [] = tt
filter-completed (m ∷ ms) = elim (Bool-cases (is_completed m)) [
  | inl kept ↦ rw kept ((eq_iff m.measurement_state "COMPLETED").0 kept, filter-completed ms)
  | inr left ↦ rw left (filter-completed ms)
]

All-Stands :
    (P : Measurement → Type 0) (k : Measurement) (ms : List Measurement)
    → All P ms
    → Stands k ms
    → P k
All-Stands P k [] h s = elim s [ ]
All-Stands P k (m ∷ ms) (p, h) first = p
All-Stands P k (m ∷ ms) (p, h) (after s) = All-Stands P k ms h s

-- Of a list from the latest on, what a cut leaves out is not later than what it keeps.
take-latest :
    (k : Measurement) (n : ℕ) (ms : List Measurement)
    → IsDescending ms
    → Stands k ms
    → Stands k (take n ms)
      ⊎ ((length (take n ms) ≡ n) × All (λ (x : Measurement). k.time ≤ x.time) (take n ms))
unfolding IsDescending
take-latest k zero ms h s = inr (refl, tt)
take-latest k (suc n) [] h s = elim s [ ]
take-latest k (suc n) (m ∷ ms) h first = inl first
take-latest k (suc n) (m ∷ ms) (le, h) (after s) = elim (take-latest k n ms h s) [
  | inl kept ↦ inl (after kept)
  | inr (full, later) ↦
      inr (ap suc full, (All-Stands (λ (x : Measurement). x.time ≤ m.time) k ms le s, later))
]

length-take_le : (n : ℕ) (ms : List Measurement) → length (take n ms) ≤ n
length-take_le zero ms = omega arith
length-take_le (suc n) [] = omega arith
length-take_le (suc n) (m ∷ ms) = omega (arith, length-take_le n ms)

-- The page shows at most ten measurements, all completed and the latest first; a completed one that
-- is not shown is not later than any of the ten that are.
pub completed-latest :
    (ms : List Measurement)
    → let shown = completed_measurements ms in
      (length shown ≤ 10)
      × All (λ (m : Measurement). m.measurement_state ≡ "COMPLETED") shown
      × IsDescending shown
      × ((k : Measurement)
          → is_completed k ≡ true
          → Stands k ms
          → Stands k shown
            ⊎ ((length shown ≡ 10) × All (λ (x : Measurement). k.time ≤ x.time) shown))
unfolding completed_measurements
completed-latest ms =
    let done : List Measurement = filter is_completed ms in
    (
      length-take_le 10 (sort done),
      take-All _ 10 (sort done) (sort-All _ done (filter-completed ms)),
      take-IsDescending 10 (sort done) (sort-IsDescending done),
      λ k completed stands.
          take-latest k 10 (sort done) (sort-IsDescending done)
            (sort-Stands k done (filter-Stands k ms completed stands)),
    )
