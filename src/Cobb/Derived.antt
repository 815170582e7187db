-- ===== src/Cobb/Derived.antt =====
-- What holds of the rows of measurements-table.component.ts after any fetch and any updates.
use mathlib.Core.Path.{subst}
use testbench.Common.{
  ℕ, suc, ◌≡◌, refl, Bool, true, false, Option, none, some, List, [], ◌∷◌, String, ◌===◌, find, map,
  All, if◌then◌else◌, arith, ap, sym, Bool-cases, inl, inr, eq_iff, ◌⊎◌, any, get_elem?,
}
use testbench.Cobb.Letters.{to_lower_case}
use testbench.Cobb.State.{value_of, value_of-value_of, get_status_info}
use testbench.Cobb.Rows.{
  Row, fetched_row, Update, updated_row, update_rows, update_all, later, latest_of,
  get_latest_measurement, Page, fetch_measurements, refused, requested, told, error, download_csv,
  state_of, is_completed,
}

-- The fields that the page adds show the state that is sent.
abbrev pub IsDerived : Row → Type 0
IsDerived row =
    let state = value_of row.measurement_state in
    (row.state ≡ to_lower_case state)
    × (row.status_class ≡ (get_status_info (some state)).status)
    × (row.icon ≡ (get_status_info (some state)).icon)
    × (row.tooltip ≡ (get_status_info (some state)).tooltip)

fetched_row-IsDerived : (row : Row) → IsDerived (fetched_row row)
unfolding fetched_row
fetched_row-IsDerived row = (refl, refl, refl, refl)

updated_row-IsDerived : (s : String) (row : Row) → IsDerived (updated_row s row)
unfolding updated_row
updated_row-IsDerived s row =
    let e = sym (value_of-value_of s) in
    (
      ap to_lower_case e,
      ap (λ t. (get_status_info (some t)).status) e,
      ap (λ t. (get_status_info (some t)).icon) e,
      ap (λ t. (get_status_info (some t)).tooltip) e,
    )

map-IsDerived : (rows : List Row) → All IsDerived (map fetched_row rows)
map-IsDerived [] = tt
map-IsDerived (row ∷ rows) = (fetched_row-IsDerived row, map-IsDerived rows)

update_rows-IsDerived :
    (u : Update) (rows : List Row) → All IsDerived rows → All IsDerived (update_rows u rows)
unfolding update_rows
update_rows-IsDerived u [] h = tt
update_rows-IsDerived u (row ∷ rows) (h, hs) = elim (Bool-cases (row.id === u.measurement_id)) [
  | inl hit ↦ rw hit (updated_row-IsDerived u.measurement_state row, hs)
  | inr miss ↦ rw miss (h, update_rows-IsDerived u rows hs)
]

update_all-IsDerived :
    (us : List Update) (rows : List Row) → All IsDerived rows → All IsDerived (update_all us rows)
unfolding update_all
update_all-IsDerived [] rows h = h
update_all-IsDerived (u ∷ us) rows h =
    update_all-IsDerived us (update_rows u rows) (update_rows-IsDerived u rows h)

-- After a fetch and any updates, what each row shows is what its state says.
pub rows-IsDerived :
    (time : String → Option ℕ) (page : Page) (rows : List Row) (us : List Update)
    → All IsDerived (update_all us (fetch_measurements time page (some rows)).rows)
unfolding fetch_measurements
rows-IsDerived time page rows us =
    update_all-IsDerived us (map fetched_row rows) (map-IsDerived rows)

state_after :
    (u : Update) (rows : List Row)
    → any (λ (row : Row). row.id === u.measurement_id) rows ≡ true
    → state_of (find (λ (row : Row). row.id === u.measurement_id) (update_rows u rows))
      ≡ some (value_of u.measurement_state)
unfolding update_rows updated_row
state_after u [] e = cc
state_after u (row ∷ rows) e = elim (Bool-cases (row.id === u.measurement_id)) [
  | inl hit ↦ rw (hit, hit) refl
  | inr miss ↦
      let later_row : any (λ (r : Row). r.id === u.measurement_id) rows ≡ true = rw miss at e in
      rw (miss, miss) (state_after u rows later_row)
]

is_completed_lem : (s : String) → is_completed (some s) ≡ (s === "COMPLETED")
is_completed_lem s = elim (Bool-cases (s === "COMPLETED")) [
  | inl hit ↦
      let same : "COMPLETED" ≡ s = sym ((eq_iff s "COMPLETED").0 hit) in
      subst (λ t. is_completed (some t) ≡ (t === "COMPLETED")) same refl
  | inr miss ↦ ground (arith, miss)
]

-- After an update of a measurement that is listed, its file is requested where the update completes
-- it, and refused where it does not.
download-after_update :
    (served : Bool) (u : Update) (rows : List Row)
    → any (λ (row : Row). row.id === u.measurement_id) rows ≡ true
    → download_csv served (update_rows u rows) u.measurement_id ≡ (
        if value_of u.measurement_state === "COMPLETED"
        then requested u.measurement_id (told served)
        else refused (error "Measurement is not complete yet. Cannot download."))
unfolding download_csv
download-after_update served u rows e =
    rw (state_after u rows e, is_completed_lem (value_of u.measurement_state)) refl

module _ (time : String → Option ℕ) where
  -- Its date is not before that of the row.
  abbrev NotAfter : Row → Row → Type 0
  NotAfter r x = later (time x.last_updated) (time r.last_updated) ≡ false

  later_step : (x l c : Option ℕ) → later x l ≡ false → later c l ≡ true → later x c ≡ false
  unfolding later
  later_step none l c e f = refl
  later_step (some a) none none e f = cc
  later_step (some a) (some b) none e f = cc
  later_step (some a) none (some d) e f = cc
  later_step (some a) (some b) (some d) e f = ground arith

  later_self : (x : Option ℕ) → later x x ≡ false
  unfolding later
  later_self none = refl
  later_self (some a) = ground arith

  -- What the walk from `l` over the rows ends at.
  IsNewest : Row → List Row → Row → Type 0
  IsNewest l rows r =
      ((r ≡ l) ⊎ ((i : ℕ) × (get_elem? rows i ≡ some r)))
      × ((x : Row) → NotAfter l x → NotAfter r x)
      × All (NotAfter r) rows

  found :
      (l : Row) (rows : List Row) (r : Row)
      → (r ≡ l) ⊎ ((i : ℕ) × (get_elem? rows i ≡ some r))
      → (i : ℕ) × (get_elem? (l ∷ rows) i ≡ some r)
  found l rows r (inl e) = (0, ap some (sym e))
  found l rows r (inr (i, at)) = (suc i, at)

  first_or :
      (l : Row) (rows : List Row) (r : Row)
      → (r ≡ l) ⊎ ((i : ℕ) × (get_elem? (l ∷ rows) i ≡ some r))
      → (i : ℕ) × (get_elem? (l ∷ rows) i ≡ some r)
  first_or l rows r (inl e) = (0, ap some (sym e))
  first_or l rows r (inr p) = p

  further :
      (l c : Row) (rows : List Row) (r : Row)
      → (r ≡ l) ⊎ ((i : ℕ) × (get_elem? rows i ≡ some r))
      → (r ≡ l) ⊎ ((i : ℕ) × (get_elem? (c ∷ rows) i ≡ some r))
  further l c rows r (inl e) = inl e
  further l c rows r (inr (i, at)) = inr (suc i, at)

  latest_of-IsNewest : (l : Row) (rows : List Row) → IsNewest l rows (latest_of time l rows)
  unfolding latest_of IsNewest
  latest_of-IsNewest l [] = (inl refl, (λ x h. h), tt)
  latest_of-IsNewest l (c ∷ rows) =
      elim (Bool-cases (later (time c.last_updated) (time l.last_updated))) [
        | inl hit ↦
            let (mem, mono, alls) = latest_of-IsNewest c rows in
            let same : latest_of time l (c ∷ rows) ≡ latest_of time c rows = rw hit refl in
            subst (IsNewest l (c ∷ rows)) (sym same) (
              inr (found c rows (latest_of time c rows) mem),
              λ x h. mono x (
                  later_step (time x.last_updated) (time l.last_updated) (time c.last_updated) h
                    hit),
              (mono c (later_self (time c.last_updated)), alls),
            )
        | inr miss ↦
            let (mem, mono, alls) = latest_of-IsNewest l rows in
            let same : latest_of time l (c ∷ rows) ≡ latest_of time l rows = rw miss refl in
            subst (IsNewest l (c ∷ rows)) (sym same)
              (further l c rows (latest_of time l rows) mem, mono, (mono c miss, alls))
      ]

  -- The latest measurement is one of the rows, and no row has a later date.
  get_latest-newest :
      (row : Row) (rows : List Row)
      → (r : Row) × (get_latest_measurement time (row ∷ rows) ≡ some r)
        × ((i : ℕ) × (get_elem? (row ∷ rows) i ≡ some r))
        × All (λ (x : Row). later (time x.last_updated) (time r.last_updated) ≡ false) (row ∷ rows)
  unfolding get_latest_measurement IsNewest
  get_latest-newest row rows =
      let (mem, mono, alls) = latest_of-IsNewest row (row ∷ rows) in
      (latest_of time row (row ∷ rows), refl, first_or row rows _ mem, alls)
