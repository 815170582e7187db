-- ===== src/Cobb/Views.antt =====
-- The table of measurements-table.component.ts as a map from the id of a measurement to what is shown
-- of it, which forgets the rows, their order and all but the first row of an id.
use testbench.Common.{
  ◌≡◌, refl, true, false, Option, some, List, [], ◌∷◌, String, ◌===◌, find, if◌then◌else◌, ap, sym,
  ◌∙◌, Bool-cases, inl, inr, eq_iff, arith,
}
use mathlib.Core.Option
use mathlib.Core.Path.{fun_ext}
use testbench.Cobb.Letters.{to_lower_case}
use testbench.Cobb.State.{value_of, get_status_info}
use testbench.Cobb.Rows.{Row, Update, updated_row, update_rows, update_all}

-- What is kept of a row of the table: the measurement's own fields, and what is shown of its state.
pub record Shown : Type 0 where
  pub name : String
  pub last_updated : String
  pub trigger : Option String
  pub sent : String
  pub label : String
  pub status_class : String
  pub icon : String
  pub tooltip : String

abbrev pub View : Type 0
View = String → Option Shown

abbrev shown_of : Row → Shown
shown_of row = record {
  name = row.name;
  last_updated = row.last_updated;
  trigger = row.trigger;
  sent = row.measurement_state;
  label = row.state;
  status_class = row.status_class;
  icon = row.icon;
  tooltip = row.tooltip;
}

-- A state that was sent, with what it is shown as, in the place of the one before; the other fields stay.
abbrev pub shown_state : String → Shown → Shown
shown_state s before =
    let state = value_of s in
    let info = get_status_info (some state) in
    record before {
      sent = state;
      label = to_lower_case state;
      status_class = info.status;
      icon = info.icon;
      tooltip = info.tooltip;
    }

abbrev pub view : List Row → View
view rows id = Option.map shown_of (find (λ (row : Row). row.id === id) rows)

-- A write to the map: an id that is not there stays so.
abbrev pub write : Update → View → View
write u v id =
    if id === u.measurement_id then Option.map (shown_state u.measurement_state) (v id) else v id

abbrev pub write_all : List Update → View → View
write_all [] v = v
write_all (u ∷ us) v = write_all us (write u v)

same : {x y : String} → (x === y) ≡ true → x ≡ y
same {x} {y} e = (eq_iff x y).0 e

other : {x y : String} → (x ≡ y → ⊥) → (x === y) ≡ false
other {x} {y} apart = elim (Bool-cases (x === y)) [
  | inl hit ↦ absurd (apart (same hit))
  | inr miss ↦ miss
]

apart : {x y : String} → (x === y) ≡ false → x ≡ y → ⊥
apart {x} {y} e path = let hit : (x === y) ≡ true = (eq_iff x y).1 path in cc

view-update_at :
    (u : Update) (rows : List Row) (id : String)
    → view (update_rows u rows) id ≡ write u (view rows) id
unfolding update_rows updated_row
view-update_at u [] id = ground arith
view-update_at u (row ∷ rows) id = elim (Bool-cases (row.id === u.measurement_id)) [
  | inl named ↦ elim (Bool-cases (row.id === id)) [
    | inl asked ↦
        let both : (id === u.measurement_id) ≡ true =
          (eq_iff id u.measurement_id).1 (sym (same asked) ∙ same named) in
        rw (named, asked, both) refl
    | inr unasked ↦
        let neither : (id === u.measurement_id) ≡ false =
          other (λ e. apart unasked (same named ∙ sym e)) in
        rw (named, unasked, neither) refl
  ]
  | inr unnamed ↦ elim (Bool-cases (row.id === id)) [
    | inl asked ↦
        let neither : (id === u.measurement_id) ≡ false =
          other (λ e. apart unnamed (same asked ∙ e)) in
        rw (unnamed, asked, neither) refl
    | inr unasked ↦ rw (unnamed, unasked) (view-update_at u rows id)
  ]
]

-- Any updates of the rows, one after the other, change all fields of the row that each id finds as
-- the same writes change a map from the ids: an update writes its state and what that is shown as,
-- where the id is in the table; the name, the date and the trigger of the row and all that the other
-- ids find stay.
pub view-update_all :
    (us : List Update) (rows : List Row) → view (update_all us rows) ≡ write_all us (view rows)
unfolding update_all
view-update_all [] rows = refl
view-update_all (u ∷ us) rows =
    view-update_all us (update_rows u rows) ∙ ap (write_all us) (fun_ext (view-update_at u rows))
