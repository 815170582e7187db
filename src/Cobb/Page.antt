-- ===== src/Cobb/Page.antt =====
-- measurement-results.component.ts: the page of one measurement, and the download of its file.
use mathlib.Core.Path.{subst}
use testbench.Common.{
  ◌≡◌, refl, Bool, true, false, Option, none, some, List, [], ◌∷◌, String, ◌===◌, is_truthy,
  if◌then◌else◌, Bool-cases, inl, inr, eq_iff,
}
use mathlib.Core.Path.{subst}
use testbench.Cobb.Letters.{to_lower_case, to_upper_case}
use mathlib.Core.Path.{subst}
use testbench.Cobb.State.{value_of, resolve_state, get_status_info, is_state}
use mathlib.Core.Path.{subst}
use testbench.Cobb.Rows.{Row, error, Download, refused, requested, told}

-- The fields of the page that the data of a measurement set.
pub record ResultsPage : Type 0 where
  pub measurement_id : Option String
  pub name : String
  pub measurement_state : String
  pub last_updated : String
  pub status_class : String
  pub icon : String
  pub tooltip : String
  pub state_display : String
  pub detailed_measurement_state : Option String

abbrev pub new_page : Option String → ResultsPage
new_page measurement_id = record {
  measurement_id = measurement_id;
  name = "";
  measurement_state = "";
  last_updated = "";
  status_class = "";
  icon = "";
  tooltip = "";
  state_display = "";
  detailed_measurement_state = none;
}

-- `setSelectedMeasurementData`; `transform` is that of Angular's DatePipe, with "" for null.
unfoldable pub set_selected : (String → String) → Row → ResultsPage → ResultsPage
set_selected transform row page =
    let state = value_of row.measurement_state in
    record page {
      name = row.name;
      measurement_state = state;
      last_updated = transform row.last_updated;
      status_class = row.state;
      icon = row.icon;
      tooltip = row.tooltip;
      state_display = to_lower_case state;
      detailed_measurement_state = some row.measurement_state;
    }

is_selected : Option String → String → Bool
is_selected none id = false
is_selected (some selected) id = id === selected

-- The fields that the page adds to the row.
unfoldable pub enriched : Row → Row
enriched row =
    let info = get_status_info (some (resolve_state row.measurement_state)) in
    record row { state = info.status; icon = info.icon; tooltip = info.tooltip }

-- `enrichMeasurementData`
unfoldable pub enrich : (String → String) → Row → ResultsPage → ResultsPage
unfolding is_selected
enrich transform row page =
    if is_selected page.measurement_id row.id
    then set_selected transform (enriched row) page
    else page

-- `loadMeasurementData`: all the measurements of the application, in their order.
unfoldable pub load : (String → String) → List Row → ResultsPage → ResultsPage
load transform [] page = page
load transform (row ∷ rest) page = load transform rest (enrich transform row page)

-- The heading, the icon, and whether the description is that of a failure, an abort or a run.
pub data Heading : Type 0 where
  failed : Heading
  aborted : Heading
  running : Heading

unfoldable pub get_status_heading : ResultsPage → Heading
get_status_heading page =
    let state = to_upper_case page.state_display in
    if state === "FAILED" then failed else if state === "ABORTED" then aborted else running

unfoldable pub get_status_icon : ResultsPage → String
get_status_icon page =
    let state = to_upper_case page.state_display in
    if state === "FAILED"
    then "release_alert"
    else if state === "ABORTED"
    then "release_alert"
    else "hourglass_empty"

-- `downloadCsvFile` for the id of the route; `served` says whether the request is answered.
unfoldable pub download_csv_file : Bool → Option String → ResultsPage → Download
download_csv_file served none page = refused (error "Measurement ID is missing.")
download_csv_file served (some id) page =
    if is_truthy id
    then (if page.measurement_state === "completed"
        then requested id (told served)
        else refused (error "Measurement is not completed yet."))
    else refused (error "Measurement ID is missing.")

-- Whether nothing but a refusal comes of a download.
pub IsRefused : Download → Type 0
IsRefused (refused n) = Unit
IsRefused (requested id n) = ⊥

not_completed : (s : String) → is_state s ≡ true → (s === "completed") ≡ false
not_completed s e = elim (Bool-cases (s === "completed")) [
  | inl hit ↦
      let same : s ≡ "completed" = (eq_iff s "completed").0 hit in
      let none_such : is_state "completed" ≡ false = unfold is_state in refl in
      let wrong : is_state "completed" ≡ true = subst (λ t. is_state t ≡ true) same e in cc
  | inr miss ↦ miss
]

-- A page that shows a state of the enum never requests the file, not even that of a completed
-- measurement.
pub download-IsRefused :
    (transform : String → String) (served : Bool) (id : Option String) (row : Row)
    (page : ResultsPage)
    → is_state (value_of row.measurement_state) ≡ true
    → IsRefused (download_csv_file served id (set_selected transform row page))
unfolding download_csv_file set_selected IsRefused
download-IsRefused transform served none row page e = tt
download-IsRefused transform served (some id) row page e = elim (Bool-cases (is_truthy id)) [
  | inl hit ↦ rw (hit, not_completed (value_of row.measurement_state) e) tt
  | inr miss ↦ rw miss tt
]
