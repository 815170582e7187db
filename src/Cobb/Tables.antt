-- ===== src/Cobb/Tables.antt =====
-- What the dashboard and the tables show of a state: dashboard-application.component.ts of
-- features/dashboard/pages; application-context-table, all-measurements-table,
-- all-artefact-measurements-table and all-applications-table of features/applications/pages, with
-- shared/models/context.ts and the health of shared/enums/measurement-state.enum.ts.
use mathlib.Core.Path.{subst}
use testbench.Common.{
  ℕ, ◌≡◌, refl, Bool, true, false, Option, none, some, List, [], ◌∷◌, ◌++◌, String, map, length,
  ◌===◌, get_or_else, is_given, is_truthy, if◌then◌else◌, ◌+++◌, Bool-cases, inl, inr, All, sym,
  ◌∙◌,
}
use testbench.Cobb.State.{resolve_measurement_state, get_status_info, StatusInfo}
use testbench.Cobb.Letters.{to_lower_case}

-- `HealthStatus`: its keys with their values.
abbrev pub health_status : List (String × String)
health_status =
    ("HEALTHY", "healthy")
    ∷ ("CRITICAL", "critical")
    ∷ ("DISRUPTED", "disrupted")
    ∷ ("NOT_STARTED", "not started yet")
    ∷ []

pub record HealthStatusInfo : Type 0 where
  pub status : String
  pub label : String
  pub icon : Option String
  pub tooltip : Option String

abbrev health : String → String → Option String → Option String → HealthStatusInfo
health status label icon tooltip = record {
  status = status;
  label = label;
  icon = icon;
  tooltip = tooltip;
}

abbrev pub health_status_info_map : List (String × HealthStatusInfo)
health_status_info_map =
    (
      "healthy",
      health "status-healthy" "healthy" (some "mood") (some "Executable with no known issues"),
    )
    ∷ (
      "critical",
      health "status-critical" "critical" (some "release_alert")
          (some "Executable but has known issues that need attention"),
    )
    ∷ (
      "disrupted",
      health "status-disrupted" "disrupted" (some "assignment_late")
          (some "Not executable and requires immediate action"),
    )
    ∷ ("not started yet", health "status-not-started" "not started yet" none none)
    ∷ []

pub look_up : {A : Type 0} → List (String × A) → String → Option A
look_up [] s = none
look_up ((key, value) ∷ rest) s =
    let found = look_up rest s in if key === s then some value else found

abbrev unknown_health : HealthStatusInfo
unknown_health = health "status-unknown" "unknown status" none none

abbrev health_of : Option String → HealthStatusInfo
health_of none = unknown_health
health_of (some value) = get_or_else (look_up health_status_info_map value) unknown_health

-- `getStatusInfo` of application-context-table.component.ts; names of `Object.prototype` are not
-- modelled.
unfoldable pub get_health_info : String → HealthStatusInfo
unfolding look_up
get_health_info s = health_of (look_up health_status s)

-- `getDateOfLastMeasurement`, of the text of the last measurement's `lastUpdated`; `transform` is the
-- date pipe with its format.
unfoldable pub get_date_of_last_measurement : (String → Option String) → Option String → String
get_date_of_last_measurement transform none = "-"
get_date_of_last_measurement transform (some text) =
    if is_truthy text then get_or_else (transform text) "-" else "-"

-- `formatLocalDateTime` of the two tables of measurements and of the table of repositories.
unfoldable pub format_local_date_time : (String → Option String) → Option String → String
format_local_date_time transform none = "-"
format_local_date_time transform (some text) =
    if is_truthy text
    then (if is_given (transform text) then get_or_else (transform text) "-" else "-")
    else "-"

-- The rest `D` of a `MeasurementArtefactDto` is kept as it is.
pub record Dto (D : Type 0) : Type 0 where
  pub measurement_state : Option String
  pub details : D

pub record TableRow (D : Type 0) : Type 0 where
  pub dto : Dto D
  pub state : Option String
  pub status_class : String
  pub icon : String
  pub tooltip : String
  pub is_running : Bool

-- A table: `dataSource.data`, and the counts that `measurementsCountChange` has told.
pub record Table (R : Type 0) : Type 0 where
  pub rows : List R
  pub told : List ℕ

abbrev lowered : Option String → Option String
lowered none = none
lowered (some s) = some (to_lower_case s)

module _ {D : Type 0} where
  -- The function that both tables map over the answer.
  unfoldable pub table_row : Dto D → TableRow D
  table_row dto =
      let status : Option String = resolve_measurement_state dto.measurement_state in
      let info : StatusInfo = get_status_info status in
      record {
        dto = dto;
        state = lowered status;
        status_class = info.status;
        icon = info.icon;
        tooltip = info.tooltip;
        is_running = false;
      }

  -- `loadMeasurementsPerContext`
  unfoldable pub load_measurements_per_context :
      List (Dto D) → Table (TableRow D) → Table (TableRow D)
  unfolding table_row
  load_measurements_per_context dtos t = record {
    rows = map table_row dtos;
    told = t.told ++ (length (map table_row dtos) ∷ []);
  }

  -- `loadMeasurementsPerArtefact`
  unfoldable pub load_measurements_per_artefact :
      List (Dto D) → Table (TableRow D) → Table (TableRow D)
  unfolding table_row
  load_measurements_per_artefact dtos t = record {
    rows = map table_row dtos;
    told = t.told ++ (length (map table_row dtos) ∷ []);
  }

  -- `loadApplicationContexts`
  unfoldable pub load_application_contexts : List D → Table D → Table D
  load_application_contexts rows t = record { rows = rows; told = t.told ++ (length rows ∷ []) }

-- The fields of the dashboard.
pub record Metric : Type 0 where
  pub title : String
  pub subtitle : String
  pub value : ℕ

pub record TotalValues : Type 0 where
  pub total_measurements : ℕ
  pub total_applications : ℕ
  pub total_critical_measurements : ℕ

pub record Dashboard : Type 0 where
  pub last_measurement_state : Option String
  pub status_color : Option String
  pub status_icon : Option String
  pub metrics : Option (List Metric)

abbrev with_state : Option String → Dashboard → Dashboard
with_state resolved d =
    let info : StatusInfo = get_status_info resolved in
    if is_given resolved
    then record d {
      last_measurement_state = resolved;
      status_color = some info.status;
      status_icon = some info.icon;
    }
    else record d { last_measurement_state = resolved; status_icon = some "help" }

-- The answer to `getLatestMeasurement`, of the measurement's state.
unfoldable pub latest_loaded : Option String → Dashboard → Dashboard
latest_loaded state d = with_state (resolve_measurement_state state) d

-- The answer to `retrieveAllDashboardValues`.
unfoldable pub dashboard_values_loaded : TotalValues → Dashboard → Dashboard
dashboard_values_loaded response d = record d {
  metrics = some (
      record { title = "Measurements"; subtitle = "in total"; value = response.total_measurements }
      ∷ record {
        title = "Applications";
        subtitle = "in total";
        value = response.total_applications;
      }
      ∷ record {
        title = "Critical Measurements";
        subtitle = "in total";
        value = response.total_critical_measurements;
      }
      ∷ []);
}

-- The list of the applications.
pub record ApplicationRow : Type 0 where
  pub application_id : Option String
  pub last_updated : Option String
  pub column : String → Option String

pub record Applications : Type 0 where
  pub rows : List ApplicationRow
  pub has_error : Bool

-- `sortingDataAccessor`; `column` reads a property as a text.
unfoldable pub sorting_data : ApplicationRow → String → String
sorting_data item property =
    if property === "lastMeasurement"
    then get_or_else item.last_updated "-"
    else get_or_else (item.column property) "-"

-- `showDetails`: where it goes to.
unfoldable pub show_details : ApplicationRow → Option String
show_details row =
    if is_given row.application_id
    then some ("/applications/" +++ get_or_else row.application_id "")
    else none

-- The answers to `loadApplicationsList`; a failure keeps the rows.
unfoldable pub applications_loaded : List ApplicationRow → Applications → Applications
applications_loaded rows a = record { rows = rows; has_error = false }

unfoldable pub applications_failed : Applications → Applications
applications_failed a = record a { has_error = true }

with_state-icon :
    (r : Option String) (d : Dashboard)
    → (with_state r d).status_icon ≡ some (get_status_info r).icon
unfolding get_status_info
with_state-icon none d = refl
with_state-icon (some String.[]) d = refl
with_state-icon (some (String.◌∷◌ c s)) d = refl

-- Whatever its state is, a measurement has the icon of its row in a table on the dashboard too.
pub latest-same_icon :
    {D : Type 0} (dto : Dto D) (d : Dashboard)
    → (latest_loaded dto.measurement_state d).status_icon ≡ some (table_row dto).icon
unfolding latest_loaded table_row
latest-same_icon dto d = with_state-icon (resolve_measurement_state dto.measurement_state) d

look_up-each :
    {A : Type 0} (P : A → Type 0) (table : List (String × A)) (s : String) (v : A)
    → All (λ (e : String × A). P e.1) table
    → look_up table s ≡ some v
    → P v
unfolding look_up
look_up-each P [] s v h found = cc
look_up-each P ((key, value) ∷ rest) s v (p, h) found = elim (Bool-cases (key === s)) [
  | inl hit ↦
      let e : some value ≡ some v = sym (rw hit refl) ∙ found in
      let same : value ≡ v = cc in subst P same p
  | inr miss ↦ look_up-each P rest s v h (sym (rw miss refl) ∙ found)
]

-- A health that the enum has is shown by its value, and any other as unknown.
get_health_info-label :
    (s : String)
    → ((v : String) → look_up health_status s ≡ some v → (get_health_info s).label ≡ v)
      × (look_up health_status s ≡ none → (get_health_info s).label ≡ "unknown status")
unfolding get_health_info look_up
get_health_info-label s = (
  λ v found. rw found (
      look_up-each (λ (v : String). (health_of (some v)).label ≡ v) health_status s v
        (refl, (refl, (refl, (refl, tt)))) found),
  λ missing. rw missing refl,
)
