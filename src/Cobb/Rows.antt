-- ===== src/Cobb/Rows.antt =====
-- The rows of measurements-table.component.ts: fetched, updated by the stream of states, downloaded.
use testbench.Common.{
  ℕ, Bool, true, false, Option, none, some, List, [], ◌∷◌, String, ◌===◌, ◌+++◌, is_truthy, find,
  map, length, if◌then◌else◌, ltb, ◌&&◌,
}
use testbench.Cobb.Letters.{to_lower_case, to_upper_case}
use testbench.Cobb.State.{value_of, get_status_info}

-- `MeasurementOverviewData`: what the rows of the table use of it, with the fields that the page adds.
pub record Row : Type 0 where
  pub id : String
  pub name : String
  pub measurement_state : String
  pub last_updated : String
  pub trigger : Option String
  pub state : String
  pub status_class : String
  pub icon : String
  pub tooltip : String

-- `s.charAt(0)` and `s.slice(1)`
abbrev char_at_0 : String → String
char_at_0 String.[] = ""
char_at_0 (String.◌∷◌ c s) = String.◌∷◌ c String.[]

abbrev slice_1 : String → String
slice_1 String.[] = ""
slice_1 (String.◌∷◌ c s) = s

abbrev trigger_label : Option String → String
trigger_label none = "-"
trigger_label (some t) =
    if is_truthy t then to_upper_case (char_at_0 t) +++ to_lower_case (slice_1 t) else "-"

-- One row as `fetchMeasurements` maps it; `measurementState` stays as it was sent.
unfoldable pub fetched_row : Row → Row
fetched_row value =
    let state = value_of value.measurement_state in
    let info = get_status_info (some state) in
    record value {
      state = to_lower_case state;
      status_class = info.status;
      icon = info.icon;
      tooltip = info.tooltip;
      trigger = some (trigger_label value.trigger);
    }

-- `MeasurementStatusUpdate`
pub record Update : Type 0 where
  pub measurement_id : String
  pub measurement_state : String

-- The row that an update names.
unfoldable pub updated_row : String → Row → Row
updated_row measurement_state row =
    let new_state = value_of measurement_state in
    let info = get_status_info (some new_state) in
    record row {
      measurement_state = new_state;
      state = to_lower_case new_state;
      status_class = info.status;
      icon = info.icon;
      tooltip = info.tooltip;
    }

-- `updateMeasurementState`: the first row of the id is written, and without one nothing is.
unfoldable pub update_rows : Update → List Row → List Row
update_rows u [] = []
update_rows u (row ∷ rows) =
    let rest = update_rows u rows in
    if row.id === u.measurement_id then updated_row u.measurement_state row ∷ rows else row ∷ rest

-- The updates in the order in which they come.
unfoldable pub update_all : List Update → List Row → List Row
update_all [] rows = rows
update_all (u ∷ us) rows = update_all us (update_rows u rows)

-- `getLatestMeasurement`: `time` is that of `new Date`, where `none` is an invalid date, which no
-- comparison holds of.
unfoldable pub later : Option ℕ → Option ℕ → Bool
later none b = false
later (some a) none = false
later (some a) (some b) = ltb b a

module _ (time : String → Option ℕ) where
  unfoldable pub latest_of : Row → List Row → Row
  unfolding later
  latest_of latest [] = latest
  latest_of latest (current ∷ rows) =
      if later (time current.last_updated) (time latest.last_updated)
      then latest_of current rows
      else latest_of latest rows

  unfoldable pub get_latest_measurement : List Row → Option Row
  unfolding latest_of
  get_latest_measurement [] = none
  get_latest_measurement (row ∷ rows) = some (latest_of row (row ∷ rows))

-- What the page keeps and reports of a fetch, and that an error keeps the rows.
pub record Page : Type 0 where
  pub rows : List Row
  pub has_error : Bool
  pub last_measurement_formatted : Option String
  pub measurement_count : ℕ

last_updated_of : Option Row → Option String → Option String
last_updated_of none before = before
last_updated_of (some row) before = some row.last_updated

unfoldable pub fetch_measurements : (String → Option ℕ) → Page → Option (List Row) → Page
unfolding last_updated_of
fetch_measurements time page none = record page { has_error = true }
fetch_measurements time page (some rows) =
    let mapped = map fetched_row rows in
    record {
      rows = mapped;
      has_error = false;
      last_measurement_formatted =
          last_updated_of (get_latest_measurement time mapped) page.last_measurement_formatted;
      measurement_count = length mapped;
    }

-- What the user sees of a download: the message and whether it is one of an error.
pub data Notice : Type 0 where
  success : String → Notice
  error : String → Notice

-- What `downloadCsv` does: a notice alone, or a request whose answer is told by a notice.
pub data Download : Type 0 where
  refused : Notice → Download
  requested : (measurement_id : String) → Notice → Download

-- `served` says whether the request is answered.
unfoldable pub told : Bool → Notice
told true = success "results.zip downloaded successfully! It is now available for use."
told false = error "Something went wrong while downloading.. Please try again."

abbrev pub state_of : Option Row → Option String
state_of none = none
state_of (some row) = some row.measurement_state

abbrev pub is_completed : Option String → Bool
is_completed none = false
is_completed (some s) = is_truthy s && s === "COMPLETED"

unfoldable pub download_csv : Bool → List Row → String → Download
download_csv served rows measurement_id =
    if is_completed (state_of (find (λ (row : Row). row.id === measurement_id) rows))
    then requested measurement_id (told served)
    else refused (error "Measurement is not complete yet. Cannot download.")
