-- ===== src/Cobb/Artefacts.antt =====
-- all-artifacts-table.component.ts: the rows of the artefacts, and their measurements being started
-- and stopped.
use testbench.Common.{
  ◌≡◌, refl, Bool, true, false, not, Option, none, some, List, String, map, length, get_or_else, ℕ,
}
use testbench.Cobb.Letters.{to_lower_case}
use testbench.Cobb.State.{resolve_measurement_state, get_status_info}
use testbench.Cobb.Rows.{Notice, success, error}

-- The last measurement of an artefact.
pub record LastMeasurement : Type 0 where
  pub id : Option String
  pub measurement_state : Option String

-- `ArtefactRow`
pub record ArtefactRow : Type 0 where
  pub id : String
  pub custom_file_name : Option String
  pub original_file_name : String
  pub last_measurement : Option LastMeasurement
  pub state : Option String
  pub status_class : String
  pub icon : String
  pub tooltip : String
  pub is_running : Bool

state_sent : Option LastMeasurement → Option String
state_sent none = none
state_sent (some m) = m.measurement_state

lowered : Option String → Option String
lowered none = none
lowered (some s) = some (to_lower_case s)

-- A row as `fetchArtefacts` maps it.
unfoldable pub artefact_row : ArtefactRow → ArtefactRow
unfolding state_sent lowered
artefact_row artefact =
    let measurement_status = resolve_measurement_state (state_sent artefact.last_measurement) in
    let info = get_status_info measurement_status in
    record artefact {
      state = lowered measurement_status;
      status_class = info.status;
      icon = info.icon;
      tooltip = info.tooltip;
      is_running = false;
    }

-- The rows, and the count that is told.
unfoldable pub fetch_artefacts : List ArtefactRow → List ArtefactRow × ℕ
fetch_artefacts artefacts = let rows = map artefact_row artefacts in (rows, length rows)

-- What a toggle asks the service for.
pub data Request : Type 0 where
  start : (application_variant_id name : String) → Request
  stop : (measurement_id : String) → Request
  no_request : Notice → Request

measurement_id_of : Option LastMeasurement → Option String
measurement_id_of none = none
measurement_id_of (some m) = m.id

-- The part of `toggleMeasurement` for a measurement that runs.
stop_request : Option String → Request
stop_request none = no_request (error "No measurement to stop.")
stop_request (some String.[]) = no_request (error "No measurement to stop.")
stop_request (some (String.◌∷◌ c s)) = stop (String.◌∷◌ c s)

request_of : Bool → ArtefactRow → Request
unfolding stop_request measurement_id_of
request_of true row = start row.id (get_or_else row.custom_file_name row.original_file_name)
request_of false row = stop_request (measurement_id_of row.last_measurement)

-- `toggleMeasurement`: `isRunning` is turned at once.
unfoldable pub toggle_measurement : ArtefactRow → Request × ArtefactRow
unfolding request_of
toggle_measurement row =
    let is_running = not row.is_running in
    (request_of is_running row, record row { is_running = is_running })

-- The answer of the service: a failure turns `isRunning` back.
unfoldable pub answered : Request → Bool → ArtefactRow → Notice × ArtefactRow
answered (start id name) true row = (success "Measurement started successfully.", row)
answered (start id name) false row =
    (error "Error starting measurement.", record row { is_running = false })
answered (stop id) true row = (success "Measurement stopped successfully.", row)
answered (stop id) false row =
    (error "Error stopping measurement.", record row { is_running = true })
answered (no_request notice) served row = (notice, row)

-- Whether the service was asked, and did it.
unfoldable pub done : Request → Bool → Bool
done (start id name) served = served
done (stop id) served = served
done (no_request notice) served = true

abbrev pub turned : Bool → Bool → Bool
turned true before = not before
turned false before = before

-- What a request wants `isRunning` to be; without one it wants nothing to run.
Wants : Request → Bool → Type 0
Wants (start id name) b = b ≡ true
Wants (stop id) b = b ≡ false
Wants (no_request n) b = b ≡ false

stop_request-Wants : (o : Option String) → Wants (stop_request o) false
unfolding Wants stop_request
stop_request-Wants none = refl
stop_request-Wants (some String.[]) = refl
stop_request-Wants (some (String.◌∷◌ c s)) = refl

request_of-Wants : (b : Bool) (row : ArtefactRow) → Wants (request_of b row) b
unfolding Wants request_of
request_of-Wants true row = refl
request_of-Wants false row = stop_request-Wants (measurement_id_of row.last_measurement)

toggled_answer :
    (r : Request) (served : Bool) (row : ArtefactRow) (before : Bool)
    → row.is_running ≡ before
    → Wants r (not before)
    → (answered r served (record row { is_running = not before })).1
      ≡ record row { is_running = turned (done r served) before }
unfolding Wants answered done
toggled_answer (start id name) true row before e w = refl
toggled_answer (start id name) false row true e w = cc
toggled_answer (start id name) false row false e w = refl
toggled_answer (stop id) true row before e w = refl
toggled_answer (stop id) false row true e w = refl
toggled_answer (stop id) false row false e w = cc
toggled_answer (no_request n) served row before e w = refl

-- A toggle whose request fails leaves the row as it was before; one that is served, or that makes no
-- request, turns `isRunning` and changes nothing else.
pub toggle-answered :
    (row : ArtefactRow) (served : Bool)
    → let (request, toggled) = toggle_measurement row in
      (answered request served toggled).1
      ≡ record row { is_running = turned (done request served) row.is_running }
unfolding toggle_measurement
toggle-answered row served =
    toggled_answer (request_of (not row.is_running) row) served row row.is_running refl
      (request_of-Wants (not row.is_running) row)
