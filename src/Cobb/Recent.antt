-- ===== src/Cobb/Recent.antt =====
-- features/applications/pages/application-context-details/application-context-details.component.ts:
-- the last completed measurements of a context, and the context's name. `time` stands for
-- `new Date(lastUpdated).getTime()`, on dates that are valid.
use testbench.Common.{
  ℕ, Bool, true, false, Option, none, some, List, [], ◌∷◌, String, map, ltb, filter, take, ◌===◌,
  if◌then◌else◌,
}

-- `MeasurementOverviewData`, as far as the page reads it.
pub record Measurement : Type 0 where
  pub name : String
  pub description : Option String
  pub measurement_state : String
  pub time : ℕ

-- `NormalizedMeasurement`
pub record Normalized : Type 0 where
  pub context_id : String
  pub name : String
  pub description : Option String
  pub last_measurement : Measurement

-- The fields of the component.
pub record Details : Type 0 where
  pub context_id : String
  pub context_name : Option String
  pub description : Option String
  pub selected_tab_index : ℕ
  pub normalized_measurements : List Normalized
  pub at_least_one_measurement_is_completed : Bool

-- `measurement.measurementState === MeasurementState.COMPLETED`
abbrev pub is_completed : Measurement → Bool
is_completed m = m.measurement_state === "COMPLETED"

-- `Array.prototype.sort` is stable; the comparison puts a later time first.
unfoldable pub insert : Measurement → List Measurement → List Measurement
insert m [] = m ∷ []
insert m (x ∷ xs) = let rest = insert m xs in if ltb m.time x.time then x ∷ rest else m ∷ x ∷ xs

unfoldable pub sort : List Measurement → List Measurement
unfolding insert
sort [] = []
sort (m ∷ ms) = insert m (sort ms)

-- `completedMeasurements`
unfoldable pub completed_measurements : List Measurement → List Measurement
unfolding sort
completed_measurements ms = take 10 (sort (filter is_completed ms))

abbrev pub normalized : String → Measurement → Normalized
normalized context_id m = record {
  context_id = context_id;
  name = m.name;
  description = m.description;
  last_measurement = m;
}

abbrev pub is_filled : List Measurement → Bool
is_filled [] = false
is_filled (m ∷ ms) = true

-- The answer to `loadContextMeasurements`.
unfoldable pub measurements_loaded : List Measurement → Details → Details
unfolding completed_measurements
measurements_loaded ms d =
    let completed : List Measurement = completed_measurements ms in
    record d {
      normalized_measurements = map (normalized d.context_id) completed;
      at_least_one_measurement_is_completed = is_filled completed;
    }

-- `onTabChange`
unfoldable pub on_tab_change : ℕ → Details → Details
on_tab_change index d = record d { selected_tab_index = index }

-- `ngOnInit`, on the answer of `getContextById`.
unfoldable pub context_loaded : String → Option String → Details → Details
context_loaded name description d = record d { context_name = some name; description = description }

-- The answer to `editContext`: its name, and its description or the empty text.
unfoldable pub context_edited : String → Option String → Details → Details
context_edited name description d = record d {
  context_name = some name;
  description = some (given description);
}
  where
    given : Option String → String
    given none = ""
    given (some text) = text
