-- ===== src/Cobb/Tests.antt =====
-- States, rows, charts and pages at concrete inputs.
use testbench.Common.{
  ℕ, suc, ◌+◌, ◌<◌, ◌≡◌, refl, ◌≢◌, true, false, Option, none, some, [], ◌∷◌, String, All, length,
  get_elem?,
}
use testbench.Cobb.State.{is_state, value_of, get_status_info, never_triggered}
use testbench.Cobb.Letters.{to_lower_case}
use testbench.Cobb.Stepper.{
  new_stepper, on_changes, is_current, is_completed, failure-after_created,
}
use testbench.Cobb.Rows.{Row, Update, update_all, fetch_measurements, Page}
use testbench.Cobb.Derived.{IsDerived, rows-IsDerived}
use testbench.Cobb.Page.{new_page, set_selected, download_csv_file, IsRefused, download-IsRefused}
use testbench.Cobb.Colors.{Colors, Dataset, point_colors, each}
use testbench.Cobb.Clicks.{chart_after, init_chart, on_click}
use testbench.Cobb.Charted.{heard, scored, bar-click}
use testbench.Common.{get_or_else, if◌then◌else◌, ◌==◌, List, String}
use testbench.Cobb.Sums.{cumulative, total, take, cumulative-prefix_sums}
use testbench.Cobb.Colors.{Colors, Dataset, unset}
use testbench.Cobb.Details.{
  StateResult, MeasurementResults, line, clicked, totals_loaded, phases_loaded, handle, after,
  new_details,
}
use testbench.Cobb.Shown.{line-click-nothing}
use testbench.Cobb.Artefacts.{ArtefactRow}
use testbench.Cobb.Stream.{
  Subscription, subscribe, connect, Steps, here, then_step, leave, unsubscribe, IsLive,
  Steps-IsLive,
}
use testbench.Cobb.Bars.{Inputs}

abbrev row : Row
row = record {
  id = "m1";
  name = "n";
  measurement_state = "WORK";
  last_updated = "2024";
  trigger = some "manual";
  state = "";
  status_class = "";
  icon = "";
  tooltip = "";
}

abbrev done_row : Row
done_row = record row { measurement_state = "COMPLETED" }

abbrev finished : Update
finished = record { measurement_id = "m1"; measurement_state = "COMPLETED" }

abbrev page : Page
page = record {
  rows = [];
  has_error = false;
  last_measurement_formatted = none;
  measurement_count = 0;
}

abbrev time : String → Option ℕ
time s = some 1

abbrev digits : ℕ → String
digits n = "n"

abbrev colors : Colors
colors = record { primary = "p"; primary16 = "d"; primary_fix = "f"; tertiary = "t" }

abbrev bars : Dataset ℕ
bars = record {
  is_line = false;
  values = 3 ∷ 4 ∷ [];
  background_color = unset;
  border_color = unset;
  point_background_color = unset;
  point_border_color = unset;
}

abbrev prepare : StateResult ℕ
prepare = record {
  adp = 1;
  ced = 2;
  eco_digit_score = none;
  gwp = 3;
  state = "PREPARE";
  tox = 4;
  water = 5;
  weee = 6;
}

abbrev results : MeasurementResults ℕ
results = record {
  total_adp = 1;
  total_ced = 2;
  total_gwp = 3;
  total_tox = 4;
  total_water = 5;
  total_weee = 6;
  states = prepare ∷ [];
}

abbrev artefact : ArtefactRow
artefact = record {
  id = "a1";
  custom_file_name = none;
  original_file_name = "app.apk";
  last_measurement = none;
  state = none;
  status_class = "";
  icon = "";
  tooltip = "";
  is_running = false;
}

never_triggered_example : (get_status_info (some "QUEUED")).status ≢ "status-triggered"
never_triggered_example = never_triggered (some "QUEUED")

failure-after_created_example :
    let before = on_changes new_stepper (some "CREATED") none in
    let after_failure = on_changes before (some "ABORTED") (some "CREATED") in
    (before.current_step ≡ some 0)
    × ((i : ℕ) → (is_current after_failure i ≡ false) × (is_completed after_failure i ≡ false))
failure-after_created_example = failure-after_created new_stepper "ABORTED" refl

rows-IsDerived_example :
    All IsDerived (update_all (finished ∷ []) (fetch_measurements time page (some (row ∷ []))).rows)
rows-IsDerived_example = rows-IsDerived time page (row ∷ []) (finished ∷ [])

download-IsRefused_example :
    IsRefused
      (download_csv_file true (some "m1") (set_selected (λ s. s) done_row (new_page (some "m1"))))
unfolding is_state value_of
download-IsRefused_example =
    download-IsRefused (λ s. s) true (some "m1") done_row (new_page (some "m1")) refl

cumulative-prefix_sums_example :
    (length (cumulative (λ a b. a + b) 0 (3 ∷ 4 ∷ [])) ≡ 2)
    × ((i : ℕ)
        → i < 2
        → get_elem? (cumulative (λ a b. a + b) 0 (3 ∷ 4 ∷ [])) i
          ≡ some (total (λ a b. a + b) 0 (take (λ a b. a + b) (suc i) (3 ∷ 4 ∷ []))))
cumulative-prefix_sums_example = cumulative-prefix_sums (λ a b. a + b) 0 (3 ∷ 4 ∷ [])

line-click-nothing_example :
    let d = after 0 (phases_loaded results ∷ []) (new_details 0) in
    handle 0 (clicked line (some 0)) d ≡ some d
line-click-nothing_example = line-click-nothing 0 (phases_loaded results ∷ []) 0

abbrev left_at_once : Subscription String
left_at_once = record { is_open = false; made = 1; retry_timeout = false; left = true; seen = [] }

leave_at_once : Steps subscribe left_at_once
unfolding subscribe unsubscribe connect
leave_at_once = then_step here (leave refl)

Steps-IsLive_example : IsLive left_at_once
Steps-IsLive_example = Steps-IsLive leave_at_once

abbrev inputs : Inputs ℕ
inputs = record {
  selected_category = some "adp";
  category_data = some (3 ∷ 4 ∷ []);
  all_last_measurements = some ("m1" ∷ "m2" ∷ []);
}

abbrev palette : Colors
palette = record { primary = "p"; primary16 = "d"; primary_fix = "f"; tertiary = "t" }

bar-click_example :
    let chart =
      chart_after
        (λ a b. a + b)
        0
        palette
        (scored 0 results)
        (chart_after (λ a b. a + b) 0 palette [] (init_chart palette)) in
    let page =
      after 0 (totals_loaded results ∷ phases_loaded results ∷ []) (after 0 [] (new_details 0)) in
    let (chart', told) = on_click palette (some (0, 0)) chart in
    let page' = after 0 (heard told) page in
    let page'' = after 0 (heard (on_click palette none chart').1) page' in
    (page'.values ≡ 3 ∷ 6 ∷ 2 ∷ 5 ∷ 1 ∷ 4 ∷ [])
    × (page'.clicked_phase ≡ to_lower_case "PREPARE")
    × (page''.values ≡ 3 ∷ 6 ∷ 2 ∷ 5 ∷ 1 ∷ 4 ∷ [])
    × (b : Dataset ℕ) × (get_elem? chart'.datasets 0 ≡ some b)
    × (get_elem? b.values 0 ≡ some (get_or_else prepare.eco_digit_score 0))
    × (colors : List String) × (point_colors b ≡ each colors)
    × ((k : ℕ) → k < length b.values → get_elem? colors k ≡ some (if k == 0 then "t" else "d"))
bar-click_example = bar-click (λ a b. a + b) 0 palette [] [] results 0 prepare refl
