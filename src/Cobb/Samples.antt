-- ===== src/Cobb/Samples.antt =====
-- Screens, lists, forms and links at concrete inputs.
use testbench.Common.{
  ℕ, ◌≡◌, refl, true, false, none, some, [], ◌∷◌, map, length, All, ◌≤◌, join, split, ◌⊎◌, ◌+++◌,
}
use testbench.Cobb.Rows.{Row, Update, update_all}
use testbench.Cobb.Views.{view, write_all, view-update_all}
use testbench.Cobb.Colors.{Colors, unset}
use testbench.Cobb.Months.{
  EcoInsightData, Insights, DatePipe, load_monthly_metrics, load_bar_data, select, shown_values,
  month_values, format_tooltip_title,
}
use testbench.Cobb.NextMonth.{click-shows_next}
use testbench.Cobb.Categories.{Normalized, chosen, barred, handle_all, start, Values}
use testbench.Cobb.Settled.{IsSettled, screen-IsSettled}
use testbench.Cobb.Recent.{Measurement, completed_measurements, is_completed}
use testbench.Cobb.Latest.{IsDescending, Stands, completed-latest}
use testbench.Common.{ℕ, List, String, replicate}
use mathlib.Core.Option
use testbench.Cobb.Recent.{Details, measurements_loaded}
use testbench.Cobb.Categories.{
  handle, on_changes, update_with, update_category_values, recompute_derived, on_init,
}
use testbench.Cobb.Screens.{PageEvent, loaded, clicked, screen, bars-names}
use testbench.Cobb.Overview.{ContextOverview, Application}
use testbench.Cobb.Tables.{Dashboard, Dto}
use testbench.Cobb.Leaving.{
  Deleting, artefact, deleted, urls, url_from, without_last, routes_of, deleted-above,
}
use testbench.Cobb.Naming.{
  NameForm, EditEvent, saved, kept, opened, run, edit_application, edit_context, IsNamed,
  requests-IsNamed,
}
use testbench.Cobb.Crumbs.{Route, Breadcrumb, build_breadcrumb, full_path, collapse, resolved}
use testbench.Cobb.Trail.{labels, has_double, IsNested, build-trail}
use testbench.Cobb.Numbers.{is_integer_text, convert, decode, decode-convert}
use testbench.Cobb.Forms.{
  File, new_upload, IsChecked, dropped, submitted, answered, upload-IsChecked,
}
use testbench.Cobb.Forms as Forms
use testbench.Cobb.Repositories.{is_url}

abbrev colors : Colors
colors = record { primary = "p"; primary16 = "d"; primary_fix = "f"; tertiary = "t" }

abbrev row : Row
row = record {
  id = "m1";
  name = "n";
  measurement_state = "RUNNING";
  last_updated = "2024";
  trigger = none;
  state = "running";
  status_class = "";
  icon = "";
  tooltip = "";
}

abbrev finished : Update
finished = record { measurement_id = "m1"; measurement_state = "COMPLETED" }

view-update_all_example :
    view (update_all (finished ∷ []) (row ∷ [])) ≡ write_all (finished ∷ []) (view (row ∷ []))
view-update_all_example = view-update_all (finished ∷ []) (row ∷ [])

abbrev may : EcoInsightData ℕ
may = record {
  month = "2024-05";
  measurements = 2;
  total_global_warming_potential = 1;
  total_waste_electrical_and_electronic_equipment = 2;
  total_cumulative_energy_demand = 3;
  total_water_consumption = 4;
  total_abiotic_depletion_potential = 5;
  total_ecotoxicity = 6;
}

abbrev june : EcoInsightData ℕ
june = record may { month = "2024-06"; total_water_consumption = 9 }

abbrev names : DatePipe
names = record { transform = λ year month format. some "May" }

abbrev insights : Insights ℕ
insights = record {
  is_clicked = false;
  displayed_metrics = [];
  metrics = [];
  total_eco_indicators = [];
  raw_months = [];
  months_label = [];
  measurements = [];
  background_color = unset;
  border_color = unset;
  clicked_month = "";
}

click-shows_next_example :
    let loaded =
      load_monthly_metrics 0 names colors
        (may ∷ june ∷ [])
        (load_bar_data names (may ∷ june ∷ []) insights) in
    let clicked = select 0 names colors (some 0) loaded in
    (clicked.clicked_month ≡ format_tooltip_title names "2024-05")
    × (shown_values clicked ≡ month_values june)
click-shows_next_example =
    click-shows_next 0 names colors (may ∷ june ∷ []) insights 0 may june refl refl

abbrev values : Values ℕ
values = record { ecodigit_score = 1; adp = 2; ced = 3; gwp = 4; water = 5; weee = 6; tox = 7 }

abbrev item : Normalized ℕ
item = record { name = "m"; last_measurement = values }

screen-IsSettled_example :
    IsSettled (handle_all (chosen 4 ∷ barred (some 0) ∷ []) (start (item ∷ [])))
screen-IsSettled_example = screen-IsSettled (item ∷ []) (chosen 4 ∷ barred (some 0) ∷ [])

abbrev old : Measurement
old = record { name = "a"; description = none; measurement_state = "COMPLETED"; time = 1 }

abbrev recent : Measurement
recent = record old { name = "b"; time = 2 }

abbrev running : Measurement
running = record old { name = "c"; measurement_state = "RUNNING"; time = 3 }

completed-latest_example :
    let shown = completed_measurements (old ∷ running ∷ recent ∷ []) in
    (length shown ≤ 10)
    × All (λ (m : Measurement). m.measurement_state ≡ "COMPLETED") shown
    × IsDescending shown
    × ((k : Measurement)
        → is_completed k ≡ true
        → Stands k (old ∷ running ∷ recent ∷ [])
        → Stands k shown ⊎ ((length shown ≡ 10) × All (λ (x : Measurement). k.time ≤ x.time) shown))
completed-latest_example = completed-latest (old ∷ running ∷ recent ∷ [])

-- The two completed ones, the later one first.
latest_two : completed_measurements (old ∷ running ∷ recent ∷ []) ≡ recent ∷ old ∷ []
unfolding completed_measurements
latest_two = refl

abbrev applications : Route
applications = record {
  path = some "applications";
  params = λ name. none;
  label = some "Applications";
}

abbrev one_application : Route
one_application = record {
  path = some "/:applicationId/";
  params = λ name. some "a1";
  label = some "Application";
}

build-trail_example :
    let crumbs = build_breadcrumb (applications ∷ one_application ∷ []) "" in
    (map (λ (b : Breadcrumb). b.label) crumbs ≡ labels (applications ∷ one_application ∷ []))
    × All (λ (b : Breadcrumb). has_double b.link ≡ false) crumbs
    × IsNested crumbs
build-trail_example = build-trail (applications ∷ one_application ∷ []) ""

two_links :
    map (λ (b : Breadcrumb). b.link) (build_breadcrumb (applications ∷ one_application ∷ []) "")
    ≡ "/applications" ∷ "/applications/a1/" ∷ []
unfolding build_breadcrumb full_path collapse split resolved join ◌+++◌
two_links = refl

decode-convert_example : decode (convert "-12") ≡ "-12"
unfolding is_integer_text
decode-convert_example = decode-convert "-12" refl

abbrev archive : File
archive = record { name = "App.ZIP"; content = "" }

upload-IsChecked_example :
    IsChecked
      (Forms.handle_all (dropped (some archive) ∷ submitted ∷ answered ∷ []) (new_upload "c1"))
upload-IsChecked_example =
    upload-IsChecked "c1" (dropped (some archive) ∷ submitted ∷ answered ∷ [])

-- The pattern of a link lets a space be the second character of the host.
space_in_link : is_url "http://a b" ≡ true
unfolding is_url
space_in_link = refl

abbrev no_details : Details
no_details = record {
  context_id = "c1";
  context_name = none;
  description = none;
  selected_tab_index = 0;
  normalized_measurements = [];
  at_least_one_measurement_is_completed = false;
}

abbrev page_events : List PageEvent
page_events = loaded (old ∷ running ∷ recent ∷ []) ∷ clicked 3 ∷ []

two_bars : (screen (λ m. values) no_details page_events).category_values ≡ some (4 ∷ 4 ∷ [])
unfolding handle_all handle on_changes update_with update_category_values recompute_derived start
    on_init measurements_loaded completed_measurements
two_bars = refl

two_names :
    (screen (λ m. values) no_details page_events).all_last_measurements ≡ some ("b" ∷ "a" ∷ [])
unfolding handle_all handle on_changes update_with update_category_values recompute_derived start
    on_init measurements_loaded completed_measurements
two_names = refl

bars-names_example : length {A = ℕ} (4 ∷ 4 ∷ []) ≡ length {A = String} ("b" ∷ "a" ∷ [])
bars-names_example =
    bars-names (λ m. values) no_details page_events (4 ∷ 4 ∷ []) ("b" ∷ "a" ∷ []) two_bars two_names

-- With eleven measurements, which the page of an application can have, a name has no bar.
eleven_names :
    (Option.map length (start (replicate 11 item)).category_values ≡ some 10)
    × (Option.map length (start (replicate 11 item)).all_last_measurements ≡ some 11)
unfolding start handle on_init on_changes update_with update_category_values recompute_derived
eleven_names = (refl, refl)

abbrev shop : ContextOverview
shop = record {
  context_id = "c1";
  name = "shop";
  description = none;
  last_measurement = some running;
}

abbrev application : Application
application = record {
  application_name = none;
  description = none;
  selected_tab_index = 0;
  metrics = [];
  overview_data = none;
  normalized_measurements = [];
  at_least_one_measurement_is_completed = true;
}

abbrev dashboard : Dashboard
dashboard = record {
  last_measurement_state = none;
  status_color = none;
  status_icon = none;
  metrics = none;
}

abbrev dto : Dto ℕ
dto = record { measurement_state = some "WORK"; details = 0 }

abbrev renamed : NameForm
renamed = record { name = some "shop"; description = "" }

abbrev unnamed : NameForm
unnamed = record renamed { name = some "" }

abbrev edits : List EditEvent
edits = saved unnamed ∷ saved renamed ∷ kept "shop" none ∷ []

requests-IsNamed_example :
    All (IsNamed "a1") (run (edit_application "a1") edits (opened application)).requests
    × All (IsNamed "a1") (run (edit_context "a1") edits (opened no_details)).requests
requests-IsNamed_example = requests-IsNamed "a1" edits application no_details

abbrev nothing_deleted : Deleting
nothing_deleted = record { requests = []; messages = []; visited = []; closed = none }

deleted-above_example :
    (urls (deleted (artefact "a1" "c1" "i1") nothing_deleted)
      ≡ url_from "" (without_last (routes_of (artefact "a1" "c1" "i1"))) ∷ [])
    × ((deleted (artefact "a1" "c1" "i1") nothing_deleted).closed ≡ some true)
deleted-above_example = deleted-above (artefact "a1" "c1" "i1") nothing_deleted
