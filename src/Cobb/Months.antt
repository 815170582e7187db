-- ===== src/Cobb/Months.antt =====
-- features/eco-insights: eco-insights.component.ts, which shows the values of a month, and
-- measurement-bar-chart.component.ts, where the month is chosen; both listen to
-- chart-selection.service.ts. `N` is the type of the values, which have a zero.
use testbench.Common.{
  ℕ, suc, ◌+◌, Bool, true, false, Option, none, some, List, [], ◌∷◌, String, map, get_elem?, length,
  get_or_else, ◌==◌, if◌then◌else◌, replicate, split, ◌+++◌,
}
use testbench.Cobb.Colors.{Colors, Color, each}

-- `EcoInsightData`
pub record EcoInsightData (N : Type 0) : Type 0 where
  pub month : String
  pub measurements : N
  pub total_global_warming_potential : N
  pub total_waste_electrical_and_electronic_equipment : N
  pub total_cumulative_energy_demand : N
  pub total_water_consumption : N
  pub total_abiotic_depletion_potential : N
  pub total_ecotoxicity : N

-- `Metric` and `DisplayMetric`, without their images.
pub record Metric (N : Type 0) : Type 0 where
  pub title : String
  pub unit : String
  pub values : List N

pub record DisplayMetric (N : Type 0) : Type 0 where
  pub title : String
  pub unit : String
  pub value : N

-- The fields of the two components; of the chart, its one dataset.
pub record Insights (N : Type 0) : Type 0 where
  pub is_clicked : Bool
  pub displayed_metrics : List (DisplayMetric N)
  pub metrics : List (Metric N)
  pub total_eco_indicators : List N
  pub raw_months : List String
  pub months_label : List String
  pub measurements : List N
  pub background_color : Color
  pub border_color : Color
  pub clicked_month : String

-- The date pipe, of the first day of a month in a year: `new Date(+year, +month - 1)`, which is no
-- date without a month, and the format.
pub record DatePipe : Type 0 where
  pub transform : String → Option String → String → Option String

-- `const [year, month] = months.split('-')`
abbrev year_of : List String → String
year_of [] = ""
year_of (year ∷ rest) = year

abbrev month_of : List String → Option String
month_of [] = none
month_of (year ∷ rest) = get_elem? rest 0

unfoldable pub format_month : DatePipe → String → String
format_month pipe months =
    let parts : List String = split "-" months in
    get_or_else (pipe.transform (year_of parts) (month_of parts) "MMM") ""

-- `formatTooltipTitle`, of the month that it finds.
unfoldable pub format_tooltip_title : DatePipe → String → String
format_tooltip_title pipe months =
    let parts : List String = split "-" months in
    get_or_else (pipe.transform (year_of parts) (month_of parts) "MMMM") ""
    +++ " "
    +++ year_of parts

module _ {N : Type 0} where
  -- `metric.values[index] ?? 0`; the image of a metric is left out.
  unfoldable pub shown_value : N → ℕ → Metric N → DisplayMetric N
  shown_value start i metric = record {
    title = metric.title;
    unit = metric.unit;
    value = get_or_else (get_elem? metric.values i) start;
  }

  -- The metrics with the indicators of the whole time, the i-th with the i-th.
  shown_totals : N → List N → List (Metric N) → List (DisplayMetric N)
  shown_totals start totals [] = []
  shown_totals start [] (m ∷ ms) =
      record { title = m.title; unit = m.unit; value = start } ∷ shown_totals start [] ms
  shown_totals start (t ∷ ts) (m ∷ ms) =
      record { title = m.title; unit = m.unit; value = t } ∷ shown_totals start ts ms

  -- `selectionCheck` of eco-insights.component.ts.
  unfoldable pub show_selection : N → Option ℕ → Insights N → Insights N
  unfolding shown_value shown_totals
  show_selection start (some index) s = record s {
    is_clicked = true;
    displayed_metrics = map (shown_value start (index + 1)) s.metrics;
  }
  show_selection start none s = record s {
    is_clicked = false;
    displayed_metrics = shown_totals start s.total_eco_indicators s.metrics;
  }

  month_colors_from : Colors → ℕ → ℕ → List N → List String
  month_colors_from c index i [] = []
  month_colors_from c index i (v ∷ vs) =
      (if i == index then c.tertiary else c.primary16) ∷ month_colors_from c index (suc i) vs

  -- `Array.isArray(backgroundColor)` decides whether the bars get their colour back; their borders
  -- keep theirs.
  reset_color : Colors → List N → Color → Color
  reset_color c values (each colors) = each (replicate (length values) c.primary)
  reset_color c values color = color

  -- `selectionCheck` of measurement-bar-chart.component.ts; reading a month that is not there is a
  -- TypeError, after the colours are set and before a month is told.
  unfoldable pub highlight_selection : DatePipe → Colors → Option ℕ → Insights N → Insights N
  unfolding month_colors_from reset_color
  highlight_selection names c (some index) s = record s {
    background_color = each (month_colors_from c index 0 s.measurements);
    border_color = each (month_colors_from c index 0 s.measurements);
    clicked_month = told (get_elem? s.raw_months index) s.clicked_month;
  }
    where
      told : Option String → String → String
      told none before = before
      told (some month) before = format_tooltip_title names month
  highlight_selection names c none s = record s {
    background_color = reset_color c s.measurements s.background_color;
  }

  -- The subscribers of a selection.
  unfoldable pub select : N → DatePipe → Colors → Option ℕ → Insights N → Insights N
  select start names c index s = show_selection start index (highlight_selection names c index s)

  -- The metrics of `loadMonthlyMetrics`.
  unfoldable pub metrics_of : List (EcoInsightData N) → List (Metric N)
  metrics_of data_list =
      record {
        title = "Global Warming Potential";
        unit = "in kg CO2-eq (GWP)";
        values = map (λ (d : EcoInsightData N). d.total_global_warming_potential) data_list;
      }
      ∷ record {
        title = "Waste Electrical and Electronic Equip.";
        unit = "in kg (WEEE)";
        values =
            map (λ (d : EcoInsightData N). d.total_waste_electrical_and_electronic_equipment)
              data_list;
      }
      ∷ record {
        title = "Cumulative Energy Demand";
        unit = "in kWh (CED)";
        values = map (λ (d : EcoInsightData N). d.total_cumulative_energy_demand) data_list;
      }
      ∷ record {
        title = "Water Consumption";
        unit = "in m3 (Water)";
        values = map (λ (d : EcoInsightData N). d.total_water_consumption) data_list;
      }
      ∷ record {
        title = "Abiotic Depletion Potential";
        unit = "in kg Sb-eq (ADP)";
        values = map (λ (d : EcoInsightData N). d.total_abiotic_depletion_potential) data_list;
      }
      ∷ record {
        title = "Hazardous Substances Potential";
        unit = "in kg MEG-eq";
        values = map (λ (d : EcoInsightData N). d.total_ecotoxicity) data_list;
      }
      ∷ []

  -- `loadMonthlyMetrics`, which clears the selection.
  unfoldable pub load_monthly_metrics :
      N → DatePipe → Colors → List (EcoInsightData N) → Insights N → Insights N
  load_monthly_metrics start names c data_list s =
      select start names c none (record s { metrics = metrics_of data_list })

  -- `loadMetrics`; the values of the response stand in the order of its fields.
  unfoldable pub load_metrics : N → DatePipe → Colors → List N → Insights N → Insights N
  load_metrics start names c indicators s =
      select start names c none (record s { total_eco_indicators = indicators })

  -- `loadBarData`
  unfoldable pub load_bar_data : DatePipe → List (EcoInsightData N) → Insights N → Insights N
  load_bar_data names data_list s = record s {
    raw_months = map (λ (d : EcoInsightData N). d.month) data_list;
    months_label = map (λ (d : EcoInsightData N). format_month names d.month) data_list;
    measurements = map (λ (d : EcoInsightData N). d.measurements) data_list;
  }

  -- The values that the page shows, in the order of the metrics.
  abbrev pub shown_values : Insights N → List N
  shown_values s = map (λ (d : DisplayMetric N). d.value) s.displayed_metrics

  abbrev pub month_values : EcoInsightData N → List N
  month_values d =
      d.total_global_warming_potential ∷ d.total_waste_electrical_and_electronic_equipment
      ∷ d.total_cumulative_energy_demand ∷ d.total_water_consumption
      ∷ d.total_abiotic_depletion_potential ∷ d.total_ecotoxicity ∷ []
