-- ===== src/Cobb/Scores.antt =====
-- eco-insight-chart.component.ts as a whole: its months, the choice of applications, and clicks.
use testbench.Common.{
  ℕ, ◌≡◌, Bool, Option, none, some, List, [], ◌∷◌, String, get_elem?, map, if◌then◌else◌,
}
use testbench.Cobb.Months.{DatePipe, format_month, format_tooltip_title}
use testbench.Cobb.Insight.{
  DashboardChart, ChartColors, InsightChart, update_chart_datasets, load_applications, on_selection,
}

-- The fields of the component: the chart with what it is drawn from, the value of `applications`, the
-- labels and keys of the months, and the highest score. `month_keys` is undefined without an answer.
pub record Scores (N : Type 0) : Type 0 where
  pub chart : InsightChart N
  pub chosen : List String
  pub month_labels : List String
  pub month_keys : Option (List String)
  pub max_score : N

-- What the user does: to choose applications, and to click on a month or outside of all.
pub data ChartInput : Type 0 where
  chose : List String → ChartInput
  clicked_at : Option ℕ → ChartInput

-- `formatTooltipTitle`; an index without a key is a TypeError.
unfoldable pub tooltip_title : DatePipe → ℕ → Option (List String) → Option String
tooltip_title pipe index none = none
tooltip_title pipe index (some keys) = elim (get_elem? keys index) [
  | none ↦ none
  | some month ↦ some (format_tooltip_title pipe month)
]

module _ {N : Type 0} where
  abbrev months_of : DashboardChart N → List String
  months_of app = map (λ (s : String × N). s.0) app.monthly_scores

  -- `getMonthLabelsFromData`
  unfoldable pub get_month_labels_from_data : DatePipe → List (DashboardChart N) → List String
  get_month_labels_from_data pipe [] = []
  get_month_labels_from_data pipe (app ∷ apps) = map (format_month pipe) (months_of app)

  -- `appdata[0]?.monthlyScores.map(…)`
  unfoldable pub month_keys_of : List (DashboardChart N) → Option (List String)
  month_keys_of [] = none
  month_keys_of (app ∷ apps) = some (months_of app)

  -- `if (localMax > this.maxScore)` for the largest of some scores, which is one of them, if any.
  higher : (N → N → Bool) → N → List (String × N) → N
  higher lt highest [] = highest
  higher lt highest ((month, score) ∷ scores) =
      higher lt (if lt highest score then score else highest) scores

  highest_of : (N → N → Bool) → N → List (DashboardChart N) → N
  unfolding higher
  highest_of lt highest [] = highest
  highest_of lt highest (app ∷ apps) = highest_of lt (higher lt highest app.monthly_scores) apps

  -- `loadApplications`, with the selection that its subscription gives at once, which is none.
  unfoldable pub load_scores :
      (N → N → Bool) → DatePipe → ChartColors → List (DashboardChart N) → Scores N → Scores N
  unfolding highest_of
  load_scores lt pipe c apps s =
      let loaded = load_applications c apps s.chart in
      record {
        chart = on_selection c none loaded;
        chosen = loaded.application_list;
        month_labels = get_month_labels_from_data pipe apps;
        month_keys = month_keys_of apps;
        max_score = highest_of lt s.max_score apps;
      }

  -- `handleSelectionChanges`, and the click of the chart's options.
  unfoldable pub on_input : ChartColors → ChartInput → Scores N → Scores N
  on_input c (chose apps) s = record s {
    chosen = apps;
    chart = update_chart_datasets c apps s.chart;
  }
  on_input c (clicked_at index) s = record s { chart = on_selection c index s.chart }

  unfoldable pub after_inputs : ChartColors → List ChartInput → Scores N → Scores N
  after_inputs c [] s = s
  after_inputs c (i ∷ is) s = after_inputs c is (on_input c i s)

  -- What no input changes: of which applications there are scores.
  abbrev IsSame : InsightChart N → InsightChart N → Type 0
  IsSame a b = (a.application_list ≡ b.application_list) × (a.full_app_data ≡ b.full_app_data)
