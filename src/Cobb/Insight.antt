-- ===== src/Cobb/Insight.antt =====
-- eco-insight-chart.component.ts: the scores of the applications over the months, with
-- chart-selection.service.ts. `N` is the type of the scores.
use testbench.Common.{
  ℕ, zero, suc, ◌+◌, ◌%◌, ◌<◌, ◌≡◌, refl, Option, none, some, List, [], ◌∷◌, String, ◌===◌, ◌==◌,
  length, get_elem?, get_or_else, map, if◌then◌else◌, arith, ap, ◌∙◌, get_elem?-map,
}
use testbench.Cobb.Colors.{Color, one, each}

-- `MonthlyScore` and `DashboardChart`
pub record DashboardChart (N : Type 0) : Type 0 where
  pub application_name : String
  pub monthly_scores : List (String × N)

-- The colours that the chart takes of the colour service.
pub record ChartColors : Type 0 where
  pub chart_blue : String
  pub chart_green : String
  pub chart_orange : String
  pub chart_purple : String
  pub chart_red : String
  pub tertiary : String
  pub primary16 : String

pub record LineDataset (N : Type 0) : Type 0 where
  pub label : String
  pub values : List N
  pub border_color : String
  pub background_color : String
  pub point_background_color : Color
  pub point_border_color : Color

pub record LegendItem : Type 0 where
  pub label : String
  pub color : String

-- The fields of the component.
pub record InsightChart (N : Type 0) : Type 0 where
  pub application_list : List String
  pub full_app_data : List (String × List N)
  pub legend_items : List LegendItem
  pub datasets : List (LineDataset N)

abbrev color_array : ChartColors → List String
color_array c = c.chart_blue ∷ c.chart_green ∷ c.chart_orange ∷ c.chart_purple ∷ c.chart_red ∷ []

-- `colorArray[index % colorArray.length]`
unfoldable pub color_at : ChartColors → ℕ → String
color_at c index = get_or_else (get_elem? (color_array c) (index % 5)) ""

unfoldable pub legend_from : ChartColors → ℕ → List String → List LegendItem
legend_from c index [] = []
legend_from c index (app ∷ apps) =
    record { label = app; color = color_at c index } ∷ legend_from c (suc index) apps

module _ {N : Type 0} where
  -- `this.fullAppData[app] || []`, where the last write of a name counts.
  unfoldable pub data_of : List (String × List N) → String → List N
  data_of [] app = []
  data_of ((name, scores) ∷ rest) app =
      let others = data_of rest app in if name === app then scores else others

  unfoldable pub dataset : ChartColors → List (String × List N) → ℕ → String → LineDataset N
  dataset c full index app =
      let color = color_at c index in
      record {
        label = app;
        values = data_of full app;
        border_color = color;
        background_color = color;
        point_background_color = one color;
        point_border_color = one color;
      }

  unfoldable pub datasets_from :
      ChartColors → List (String × List N) → ℕ → List String → List (LineDataset N)
  unfolding dataset
  datasets_from c full index [] = []
  datasets_from c full index (app ∷ apps) =
      dataset c full index app ∷ datasets_from c full (suc index) apps

  -- `updateChartDatasets`
  unfoldable pub update_chart_datasets : ChartColors → List String → InsightChart N → InsightChart N
  unfolding datasets_from legend_from
  update_chart_datasets c selected_apps chart = record chart {
    datasets = datasets_from c chart.full_app_data 0 selected_apps;
    legend_items = legend_from c 0 selected_apps;
  }

  -- The walk of `loadApplications` over the answer; the last write stands first.
  unfoldable pub collect : List (DashboardChart N) → List (String × List N) → List (String × List N)
  collect [] full = full
  collect (app ∷ apps) full =
      collect apps ((app.application_name, map (λ (s : String × N). s.1) app.monthly_scores) ∷ full)

  -- `loadApplications`; the months and the highest score, which only the axes use, are left out.
  unfoldable pub load_applications :
      ChartColors → List (DashboardChart N) → InsightChart N → InsightChart N
  unfolding collect
  load_applications c apps chart =
      let names = map (λ (a : DashboardChart N). a.application_name) apps in
      update_chart_datasets c names
        (record chart { application_list = names; full_app_data = collect apps [] })

  point_colors_from : ChartColors → ℕ → ℕ → List N → List String
  point_colors_from c index i [] = []
  point_colors_from c index i (v ∷ vs) =
      (if i == index then c.tertiary else c.primary16) ∷ point_colors_from c index (suc i) vs

  unfoldable pub highlighted_dataset : ChartColors → ℕ → LineDataset N → LineDataset N
  unfolding point_colors_from
  highlighted_dataset c index d =
      let colors = point_colors_from c index 0 d.values in
      record d {
        background_color = c.primary16;
        border_color = c.primary16;
        point_background_color = each colors;
        point_border_color = each colors;
      }

  -- `highlightPoint`
  unfoldable pub highlight_point : ChartColors → ℕ → InsightChart N → InsightChart N
  unfolding highlighted_dataset
  highlight_point c index chart = record chart {
    datasets = map (highlighted_dataset c index) chart.datasets;
  }

  -- `subscribeToSelection`: the selected index, or none after a click outside.
  unfoldable pub on_selection : ChartColors → Option ℕ → InsightChart N → InsightChart N
  on_selection c none chart = update_chart_datasets c chart.application_list chart
  on_selection c (some index) chart = highlight_point c index chart

  abbrev pub legend_item_of : LineDataset N → LegendItem
  legend_item_of d = record { label = d.label; color = d.border_color }

  legend_from-datasets :
      (c : ChartColors) (full : List (String × List N)) (index : ℕ) (apps : List String)
      → legend_from c index apps ≡ map legend_item_of (datasets_from c full index apps)
  unfolding legend_from datasets_from dataset
  legend_from-datasets c full index [] = refl
  legend_from-datasets c full index (app ∷ apps) =
      ap (λ rest. record { label = app; color = color_at c index } ∷ rest)
        (legend_from-datasets c full (suc index) apps)

  -- The legend shows the label and the colour of each line, in the order of the lines, whatever
  -- applications are chosen and also after a click outside of the chart.
  legend-matches :
      (c : ChartColors) (apps : List String) (chart : InsightChart N)
      → let chosen = update_chart_datasets c apps chart in
        let outside = on_selection c none chosen in
        (chosen.legend_items ≡ map legend_item_of chosen.datasets)
        × (outside.legend_items ≡ map legend_item_of outside.datasets)
  unfolding update_chart_datasets on_selection
  legend-matches c apps chart = (
    legend_from-datasets c chart.full_app_data 0 apps,
    legend_from-datasets c chart.full_app_data 0 chart.application_list,
  )

  point_colors_from-at :
      (c : ChartColors) (index i : ℕ) (vs : List N) (k : ℕ)
      → k < length vs
      → get_elem? (point_colors_from c index i vs) k
        ≡ some (if i + k == index then c.tertiary else c.primary16)
  unfolding point_colors_from
  point_colors_from-at c index i [] k b = absurd (omega (arith, b))
  point_colors_from-at c index i (v ∷ vs) zero b =
      let shift : i + zero ≡ i = omega arith in rw shift refl
  point_colors_from-at c index i (v ∷ vs) (suc k) b =
      let shift : i + suc k ≡ suc i + k = omega arith in
      rw shift (point_colors_from-at c index (suc i) vs k (omega (arith, b)))

  -- After a click on the i-th month every line has the highlight colour at that month and the
  -- disabled one at each other month, and its scores are as before.
  month-highlighted :
      (c : ChartColors) (index : ℕ) (chart : InsightChart N) (j : ℕ) (d : LineDataset N)
      → get_elem? chart.datasets j ≡ some d
      → (d' : LineDataset N) × (get_elem? (on_selection c (some index) chart).datasets j ≡ some d')
        × (d'.values ≡ d.values)
        × (colors : List String) × (d'.point_background_color ≡ each colors)
        × ((k : ℕ)
            → k < length d.values
            → get_elem? colors k ≡ some (if k == index then c.tertiary else c.primary16))
  unfolding on_selection highlight_point highlighted_dataset
  month-highlighted c index chart j d at = (
    highlighted_dataset c index d,
    get_elem?-map (highlighted_dataset c index) chart.datasets j d at,
    refl,
    point_colors_from c index 0 d.values,
    refl,
    λ k b.
        let shift : 0 + k ≡ k = omega arith in
        point_colors_from-at c index 0 d.values k b
        ∙ ap (λ n. some (if n == index then c.tertiary else c.primary16)) shift,
  )
