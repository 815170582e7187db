-- ===== src/Cobb/Charted.antt =====
-- A click on a bar of result-chart.component.ts, on the page of result-details.component.ts: the bar
-- and the results that are shown belong to one state.
use testbench.Common.{
  ℕ, zero, suc, ◌<◌, ◌≡◌, refl, Bool, true, false, Option, none, some, List, [], ◌∷◌, String,
  get_elem?, get_elem?-map, length, get_or_else, ap, ◌∙◌, ◌==◌, if◌then◌else◌,
}
use testbench.Cobb.Colors.{
  Colors, each, Dataset, update_bar_colors, color_from, reset_dataset, paint_dataset, with_points,
  highlight_dataset, highlight_line_dataset, highlight_bar_dataset, point_colors,
}
use testbench.Cobb.Highlight.{Shows, update_bar_colors-click}
use testbench.Cobb.Sums.{cumulative}
use testbench.Cobb.Letters.{to_lower_case}
use testbench.Cobb.Details.{
  StateResult, MeasurementResults, Event, totals_loaded, phases_loaded, clicked, bar, after,
  new_details, get_eco_digit_scores,
}
use testbench.Cobb.Shown.{clicks-show}
use testbench.Cobb.Clicks.{
  ResultChart, ChartEvent, ChartClickEvent, scores_loaded, scores_loaded_cumulative, chart_clicked,
  init_chart, set_data, element_clicked, on_click, chart_event, chart_after,
}

module _ {N : Type 0} where
  -- The chart has its bars and its line.
  HasBoth : List (Dataset N) → Type 0
  HasBoth ds =
      (b : Dataset N) × (l : Dataset N) × (ds ≡ b ∷ l ∷ [])
      × (b.is_line ≡ false)
      × (l.is_line ≡ true)

  paint-is_line :
      (color : String) (d : Dataset N) (k : Bool)
      → d.is_line ≡ k
      → (paint_dataset color d).is_line ≡ k
  unfolding paint_dataset with_points
  paint-is_line color d true e = rw e refl
  paint-is_line color d false e = rw e refl

  highlight-is_line :
      (c : Colors) (s : ℕ) (d : Dataset N) (b k : Bool)
      → d.is_line ≡ k
      → (highlight_dataset b c s d).is_line ≡ k
  unfolding highlight_dataset highlight_line_dataset highlight_bar_dataset
  highlight-is_line c s d true k e = e
  highlight-is_line c s d false k e = e

  colored-is_line :
      (c : Colors) (s : ℕ) (d : Dataset N) (hit k : Bool)
      → d.is_line ≡ k
      → (if hit then highlight_dataset d.is_line c s d else paint_dataset c.primary16 d).is_line ≡ k
  colored-is_line c s d true k e = highlight-is_line c s d d.is_line k e
  colored-is_line c s d false k e = paint-is_line c.primary16 d k e

  update_bar_colors-HasBoth :
      (c : Colors) (selected active : Option ℕ) (ds : List (Dataset N))
      → HasBoth ds
      → HasBoth (update_bar_colors c selected active ds)
  unfolding update_bar_colors HasBoth color_from reset_dataset
  update_bar_colors-HasBoth c none active ds (b, l, two, eb, el) =
      rw two (_, _, refl, paint-is_line _ b false eb, paint-is_line _ l true el)
  update_bar_colors-HasBoth c (some s) none ds (b, l, two, eb, el) =
      rw two (_, _, refl, paint-is_line _ b false eb, paint-is_line _ l true el)
  update_bar_colors-HasBoth c (some s) (some a) ds (b, l, two, eb, el) =
      rw two (
        _,
        _,
        refl,
        colored-is_line c s b (0 == a) false eb,
        colored-is_line c s l (1 == a) true el,
      )

  element_clicked-HasBoth :
      (c : Colors) (a i : ℕ) (d : Option (Dataset N)) (chart : ResultChart N)
      → HasBoth chart.datasets
      → HasBoth (element_clicked c a i d chart).0.datasets
  unfolding element_clicked
  element_clicked-HasBoth c a i none chart h = h
  element_clicked-HasBoth c a i (some d) chart h =
      update_bar_colors-HasBoth c (some i) (some a) chart.datasets h

  set_data-HasBoth :
      (n : ℕ) (values : List N) (ds : List (Dataset N))
      → HasBoth ds
      → HasBoth (set_data n values ds)
  unfolding HasBoth
  set_data-HasBoth zero values ds (b, l, two, eb, el) = rw two (_, _, refl, eb, el)
  set_data-HasBoth (suc zero) values ds (b, l, two, eb, el) = rw two (_, _, refl, eb, el)
  set_data-HasBoth (suc (suc n)) values ds (b, l, two, eb, el) = rw two (_, _, refl, eb, el)

  chart_after-HasBoth :
      (plus : N → N → N) (start : N) (c : Colors) (es : List (ChartEvent N)) (chart : ResultChart N)
      → HasBoth chart.datasets
      → HasBoth (chart_after plus start c es chart).datasets
  unfolding chart_after chart_event on_click
  chart_after-HasBoth plus start c [] chart h = h
  chart_after-HasBoth plus start c (scores_loaded xs ∷ es) chart h =
      chart_after-HasBoth plus start c es _ (set_data-HasBoth 0 xs chart.datasets h)
  chart_after-HasBoth plus start c (scores_loaded_cumulative xs ∷ es) chart h =
      chart_after-HasBoth plus start c es _
        (set_data-HasBoth 1 (cumulative plus start xs) chart.datasets h)
  chart_after-HasBoth plus start c (chart_clicked none ∷ es) chart h =
      chart_after-HasBoth plus start c es _ (update_bar_colors-HasBoth c none none chart.datasets h)
  chart_after-HasBoth plus start c (chart_clicked (some (a, i)) ∷ es) chart h =
      chart_after-HasBoth plus start c es _
        (element_clicked-HasBoth c a i (get_elem? chart.datasets a) chart h)

  -- What the page is told of a click.
  abbrev pub heard : Option ChartClickEvent → List (Event N)
  heard none = []
  heard (some e) = clicked e.source e.point_index ∷ []

  -- The scores of the results, for the bars and for the line.
  abbrev pub scored : N → MeasurementResults N → List (ChartEvent N)
  scored start res =
      let scores = get_eco_digit_scores start res in
      scores_loaded scores ∷ scores_loaded_cumulative scores ∷ []

  scored-click :
      (plus : N → N → N) (start : N) (c : Colors) (res : MeasurementResults N) (i : ℕ)
      (chart : ResultChart N)
      → HasBoth chart.datasets
      → let scores = get_eco_digit_scores start res in
        let (chart', told) =
          on_click c (some (0, i)) (chart_after plus start c (scored start res) chart) in
        (told ≡ some (record { source = bar; dataset_index = some 0; point_index = some i }))
        × (b : Dataset N) × (get_elem? chart'.datasets 0 ≡ some b)
        × (b.values ≡ scores)
        × (colors : List String) × (point_colors b ≡ each colors)
        × ((k : ℕ)
            → k < length scores
            → get_elem? colors k ≡ some (if k == i then c.tertiary else c.primary16))
  unfolding HasBoth on_click element_clicked chart_after chart_event Shows
  scored-click plus start c res i chart (b, l, two, eb, el) =
      rw (two, eb)
        (let (d, at, (same, colors, shown, each_at)) =
            update_bar_colors-click c i 0
              (record b { is_line = false; values = get_eco_digit_scores start res }
                ∷ record l { values = cumulative plus start (get_eco_digit_scores start res) }
                ∷ [])
              0 (record b { is_line = false; values = get_eco_digit_scores start res }) refl in
          (refl, d, at, same, colors, shown, each_at))

init_chart-HasBoth : (N : Type 0) (c : Colors) → HasBoth (init_chart {N = N} c).datasets
unfolding init_chart HasBoth
init_chart-HasBoth N c = (_, _, refl, refl, refl)

module _ {N : Type 0} (plus : N → N → N) (start : N) (c : Colors) where
  -- Whatever was loaded and clicked before on the chart and on the page, after both have loaded the
  -- results a click on the bar of a state shows the results of that state, the bar has the score
  -- of that state, and its colour is the highlight, that of all other bars the disabled one; a click outside then shows
  -- the totals.
  pub bar-click :
      (cs : List (ChartEvent N)) (es : List (Event N)) (res : MeasurementResults N) (i : ℕ)
      (r : StateResult N)
      → get_elem? res.states i ≡ some r
      → let chart =
          chart_after plus start c
            (scored start res)
            (chart_after plus start c cs (init_chart c)) in
        let page =
          after start
            (totals_loaded res ∷ phases_loaded res ∷ [])
            (after start es (new_details start)) in
        let (chart', told) = on_click c (some (0, i)) chart in
        let page' = after start (heard told) page in
        let page'' = after start (heard (on_click c none chart').1) page' in
        (page'.values ≡ r.gwp ∷ r.weee ∷ r.ced ∷ r.water ∷ r.adp ∷ r.tox ∷ [])
        × (page'.clicked_phase ≡ to_lower_case r.state)
        × (page''.values
            ≡ res.total_gwp ∷ res.total_weee ∷ res.total_ced ∷ res.total_water ∷ res.total_adp
              ∷ res.total_tox ∷ [])
        × (b : Dataset N) × (get_elem? chart'.datasets 0 ≡ some b)
        × (get_elem? b.values i ≡ some (get_or_else r.eco_digit_score start))
        × (colors : List String) × (point_colors b ≡ each colors)
        × ((k : ℕ)
            → k < length b.values
            → get_elem? colors k ≡ some (if k == i then c.tertiary else c.primary16))
  unfolding on_click
  bar-click cs es res i r at =
      let (told, b, found, same, colors, shown, each_at) =
        scored-click plus start c res i (chart_after plus start c cs (init_chart c))
          (chart_after-HasBoth plus start c cs (init_chart c) (init_chart-HasBoth N c)) in
      let shows = clicks-show start es res i r at in
      rw told (
        shows.0,
        shows.1,
        shows.2,
        b,
        found,
        ap (λ vs. get_elem? vs i) same
            ∙ (unfold get_eco_digit_scores in
                get_elem?-map (λ (s : StateResult N). get_or_else s.eco_digit_score start)
                  res.states i r at),
        colors,
        shown,
        λ k below. each_at k (rw same at below),
      )
