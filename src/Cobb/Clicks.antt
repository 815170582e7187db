-- ===== src/Cobb/Clicks.antt =====
-- result-chart.component.ts: loading the scores, and a click on the chart with what is told of it.
use testbench.Common.{ℕ, zero, suc, Bool, true, false, Option, none, some, List, [], ◌∷◌, get_elem?}
use testbench.Cobb.Colors.{Colors, unset, one, Dataset, update_bar_colors}
use testbench.Cobb.Sums.{cumulative}
use testbench.Cobb.Details.{ClickSource, bar, line, outside}

-- `ChartClickEvent`
pub record ChartClickEvent : Type 0 where
  pub source : ClickSource
  pub dataset_index : Option ℕ
  pub point_index : Option ℕ

-- The fields of the component, the datasets being those of its chart.
pub record ResultChart (N : Type 0) : Type 0 where
  pub datasets : List (Dataset N)
  pub active_dataset_index : Option ℕ
  pub selected_point_index : Option ℕ

-- What happens to the chart: the scores come, for the bars and for the line, or it is clicked, on the
-- element of a dataset and an index, or outside of all.
pub data ChartEvent (N : Type 0) : Type 0 where
  scores_loaded : List N → ChartEvent N
  scores_loaded_cumulative : List N → ChartEvent N
  chart_clicked : Option (ℕ × ℕ) → ChartEvent N

abbrev source_of : Bool → ClickSource
source_of true = line
source_of false = bar

module _ {N : Type 0} where
  -- The chart of `initChart`: the bars and the line, without values.
  unfoldable pub init_chart : Colors → ResultChart N
  init_chart c = record {
    datasets =
        record {
          is_line = false;
          values = [];
          background_color = one c.primary;
          border_color = unset;
          point_background_color = unset;
          point_border_color = unset;
        }
        ∷ record {
          is_line = true;
          values = [];
          background_color = one c.primary_fix;
          border_color = one c.primary_fix;
          point_background_color = unset;
          point_border_color = unset;
        }
        ∷ [];
    active_dataset_index = none;
    selected_point_index = none;
  }

  -- `this.chart.data.datasets[n].data = values`
  abbrev pub set_data : ℕ → List N → List (Dataset N) → List (Dataset N)
  set_data n values [] = []
  set_data zero values (d ∷ ds) = record d { values = values } ∷ ds
  set_data (suc n) values (d ∷ ds) = d ∷ set_data n values ds

  abbrev colored : Colors → Option ℕ → Option ℕ → ResultChart N → ResultChart N
  colored c selected active chart = record chart {
    active_dataset_index = active;
    selected_point_index = selected;
    datasets = update_bar_colors c selected active chart.datasets;
  }

  -- The click on an element, for the dataset that it is of; without one reading its type throws, and
  -- only the indices are set.
  unfoldable pub element_clicked :
      Colors → ℕ → ℕ → Option (Dataset N) → ResultChart N → ResultChart N × Option ChartClickEvent
  element_clicked c dataset index none chart = (
    record chart { active_dataset_index = some dataset; selected_point_index = some index },
    none,
  )
  element_clicked c dataset index (some d) chart = (
    colored c (some index) (some dataset) chart,
    some (record {
      source = source_of d.is_line;
      dataset_index = some dataset;
      point_index = some index;
    }),
  )

  -- `onClick` of the chart's options: the chart afterwards, and the event that is told.
  unfoldable pub on_click :
      Colors → Option (ℕ × ℕ) → ResultChart N → ResultChart N × Option ChartClickEvent
  unfolding element_clicked
  on_click c none chart = (
    colored c none none chart,
    some (record { source = outside; dataset_index = none; point_index = none }),
  )
  on_click c (some (dataset, index)) chart =
      element_clicked c dataset index (get_elem? chart.datasets dataset) chart

  -- `getEcoDigitScoresPerPhase`, `getEcoDigitScoresCumulative` and a click.
  unfoldable pub chart_event :
      (N → N → N) → N → Colors → ChartEvent N → ResultChart N → ResultChart N
  chart_event plus start c (scores_loaded scores) chart = record chart {
    datasets = set_data 0 scores chart.datasets;
  }
  chart_event plus start c (scores_loaded_cumulative scores) chart = record chart {
    datasets = set_data 1 (cumulative plus start scores) chart.datasets;
  }
  chart_event plus start c (chart_clicked element) chart = (on_click c element chart).0

  -- The chart after some events.
  unfoldable pub chart_after :
      (N → N → N) → N → Colors → List (ChartEvent N) → ResultChart N → ResultChart N
  chart_after plus start c [] chart = chart
  chart_after plus start c (e ∷ es) chart =
      chart_after plus start c es (chart_event plus start c e chart)
