-- ===== src/Cobb/Bars.antt =====
-- variable-bar-chart.component.ts: the bars of one category, and the one that is selected.
use testbench.Common.{
  ℕ, zero, suc, ◌+◌, ◌<◌, ◌≡◌, refl, Bool, true, false, Option, none, some, List, [], ◌∷◌, String,
  ◌==◌, length, get_elem?, get_or_else, if◌then◌else◌, arith, ap, ◌∙◌, replicate,
}
use testbench.Cobb.Colors.{Colors, Color, each, one}

-- The inputs of the component; an input that is not bound is `none`.
pub record Inputs (N : Type 0) : Type 0 where
  pub selected_category : Option String
  pub category_data : Option (List N)
  pub all_last_measurements : Option (List String)

-- Which inputs a change names.
pub record Changes : Type 0 where
  pub category_data : Bool
  pub selected_category : Bool
  pub all_last_measurements : Bool

-- The chart with its one dataset, and the field `selectedIndex`.
pub record BarChart (N : Type 0) : Type 0 where
  pub labels : List String
  pub label : String
  pub values : List N
  pub background_color : Color
  pub selected_index : Option ℕ

bar_colors_from : {N : Type 0} → Colors → ℕ → ℕ → List N → List String
bar_colors_from c selected i [] = []
bar_colors_from c selected i (v ∷ vs) =
    (if i == selected then c.tertiary else c.primary16) ∷ bar_colors_from c selected (suc i) vs

module _ {N : Type 0} where
  -- `initBarChart`
  unfoldable pub init_bar_chart : Colors → Inputs N → BarChart N
  init_bar_chart c inputs = record {
    labels = get_or_else inputs.all_last_measurements [];
    label = get_or_else inputs.selected_category "";
    values = get_or_else inputs.category_data [];
    background_color = one c.primary;
    selected_index = none;
  }

  -- `updateChartData`, where there are data.
  with_data : Bool → Option (List N) → BarChart N → BarChart N
  with_data true (some values) chart = record chart { values = values }
  with_data true none chart = chart
  with_data false values chart = chart

  with_label : Bool → Option String → BarChart N → BarChart N
  with_label true category chart = record chart { label = get_or_else category "" }
  with_label false category chart = chart

  with_labels : Bool → Option (List String) → BarChart N → BarChart N
  with_labels true labels chart = record chart { labels = get_or_else labels [] }
  with_labels false labels chart = chart

  -- `ngOnChanges`, once the chart is made.
  unfoldable pub on_input_changes : Changes → Inputs N → BarChart N → BarChart N
  unfolding with_data with_label with_labels
  on_input_changes changes inputs chart =
      with_labels changes.all_last_measurements inputs.all_last_measurements (
        with_label changes.selected_category inputs.selected_category
          (with_data changes.category_data inputs.category_data chart))

  bar_colors : Colors → Option ℕ → List N → List String
  unfolding bar_colors_from
  bar_colors c none values = replicate (length values) c.primary
  bar_colors c (some selected) values = bar_colors_from c selected 0 values

  -- `updateBarColors`
  unfoldable pub update_bar_chart_colors : Colors → BarChart N → BarChart N
  unfolding bar_colors
  update_bar_chart_colors c chart = record chart {
    background_color = each (bar_colors c chart.selected_index chart.values);
  }

  -- `onClick`: the index of the bar, or none outside, with what is told by `selectedBarIndex`.
  unfoldable pub on_bar_click : Colors → Option ℕ → BarChart N → Option ℕ × BarChart N
  on_bar_click c index chart =
      (index, update_bar_chart_colors c (record chart { selected_index = index }))

  bar_colors_from-at :
      (c : Colors) (selected i : ℕ) (vs : List N) (k : ℕ)
      → k < length vs
      → get_elem? (bar_colors_from c selected i vs) k
        ≡ some (if i + k == selected then c.tertiary else c.primary16)
  unfolding bar_colors_from
  bar_colors_from-at c selected i [] k b = absurd (omega (arith, b))
  bar_colors_from-at c selected i (v ∷ vs) zero b =
      let shift : i + zero ≡ i = omega arith in rw shift refl
  bar_colors_from-at c selected i (v ∷ vs) (suc k) b =
      let shift : i + suc k ≡ suc i + k = omega arith in
      rw shift (bar_colors_from-at c selected (suc i) vs k (omega (arith, b)))

  -- After any change of the inputs a click on a bar tells its index, gives that bar the highlight
  -- colour and each other bar the disabled one, one colour for each value; the values and the labels
  -- stay.
  bar-click :
      (c : Colors) (changes : Changes) (inputs : Inputs N) (chart : BarChart N) (selected : ℕ)
      → let before = on_input_changes changes inputs chart in
        let (told, after) = on_bar_click c (some selected) before in
        (told ≡ some selected)
        × (after.values ≡ before.values)
        × (after.labels ≡ before.labels)
        × (colors : List String) × (after.background_color ≡ each colors)
        × ((k : ℕ)
            → k < length before.values
            → get_elem? colors k ≡ some (if k == selected then c.tertiary else c.primary16))
  unfolding on_bar_click update_bar_chart_colors bar_colors
  bar-click c changes inputs chart selected = (
    refl,
    refl,
    refl,
    bar_colors_from c selected 0 (on_input_changes changes inputs chart).values,
    refl,
    λ k b.
        let shift : 0 + k ≡ k = omega arith in
        bar_colors_from-at c selected 0 (on_input_changes changes inputs chart).values k b
        ∙ ap (λ n. some (if n == selected then c.tertiary else c.primary16)) shift,
  )
