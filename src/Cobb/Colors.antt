-- ===== src/Cobb/Colors.antt =====
-- result-chart.component.ts: the colours of the datasets, after a click or without one.
use testbench.Common.{
  ℕ, suc, Bool, true, false, Option, none, some, List, [], ◌∷◌, String, ◌==◌, length, replicate,
  set, if◌then◌else◌, ltb, map,
}

-- The colours that the chart takes of the colour service.
pub record Colors : Type 0 where
  pub primary : String
  pub primary16 : String
  pub primary_fix : String
  pub tertiary : String

-- A colour of a dataset: none set yet, one for all its points, or one for each.
pub data Color : Type 0 where
  unset : Color
  one : String → Color
  each : List String → Color

-- A dataset of `chart.data.datasets`; `is_line` says whether its type is 'line', 'bar' being the other.
pub record Dataset (N : Type 0) : Type 0 where
  pub is_line : Bool
  pub values : List N
  pub background_color : Color
  pub border_color : Color
  pub point_background_color : Color
  pub point_border_color : Color

-- `fillColorArray`
abbrev pub fill_color_array : ℕ → String → List String
fill_color_array n color = replicate n color

-- `addHighlight`: an index out of range is left out.
unfoldable pub add_highlight : List String → ℕ → String → List String
add_highlight colors index highlight_color =
    if ltb index (length colors) then set colors index highlight_color else colors

unfoldable pub border : Bool → String → List String → Color
border true color colors = one color
border false color colors = each colors

module _ {N : Type 0} where
  -- The colours of a line's points, which a bar has not.
  unfoldable pub with_points : Bool → List String → Dataset N → Dataset N
  with_points false colors d = d
  with_points true colors d = record d {
    point_background_color = each colors;
    point_border_color = each colors;
  }

  -- `disableDataset`, and a step of `resetAllDatasetsToBase`: one colour for the whole dataset.
  unfoldable pub paint_dataset : String → Dataset N → Dataset N
  unfolding with_points border
  paint_dataset color d =
      let colors = fill_color_array (length d.values) color in
      with_points d.is_line colors
        (record d { background_color = each colors; border_color = border d.is_line color colors })

  unfoldable pub highlight_line_dataset : Colors → ℕ → Dataset N → Dataset N
  highlight_line_dataset c selected_index d =
      let all_disabled = fill_color_array (length d.values) c.primary16 in
      let highlighted = add_highlight all_disabled selected_index c.tertiary in
      record d {
        background_color = each all_disabled;
        border_color = one c.primary16;
        point_background_color = each highlighted;
        point_border_color = each highlighted;
      }

  unfoldable pub highlight_bar_dataset : Colors → ℕ → Dataset N → Dataset N
  highlight_bar_dataset c selected_index d =
      let highlighted =
        add_highlight (fill_color_array (length d.values) c.primary16) selected_index c.tertiary in
      record d { background_color = each highlighted; border_color = each highlighted }

  unfoldable pub highlight_dataset : Bool → Colors → ℕ → Dataset N → Dataset N
  highlight_dataset true = highlight_line_dataset
  highlight_dataset false = highlight_bar_dataset

  unfoldable pub reset_dataset : Colors → Dataset N → Dataset N
  reset_dataset c d = paint_dataset (if d.is_line then c.primary_fix else c.primary) d

  -- The loop of `updateBarColors`, from the dataset `i` on.
  unfoldable pub color_from : Colors → ℕ → ℕ → ℕ → List (Dataset N) → List (Dataset N)
  unfolding highlight_dataset
  color_from c selected_index active_dataset_index i [] = []
  color_from c selected_index active_dataset_index i (d ∷ ds) =
      let rest = color_from c selected_index active_dataset_index (suc i) ds in
      (if i == active_dataset_index
        then highlight_dataset d.is_line c selected_index d
        else paint_dataset c.primary16 d)
      ∷ rest

  unfoldable pub update_bar_colors :
      Colors → Option ℕ → Option ℕ → List (Dataset N) → List (Dataset N)
  unfolding color_from reset_dataset
  update_bar_colors c none active ds = map (reset_dataset c) ds
  update_bar_colors c (some selected) none ds = map (reset_dataset c) ds
  update_bar_colors c (some selected) (some active) ds = color_from c selected active 0 ds

  -- The colours of the points of a dataset: of the bars, or of the points of the line.
  unfoldable pub points_of : Bool → Dataset N → Color
  points_of true d = d.point_background_color
  points_of false d = d.background_color

  unfoldable pub point_colors : Dataset N → Color
  unfolding points_of
  point_colors d = points_of d.is_line d
