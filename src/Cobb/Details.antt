-- ===== src/Cobb/Details.antt =====
-- result-details.component.ts, with `getTotals` and `getPerPhase` of measurement.service.ts: which
-- values the page of a measurement shows, for numbers of any type with a zero.
use testbench.Common.{ℕ, Option, none, some, List, [], ◌∷◌, String, map, get_elem?, get_or_else}
use testbench.Cobb.Letters.{to_lower_case}

-- `StateResult`: the results of one state of the virtual machine.
pub record StateResult (N : Type 0) : Type 0 where
  pub adp : N
  pub ced : N
  pub eco_digit_score : Option N
  pub gwp : N
  pub state : String
  pub tox : N
  pub water : N
  pub weee : N

-- `MeasurementResults`
pub record MeasurementResults (N : Type 0) : Type 0 where
  pub total_adp : N
  pub total_ced : N
  pub total_gwp : N
  pub total_tox : N
  pub total_water : N
  pub total_weee : N
  pub states : List (StateResult N)

-- `UiMeasurementTotals`
pub record Totals (N : Type 0) : Type 0 where
  pub total_global_warming_potential : N
  pub total_waste_electrical_and_electronic_equipment : N
  pub total_cumulative_energy_demand : N
  pub total_water_consumption : N
  pub total_abiotic_depletion_potential : N
  pub total_eco_toxity : N

-- `UiMeasurementDetailRow`
pub record DetailRow (N : Type 0) : Type 0 where
  pub phase : String
  pub totals : Totals N

-- A click on the chart, as it is told; the fields are null outside of it.
pub data ClickSource : Type 0 where
  bar : ClickSource
  line : ClickSource
  outside : ClickSource

-- What the values are those of.
pub data Clicked : Type 0 where
  total : Clicked
  per_phase : Clicked
  cumulative : Clicked

-- The fields of the component; of the displayed metrics their values.
pub record Details (N : Type 0) : Type 0 where
  pub is_clicked : Clicked
  pub clicked_phase : String
  pub values : List N
  pub total_result : Totals N
  pub details_per_phase : List (DetailRow N)
  pub details_cumulative : List (DetailRow N)

-- What happens to the page: the answers of the service, and clicks.
pub data Event (N : Type 0) : Type 0 where
  totals_loaded : MeasurementResults N → Event N
  phases_loaded : MeasurementResults N → Event N
  clicked : ClickSource → Option ℕ → Event N

module _ {N : Type 0} where
  -- `getTotals`
  unfoldable pub get_totals : MeasurementResults N → Totals N
  get_totals res = record {
    total_global_warming_potential = res.total_gwp;
    total_waste_electrical_and_electronic_equipment = res.total_weee;
    total_cumulative_energy_demand = res.total_ced;
    total_water_consumption = res.total_water;
    total_abiotic_depletion_potential = res.total_adp;
    total_eco_toxity = res.total_tox;
  }

  unfoldable pub phase_row : StateResult N → DetailRow N
  phase_row res = record {
    phase = to_lower_case res.state;
    totals = record {
      total_global_warming_potential = res.gwp;
      total_waste_electrical_and_electronic_equipment = res.weee;
      total_cumulative_energy_demand = res.ced;
      total_water_consumption = res.water;
      total_abiotic_depletion_potential = res.adp;
      total_eco_toxity = res.tox;
    };
  }

  -- `getPerPhase`
  unfoldable pub get_per_phase : MeasurementResults N → List (DetailRow N)
  unfolding phase_row
  get_per_phase res = map phase_row res.states

  -- `getEcoDigitScores`
  unfoldable pub get_eco_digit_scores : N → MeasurementResults N → List N
  get_eco_digit_scores zero res =
      map (λ (s : StateResult N). get_or_else s.eco_digit_score zero) res.states

  -- The values in the order of `metricOrder`.
  unfoldable pub in_metric_order : Totals N → List N
  in_metric_order t =
      t.total_global_warming_potential ∷ t.total_waste_electrical_and_electronic_equipment
      ∷ t.total_cumulative_energy_demand ∷ t.total_water_consumption
      ∷ t.total_abiotic_depletion_potential ∷ t.total_eco_toxity ∷ []

  -- `applyValues`: one value for each metric, zero where there is none.
  unfoldable pub apply_values : N → List N → List N → List N
  apply_values zero [] values = []
  apply_values zero (m ∷ ms) [] = zero ∷ apply_values zero ms []
  apply_values zero (m ∷ ms) (v ∷ vs) = v ∷ apply_values zero ms vs

  unfoldable pub load_totals_and_apply : N → Details N → Details N
  load_totals_and_apply zero d = record d {
    values = apply_values zero d.values (in_metric_order d.total_result);
    is_clicked = total;
    clicked_phase = "";
  }

  unfoldable pub show_row : N → Clicked → DetailRow N → Details N → Details N
  show_row zero kind row d = record d {
    values = apply_values zero d.values (in_metric_order row.totals);
    is_clicked = kind;
    clicked_phase = row.phase;
  }

  -- A bar without a row is a TypeError, `none`, and a point of the line without one is nothing.
  unfoldable pub bar_clicked : N → Option (DetailRow N) → Details N → Option (Details N)
  unfolding show_row
  bar_clicked zero none d = none
  bar_clicked zero (some row) d = some (show_row zero per_phase row d)

  unfoldable pub line_clicked : N → Option (DetailRow N) → Details N → Details N
  unfolding show_row
  line_clicked zero none d = d
  line_clicked zero (some row) d = show_row zero cumulative row d

  -- `onChartInteraction`
  unfoldable pub on_chart_interaction : N → ClickSource → Option ℕ → Details N → Option (Details N)
  unfolding bar_clicked line_clicked
  on_chart_interaction zero bar (some i) d = bar_clicked zero (get_elem? d.details_per_phase i) d
  on_chart_interaction zero line (some i) d =
      some (line_clicked zero (get_elem? d.details_cumulative i) d)
  on_chart_interaction zero source point d = some (load_totals_and_apply zero d)

  unfoldable pub handle : N → Event N → Details N → Option (Details N)
  handle zero (totals_loaded res) d =
      some (load_totals_and_apply zero (record d { total_result = get_totals res }))
  handle zero (phases_loaded res) d = some (record d { details_per_phase = get_per_phase res })
  handle zero (clicked source point) d = on_chart_interaction zero source point d

  -- The page after the events; a TypeError in one leaves it as it was.
  unfoldable pub after : N → List (Event N) → Details N → Details N
  after zero [] d = d
  after zero (e ∷ es) d = after zero es (get_or_else (handle zero e d) d)

  unfoldable pub new_details : N → Details N
  new_details zero = record {
    is_clicked = total;
    clicked_phase = "";
    values = zero ∷ zero ∷ zero ∷ zero ∷ zero ∷ zero ∷ [];
    total_result = record {
      total_global_warming_potential = zero;
      total_waste_electrical_and_electronic_equipment = zero;
      total_cumulative_energy_demand = zero;
      total_water_consumption = zero;
      total_abiotic_depletion_potential = zero;
      total_eco_toxity = zero;
    };
    details_per_phase = [];
    details_cumulative = [];
  }
