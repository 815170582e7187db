-- ===== src/Cobb/NextMonth.antt =====
-- What a click on a month of features/eco-insights shows.
use testbench.Common.{
  ℕ, zero, suc, ◌+◌, ◌≡◌, refl, none, some, List, [], ◌∷◌, map, get_elem?, get_elem?-map, length,
  sym, arith, replicate,
}
use testbench.Cobb.Colors.{Colors}
use testbench.Cobb.Months.{
  EcoInsightData, Insights, DatePipe, format_tooltip_title, shown_value, show_selection,
  highlight_selection, select, metrics_of, load_monthly_metrics, load_bar_data, shown_values,
  month_values,
}

get_elem?-past :
    {A : Type 0} {B : Type 0} (f : A → B) (xs : List A) (i : ℕ)
    → length xs ≡ i
    → get_elem? (map f xs) i ≡ none
get_elem?-past f [] i e = refl
get_elem?-past f (x ∷ xs) zero e = absurd (omega arith)
get_elem?-past f (x ∷ xs) (suc i) e = get_elem?-past f xs i (omega arith)

module _ {N : Type 0} where
  -- Where the months and the metrics were loaded from the same answer, a click on a month that
  -- is not the last names that month, and shows the six values of the month after it.
  pub click-shows_next :
      (start : N) (names : DatePipe) (c : Colors) (data_list : List (EcoInsightData N))
      (s : Insights N) (i : ℕ) (this next : EcoInsightData N)
      → get_elem? data_list i ≡ some this
      → get_elem? data_list (i + 1) ≡ some next
      → let loaded =
          load_monthly_metrics start names c data_list (load_bar_data names data_list s) in
        let clicked = select start names c (some i) loaded in
        (clicked.clicked_month ≡ format_tooltip_title names this.month)
        × (shown_values clicked ≡ month_values next)
  unfolding load_monthly_metrics load_bar_data select show_selection highlight_selection shown_value
      metrics_of
  click-shows_next start names c data_list s i this next at after = (
    rw (get_elem?-map (λ (d : EcoInsightData N). d.month) data_list i this at) refl,
    rw
        (
          get_elem?-map (λ (d : EcoInsightData N). d.total_global_warming_potential) data_list
              (i + 1) next after,
          get_elem?-map
              (λ (d : EcoInsightData N). d.total_waste_electrical_and_electronic_equipment)
              data_list (i + 1) next after,
          get_elem?-map (λ (d : EcoInsightData N). d.total_cumulative_energy_demand) data_list
              (i + 1) next after,
          get_elem?-map (λ (d : EcoInsightData N). d.total_water_consumption) data_list (i + 1) next
              after,
          get_elem?-map (λ (d : EcoInsightData N). d.total_abiotic_depletion_potential) data_list
              (i + 1) next after,
          get_elem?-map (λ (d : EcoInsightData N). d.total_ecotoxicity) data_list (i + 1) next
              after,
        )
        refl,
  )

  -- Where the months and the metrics were loaded from the same answer, a click on the last month
  -- names it and shows a zero for each of the six metrics.
  last_click-zero :
      (start : N) (names : DatePipe) (c : Colors) (data_list : List (EcoInsightData N))
      (s : Insights N) (i : ℕ) (this : EcoInsightData N)
      → get_elem? data_list i ≡ some this
      → i + 1 ≡ length data_list
      → let loaded =
          load_monthly_metrics start names c data_list (load_bar_data names data_list s) in
        let clicked = select start names c (some i) loaded in
        (clicked.clicked_month ≡ format_tooltip_title names this.month)
        × (shown_values clicked ≡ replicate 6 start)
  unfolding load_monthly_metrics load_bar_data select show_selection highlight_selection shown_value
      metrics_of
  last_click-zero start names c data_list s i this at last = (
    rw (get_elem?-map (λ (d : EcoInsightData N). d.month) data_list i this at) refl,
    rw
        (
          get_elem?-past (λ (d : EcoInsightData N). d.total_global_warming_potential) data_list
              (i + 1) (sym last),
          get_elem?-past
              (λ (d : EcoInsightData N). d.total_waste_electrical_and_electronic_equipment)
              data_list (i + 1) (sym last),
          get_elem?-past (λ (d : EcoInsightData N). d.total_cumulative_energy_demand) data_list
              (i + 1) (sym last),
          get_elem?-past (λ (d : EcoInsightData N). d.total_water_consumption) data_list (i + 1)
              (sym last),
          get_elem?-past (λ (d : EcoInsightData N). d.total_abiotic_depletion_potential) data_list
              (i + 1) (sym last),
          get_elem?-past (λ (d : EcoInsightData N). d.total_ecotoxicity) data_list (i + 1)
              (sym last),
        )
        refl,
  )
