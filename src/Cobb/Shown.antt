-- ===== src/Cobb/Shown.antt =====
-- What the page of result-details.component.ts shows after loads and clicks.
use testbench.Common.{
  ℕ, ◌≡◌, refl, Option, none, some, List, [], ◌∷◌, get_elem?, get_elem?-map, get_or_else, ap, ◌∙◌,
}
use testbench.Cobb.Letters.{to_lower_case}
use testbench.Cobb.Details.{
  StateResult, MeasurementResults, Totals, DetailRow, ClickSource, bar, line, outside, total,
  Details, get_totals, phase_row, get_per_phase, in_metric_order, apply_values,
  load_totals_and_apply, show_row, bar_clicked, line_clicked, on_chart_interaction, Event,
  totals_loaded, phases_loaded, clicked, handle, after, new_details,
}

module _ {N : Type 0} (start : N) where
  -- There is a value for each of the six metrics, and no cumulative row.
  HasSix : List N → Type 0
  HasSix values =
      (a : N) × (b : N) × (c : N) × (d : N) × (e : N) × (f : N) × (values
        ≡ a ∷ b ∷ c ∷ d ∷ e ∷ f ∷ [])

  IsPage : Details N → Type 0
  IsPage d = HasSix d.values × (d.details_cumulative ≡ [])

  apply_values-totals :
      (values : List N) (t : Totals N)
      → HasSix values
      → apply_values start values (in_metric_order t) ≡ in_metric_order t
  unfolding HasSix apply_values in_metric_order
  apply_values-totals values t (a, b, c, d, e, f, six) = rw six refl

  six_of :
      (values : List N) (t : Totals N)
      → HasSix values
      → HasSix (apply_values start values (in_metric_order t))
  unfolding HasSix apply_values in_metric_order
  six_of values t (a, b, c, d, e, f, six) = rw six (_, _, _, _, _, _, refl)

  totals-IsPage : (d : Details N) → IsPage d → IsPage (load_totals_and_apply start d)
  unfolding IsPage load_totals_and_apply
  totals-IsPage d (six, empty) = (six_of d.values d.total_result six, empty)

  bar-IsPage :
      (row : Option (DetailRow N)) (d : Details N)
      → IsPage d
      → IsPage (get_or_else (bar_clicked start row d) d)
  unfolding IsPage bar_clicked show_row
  bar-IsPage none d h = h
  bar-IsPage (some row) d (six, empty) = (six_of d.values row.totals six, empty)

  line-IsPage :
      (row : Option (DetailRow N)) (d : Details N) → IsPage d → IsPage (line_clicked start row d)
  unfolding IsPage line_clicked show_row
  line-IsPage none d h = h
  line-IsPage (some row) d (six, empty) = (six_of d.values row.totals six, empty)

  click-IsPage :
      (source : ClickSource) (point : Option ℕ) (d : Details N)
      → IsPage d
      → IsPage (get_or_else (on_chart_interaction start source point d) d)
  unfolding on_chart_interaction
  click-IsPage bar (some i) d h = bar-IsPage (get_elem? d.details_per_phase i) d h
  click-IsPage line (some i) d h = line-IsPage (get_elem? d.details_cumulative i) d h
  click-IsPage bar none d h = totals-IsPage d h
  click-IsPage line none d h = totals-IsPage d h
  click-IsPage outside point d h = totals-IsPage d h

  handle-IsPage :
      (e : Event N) (d : Details N) → IsPage d → IsPage (get_or_else (handle start e d) d)
  unfolding handle IsPage
  handle-IsPage (totals_loaded res) d h =
      totals-IsPage (record d { total_result = get_totals res }) h
  handle-IsPage (phases_loaded res) d h = h
  handle-IsPage (clicked source point) d h = click-IsPage source point d h

  after-IsPage : (es : List (Event N)) (d : Details N) → IsPage d → IsPage (after start es d)
  unfolding after
  after-IsPage [] d h = h
  after-IsPage (e ∷ es) d h =
      after-IsPage es (get_or_else (handle start e d) d) (handle-IsPage e d h)

  new-IsPage : IsPage (new_details start)
  unfolding IsPage HasSix new_details
  new-IsPage = ((_, _, _, _, _, _, refl), refl)

  -- Whatever was loaded and clicked before, a click on a point of the line changes nothing.
  pub line-click-nothing :
      (es : List (Event N)) (i : ℕ)
      → let d = after start es (new_details start) in
        handle start (clicked line (some i)) d ≡ some d
  unfolding handle on_chart_interaction
  line-click-nothing es i =
      let d = after start es (new_details start) in
      let h = after-IsPage es (new_details start) new-IsPage in
      let empty : d.details_cumulative ≡ [] = unfold IsPage in h.1 in
      ap (λ rows. some (line_clicked start (get_elem? rows i) d)) empty
      ∙ (unfold line_clicked in refl)

  -- The two clicks on a page that has loaded the results.
  Shows : Details N → MeasurementResults N → ℕ → StateResult N → Type 0
  Shows page res i r =
      let loaded = after start (totals_loaded res ∷ phases_loaded res ∷ []) page in
      let on_bar = after start (clicked bar (some i) ∷ []) loaded in
      let off_bar = after start (clicked outside none ∷ []) on_bar in
      (on_bar.values ≡ r.gwp ∷ r.weee ∷ r.ced ∷ r.water ∷ r.adp ∷ r.tox ∷ [])
      × (on_bar.clicked_phase ≡ to_lower_case r.state)
      × (off_bar.values
          ≡ res.total_gwp ∷ res.total_weee ∷ res.total_ced ∷ res.total_water ∷ res.total_adp
            ∷ res.total_tox ∷ [])
      × (off_bar.is_clicked ≡ total)

  show_of :
      (page : Details N) (res : MeasurementResults N) (i : ℕ) (r : StateResult N)
      → get_elem? res.states i ≡ some r
      → IsPage page
      → Shows page res i r
  unfolding Shows IsPage HasSix after handle on_chart_interaction bar_clicked show_row
      load_totals_and_apply apply_values in_metric_order get_totals get_per_phase phase_row
  show_of page res i r at ((a, b, c, d, e, f, six), empty) =
      rw (get_elem?-map phase_row res.states i r at, six) (refl, refl, refl, refl)

  -- Whatever was loaded and clicked before, after the results are loaded a click on the bar of a
  -- state shows the results of that state, and a click outside then shows the totals.
  pub clicks-show :
      (es : List (Event N)) (res : MeasurementResults N) (i : ℕ) (r : StateResult N)
      → get_elem? res.states i ≡ some r
      → let loaded =
          after start
            (totals_loaded res ∷ phases_loaded res ∷ [])
            (after start es (new_details start)) in
        let on_bar = after start (clicked bar (some i) ∷ []) loaded in
        let off_bar = after start (clicked outside none ∷ []) on_bar in
        (on_bar.values ≡ r.gwp ∷ r.weee ∷ r.ced ∷ r.water ∷ r.adp ∷ r.tox ∷ [])
        × (on_bar.clicked_phase ≡ to_lower_case r.state)
        × (off_bar.values
            ≡ res.total_gwp ∷ res.total_weee ∷ res.total_ced ∷ res.total_water ∷ res.total_adp
              ∷ res.total_tox ∷ [])
        × (off_bar.is_clicked ≡ total)
  unfolding Shows
  clicks-show es res i r at =
      show_of (after start es (new_details start)) res i r at
        (after-IsPage es (new_details start) new-IsPage)
